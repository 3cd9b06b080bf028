-- ===== src/NodeJoin/Steps.antt =====
-- The plan of an installation, in the parts that the methods of `NodeJoin` carry out.
use nodedeploy_controller.Prelude.{String, ◌++◌, Option}
use nodedeploy_controller.Api.{NodeInfo}
use nodedeploy_controller.Machine.Plans.{Plan, Performs}
use nodedeploy_controller.Env.{Env}
use nodedeploy_controller.Ssh.{Client}
use nodedeploy_controller.NodeJoin.{NodeJoin}

pub record Steps : Type 1 where
  pub probing : Plan
  pub packing : String → String → Plan
  pub firewall : Plan
  pub docker : String → Plan
  pub configuring : String → String → String → Plan
  pub naming : String → Plan
  pub images : Plan
  pub components : Plan
  pub joining : Plan

-- What follows the check of the architecture, which has given `arch`, and of the version.
abbrev pub install_plan : Steps → NodeInfo → String → String → Plan
install_plan st info arch version =
    st.packing arch version
    ++ (st.firewall
        ++ (st.docker arch
            ++ (st.configuring info.harbor_user info.harbor_pwd info.harbor_endpoint
                ++ (st.naming info.node_name ++ (st.images ++ (st.components ++ st.joining))))))

module _ (E : Env) where
  -- The methods of a node carry out the steps.
  pub record Implements (st : Steps) (c : Option (Client E)) (n : NodeJoin E) : Type 1 where
    pub probes : Performs st.probing (n.check_arch c)
    pub packs :
        (arch version : String)
        → Performs (st.packing arch version) (n.prepare_setup_pkg c arch version)
    pub stops_firewall : Performs st.firewall (n.stop_firewalld c)
    pub installs_docker : (arch : String) → Performs (st.docker arch) (n.install_docker c arch)
    pub configures :
        (user pwd endpoint : String)
        → Performs (st.configuring user pwd endpoint) (n.set_docker_conf c user pwd endpoint)
    pub names_host : (name : String) → Performs (st.naming name) (n.set_host_name c name)
    pub loads_images : Performs st.images (n.load_image c)
    pub sets_components : Performs st.components (n.set_node_components c)
    pub joins : Performs st.joining (n.join c)
