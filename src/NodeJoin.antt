-- ===== src/NodeJoin.antt =====
-- pkg/nodemanager/join.go and disjoin.go: the interfaces `NodeJoin` and `NodeDisJoin`. A nil
-- `*Client` is `none`.
pub mod Shared
pub mod Steps
pub mod Work
pub mod KubeEdge
use nodedeploy_controller.Prelude.{String, Option}
use nodedeploy_controller.Machine.{Outcome, State}
use nodedeploy_controller.Env.{Env}
use nodedeploy_controller.Ssh.{Client}

module _ (E : Env) where
  pub record NodeJoin : Type 0 where
    pub check_arch : Option (Client E) → State E.World → Outcome String × State E.World
    pub check_node_version : String → Outcome String
    pub prepare_setup_pkg :
        Option (Client E) → String → String → State E.World → Outcome Unit × State E.World
    pub stop_firewalld : Option (Client E) → State E.World → Outcome Unit × State E.World
    pub install_docker : Option (Client E) → String → State E.World → Outcome Unit × State E.World
    pub set_docker_conf :
        Option (Client E) → String → String → String → State E.World → Outcome Unit × State E.World
    pub set_host_name : Option (Client E) → String → State E.World → Outcome Unit × State E.World
    pub load_image : Option (Client E) → State E.World → Outcome Unit × State E.World
    pub set_node_components : Option (Client E) → State E.World → Outcome Unit × State E.World
    pub join : Option (Client E) → State E.World → Outcome Unit × State E.World
    pub dis_join : Option (Client E) → State E.World → Outcome Unit × State E.World
