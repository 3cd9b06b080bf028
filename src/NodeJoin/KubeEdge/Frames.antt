-- ===== src/NodeJoin/KubeEdge/Frames.antt =====
-- The methods of `KubEdgeNode` keep what remote effects do not disturb.
use nodedeploy_controller.Prelude.{String, Option, List, [], ◌∷◌}
use nodedeploy_controller.Machine.{State, IsRemote}
use nodedeploy_controller.Machine.Keeps.{
  Keeps, IsRobust, secret-IsRobust, keeps_rules, Keeps-bind, Keeps-catch, Keeps-pure,
}
use nodedeploy_controller.Env.{Env}
use nodedeploy_controller.Ssh.{Client}
use nodedeploy_controller.Ssh.Frames.{exec_cmd-Keeps, upload_file-Keeps}
use nodedeploy_controller.JoinInfo.Frames.{get_kube_edge_join_info-Keeps}
use nodedeploy_controller.NodeJoin.Shared.Frames.{run_cmd-Keeps, run_unchecked-Keeps}
use nodedeploy_controller.NodeJoin.KubeEdge.{
  check_arch, prepare_setup_pkg, stop_firewalld, install_docker, set_docker_conf, set_host_name,
  load_image, set_node_components, join, dis_join, first_host,
}

module _ (E : Env) {P : State E.World → Type 0} (robust : IsRobust IsRemote P)
    (c : Option (Client E)) where
  pub check_arch-Keeps : Keeps P (check_arch E c)
  unfolding check_arch
  check_arch-Keeps = search (keeps_rules, robust, run_unchecked-Keeps, exec_cmd-Keeps)

  pub prepare_setup_pkg-Keeps :
      (arch version : String) → Keeps P (prepare_setup_pkg E c arch version)
  unfolding prepare_setup_pkg
  prepare_setup_pkg-Keeps arch version =
      search (keeps_rules, robust, run_unchecked-Keeps, run_cmd-Keeps, upload_file-Keeps) depth 10

  pub stop_firewalld-Keeps : Keeps P (stop_firewalld E c)
  unfolding stop_firewalld
  stop_firewalld-Keeps = search (robust, run_cmd-Keeps)

  pub install_docker-Keeps : (arch : String) → Keeps P (install_docker E c arch)
  unfolding install_docker
  install_docker-Keeps arch = search (robust, run_cmd-Keeps)

  pub set_docker_conf-Keeps :
      (user pwd endpoint : String) → Keeps P (set_docker_conf E c user pwd endpoint)
  unfolding set_docker_conf
  set_docker_conf-Keeps user pwd endpoint = search (keeps_rules, robust, run_cmd-Keeps)

  pub set_host_name-Keeps : (hostname : String) → Keeps P (set_host_name E c hostname)
  unfolding set_host_name
  set_host_name-Keeps hostname = search (robust, run_cmd-Keeps)

  pub load_image-Keeps : Keeps P (load_image E c)
  unfolding load_image
  load_image-Keeps = search (robust, run_cmd-Keeps)

  pub set_node_components-Keeps : Keeps P (set_node_components E c)
  unfolding set_node_components
  set_node_components-Keeps = search (robust, run_cmd-Keeps)

  first_host-Keeps : (hosts : List String) → Keeps P (first_host E hosts)
  unfolding first_host
  first_host-Keeps [] = search keeps_rules
  first_host-Keeps (host ∷ _) = search keeps_rules

  pub join-Keeps : Keeps P (join E c)
  unfolding join
  join-Keeps =
      Keeps-bind _ _
        (Keeps-catch _ _ (get_kube_edge_join_info-Keeps E (secret-IsRobust robust))
          λ e. Keeps-pure _)
        λ info. search (keeps_rules, robust, run_cmd-Keeps, first_host-Keeps)

  pub dis_join-Keeps : Keeps P (dis_join E c)
  unfolding dis_join
  dis_join-Keeps = search (robust, run_cmd-Keeps)
