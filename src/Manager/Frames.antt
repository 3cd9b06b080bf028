-- ===== src/Manager/Frames.antt =====
-- Bringing a node up and taking it down keep what remote effects do not disturb.
use nodedeploy_controller.Prelude.{String, Option, Bool-cases, inl, inr, str_eq}
use nodedeploy_controller.Api.{NodeInfo, node_work, node_kubeedge}
use nodedeploy_controller.Machine.{State, IsRemote, Outcome, ◌>>=◌}
use nodedeploy_controller.Machine.Keeps.{
  Keeps, IsRobust, keeps_rules, Keeps-bind, Keeps-catch, Keeps-gets, Keeps-from_outcome,
}
use nodedeploy_controller.Env.{Env}
use nodedeploy_controller.Progress.{Progress}
use nodedeploy_controller.Ssh.{Client}
use nodedeploy_controller.Ssh.Frames.{new_client-Keeps}
use nodedeploy_controller.NodeJoin.{NodeJoin}
use nodedeploy_controller.NodeJoin.Work.Frames as WorkFrames
use nodedeploy_controller.NodeJoin.KubeEdge.Frames as KubeEdgeFrames
use nodedeploy_controller.Manager.{
  nil_join, work_node, kube_edge_node, select_node, log_message, stage, launch_steps, launch_by_cmd,
  client_or_nil, deprecate_cmd,
}

module _ (E : Env) (P : State E.World → Type 0) where
  -- Every method of an implementation keeps `P`.
  pub record JoinKeeps (n : NodeJoin E) (c : Option (Client E)) : Type 0 where
    pub at_check_arch : Keeps P (n.check_arch c)
    pub at_prepare_setup_pkg : (a v : String) → Keeps P (n.prepare_setup_pkg c a v)
    pub at_stop_firewalld : Keeps P (n.stop_firewalld c)
    pub at_install_docker : (a : String) → Keeps P (n.install_docker c a)
    pub at_set_docker_conf : (u p e : String) → Keeps P (n.set_docker_conf c u p e)
    pub at_set_host_name : (h : String) → Keeps P (n.set_host_name c h)
    pub at_load_image : Keeps P (n.load_image c)
    pub at_set_node_components : Keeps P (n.set_node_components c)
    pub at_join : Keeps P (n.join c)
    pub at_dis_join : Keeps P (n.dis_join c)

module _ (E : Env) {P : State E.World → Type 0} (robust : IsRobust IsRemote P)
    (c : Option (Client E)) where
  work_node-JoinKeeps : JoinKeeps E P (work_node E) c
  work_node-JoinKeeps = record {
    at_check_arch = WorkFrames.check_arch-Keeps E robust c;
    at_prepare_setup_pkg = WorkFrames.prepare_setup_pkg-Keeps E robust c;
    at_stop_firewalld = WorkFrames.stop_firewalld-Keeps E robust c;
    at_install_docker = WorkFrames.install_docker-Keeps E robust c;
    at_set_docker_conf = WorkFrames.set_docker_conf-Keeps E robust c;
    at_set_host_name = WorkFrames.set_host_name-Keeps E robust c;
    at_load_image = WorkFrames.load_image-Keeps E robust c;
    at_set_node_components = WorkFrames.set_node_components-Keeps E robust c;
    at_join = WorkFrames.join-Keeps E robust c;
    at_dis_join = WorkFrames.dis_join-Keeps E robust c;
  }

  kube_edge_node-JoinKeeps : JoinKeeps E P (kube_edge_node E) c
  kube_edge_node-JoinKeeps = record {
    at_check_arch = KubeEdgeFrames.check_arch-Keeps E robust c;
    at_prepare_setup_pkg = KubeEdgeFrames.prepare_setup_pkg-Keeps E robust c;
    at_stop_firewalld = KubeEdgeFrames.stop_firewalld-Keeps E robust c;
    at_install_docker = KubeEdgeFrames.install_docker-Keeps E robust c;
    at_set_docker_conf = KubeEdgeFrames.set_docker_conf-Keeps E robust c;
    at_set_host_name = KubeEdgeFrames.set_host_name-Keeps E robust c;
    at_load_image = KubeEdgeFrames.load_image-Keeps E robust c;
    at_set_node_components = KubeEdgeFrames.set_node_components-Keeps E robust c;
    at_join = KubeEdgeFrames.join-Keeps E robust c;
    at_dis_join = KubeEdgeFrames.dis_join-Keeps E robust c;
  }

  nil_join-JoinKeeps : JoinKeeps E P (nil_join E) c
  unfolding nil_join
  nil_join-JoinKeeps = record {
    at_check_arch = search keeps_rules;
    at_prepare_setup_pkg = λ a v. search keeps_rules;
    at_stop_firewalld = search keeps_rules;
    at_install_docker = λ a. search keeps_rules;
    at_set_docker_conf = λ u p e. search keeps_rules;
    at_set_host_name = λ h. search keeps_rules;
    at_load_image = search keeps_rules;
    at_set_node_components = search keeps_rules;
    at_join = search keeps_rules;
    at_dis_join = search keeps_rules;
  }

  pub select_node-JoinKeeps : (node_type : String) → JoinKeeps E P (select_node E node_type) c
  unfolding select_node
  select_node-JoinKeeps node_type = elim (Bool-cases (str_eq node_type node_work)) [
    | inl e ↦ rw e work_node-JoinKeeps
    | inr e ↦ rw e (elim (Bool-cases (str_eq node_type node_kubeedge)) [
      | inl e' ↦ rw e' kube_edge_node-JoinKeeps
      | inr e' ↦ rw e' nil_join-JoinKeeps
    ])
  ]

module _ (E : Env) {P : State E.World → Type 0} (robust : IsRobust IsRemote P) where
  pub log_message-Keeps :
      (phase message : String) (p : Progress) → Keeps P (log_message E phase message p)
  unfolding log_message
  log_message-Keeps phase message p = search (keeps_rules, robust)

  pub stage-Keeps :
      {A : Type 0} (p : Progress) (a b c : String) (d : String → String)
      (m : State E.World → Outcome A × State E.World)
      → Keeps P m
      → Keeps P (stage E p a b c d m)
  unfolding stage
  stage-Keeps p a b c d m km =
      Keeps-bind _ _ (log_message-Keeps a b p) λ _.
        Keeps-catch _ _ (search (keeps_rules, km)) (λ e. search (keeps_rules, log_message-Keeps))

  Keeps-stage :
      {A B : Type 0} (p : Progress) (a b c : String) (d : String → String)
      (m : State E.World → Outcome A × State E.World)
      (f : A → State E.World → Outcome B × State E.World)
      → Keeps P m
      → ((x : A) → Keeps P (f x))
      → Keeps P (stage E p a b c d m >>= f)
  Keeps-stage p a b c d m f km kf = Keeps-bind _ _ (stage-Keeps p a b c d m km) kf

  pub launch_steps-Keeps :
      (n : NodeJoin E) (info : NodeInfo) (c : Option (Client E))
      → JoinKeeps E P n c
      → Keeps P (launch_steps E n info c)
  unfolding launch_steps
  launch_steps-Keeps n info c k = Keeps-stage _ _ _ _ _ _ _ k.at_check_arch λ arch.
      Keeps-bind _ _ (Keeps-gets _) λ wanted.
        Keeps-stage _ _ _ _ _ _ _ (Keeps-from_outcome _) λ version.
          Keeps-stage _ _ _ _ _ _ _ (k.at_prepare_setup_pkg arch version) λ _.
            Keeps-stage _ _ _ _ _ _ _ k.at_stop_firewalld λ _.
              Keeps-stage _ _ _ _ _ _ _ (k.at_install_docker arch) λ _.
                Keeps-stage _ _ _ _ _ _ _ (k.at_set_docker_conf _ _ _) λ _.
                  Keeps-stage _ _ _ _ _ _ _ (k.at_set_host_name _) λ _.
                    Keeps-stage _ _ _ _ _ _ _ k.at_load_image λ _.
                      Keeps-stage _ _ _ _ _ _ _ k.at_set_node_components
                        λ _. Keeps-stage _ _ _ _ _ _ _ k.at_join λ _. log_message-Keeps _ _ _

  pub launch_by_cmd-Keeps : (info : NodeInfo) → Keeps P (launch_by_cmd E info)
  unfolding launch_by_cmd
  launch_by_cmd-Keeps info =
      search (keeps_rules, robust, new_client-Keeps, launch_steps-Keeps, select_node-JoinKeeps)
        depth 8

  client_or_nil-Keeps : (info : NodeInfo) → Keeps P (client_or_nil E info)
  unfolding client_or_nil
  client_or_nil-Keeps info = search (keeps_rules, robust, new_client-Keeps) depth 8

  pub deprecate_cmd-Keeps : (info : NodeInfo) → Keeps P (deprecate_cmd E info)
  unfolding deprecate_cmd
  deprecate_cmd-Keeps info =
      search
        (
          keeps_rules,
          robust,
          client_or_nil-Keeps,
          log_message-Keeps,
          λ (c : Option (Client E)). (select_node-JoinKeeps E robust c info.node_type).at_dis_join,
        )
        depth 12
