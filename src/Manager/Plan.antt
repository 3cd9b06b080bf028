-- ===== src/Manager/Plan.antt =====
-- `LaunchByCmd` carries out an installation plan.
use nodedeploy_controller.Prelude.{String, ◌<>◌, ◌≡◌, refl, List, [], ◌∷◌, ◌++◌, some}
use nodedeploy_controller.Api.{NodeInfo, node_work, node_kubeedge}
use nodedeploy_controller.Machine.{Outcome, Effect, dial, State}
use nodedeploy_controller.Machine.Keeps.{Keeps, Keeps-emit}
use nodedeploy_controller.Machine.Plans.{Plan, must, Performs, Does, is_ok, IsQuiet-IsRobust, work}
use nodedeploy_controller.Machine.Plans.Rules.{
  Performs-pure, Performs-gets, Performs-emit, Performs-from_outcome, Performs-bind,
  Performs-bind_last, PerformsSome, PerformsSome-bind, known, Performs-perform,
}
use nodedeploy_controller.Machine.Plans.Errors.{Performs-catch, Quits-fail, Quits-bind}
use nodedeploy_controller.Env.{Env}
use nodedeploy_controller.Env.Laws.{IsCalm}
use nodedeploy_controller.Progress.{Progress}
use nodedeploy_controller.Ssh.{Client, new_client}
use nodedeploy_controller.NodeJoin.{NodeJoin}
use nodedeploy_controller.NodeJoin.Steps.{Steps, Implements, install_plan}
use nodedeploy_controller.NodeJoin.Work.Steps as WorkSteps
use nodedeploy_controller.NodeJoin.KubeEdge.Steps as KubeEdgeSteps
use nodedeploy_controller.Manager.{log_message, stage, launch_steps, launch_by_cmd, select_node}

-- The connection to a server.
abbrev pub Dial : String → Effect → Type 0
Dial server e = e ≡ dial server

-- The whole of a launch: connect, probe the node, and install what fits its architecture.
abbrev pub launch_plan : Steps → NodeInfo → String × String → Plan
launch_plan st info x =
    must (Dial (info.node_ip <> ":" <> info.node_port))
    ∷ (st.probing ++ install_plan st info x.0 x.1)

module _ (E : Env) where
  pub log_message-Performs : (a b : String) (p : Progress) → Performs [] (log_message E a b p)
  unfolding log_message
  log_message-Performs a b p = Performs-emit _ tt

  pub log_message-quiet :
      (es : List Effect) (a b : String) (p : Progress)
      → Keeps (λ (s : State E.World). work s.trace ≡ es) (log_message E a b p)
  unfolding log_message
  log_message-quiet es a b p = Keeps-emit (IsQuiet-IsRobust es) _ tt

  stage-Performs :
      {A : Type 0} {pl : Plan} (p : Progress) (a b c : String) (d : String → String)
      (m : State E.World → Outcome A × State E.World)
      → Performs pl m
      → Performs pl (stage E p a b c d m)
  unfolding stage
  stage-Performs p a b c d m k = Performs-bind _ _ (log_message-Performs a b p) λ _.
      Performs-catch _ _ k
        λ e. Quits-bind _ _ (λ es. log_message-quiet es c (d e.message) p) λ _. Quits-fail e

  module _ (st : Steps) (n : NodeJoin E) (info : NodeInfo) (c : Client E)
      (k : Implements E st (some c) n) where
    launch_steps-Performs :
        PerformsSome
          (λ (x : String × String). st.probing ++ install_plan st info x.0 x.1)
          (launch_steps E n info (some c))
    unfolding launch_steps
    launch_steps-Performs =
        PerformsSome-bind _ _ ("", "") (stage-Performs _ _ _ _ _ _ k.probes)
          λ arch.
            PerformsSome-bind _ _ ("", "") (Performs-gets _)
              λ wanted.
                PerformsSome-bind _ _ ("", "")
                  (stage-Performs _ _ _ _ _ _ (Performs-from_outcome _))
                  λ version.
                    known (arch, version)
                      (Performs-bind _ _ (stage-Performs _ _ _ _ _ _ (k.packs arch version)) λ _.
                        Performs-bind _ _ (stage-Performs _ _ _ _ _ _ k.stops_firewall) λ _.
                          Performs-bind _ _ (stage-Performs _ _ _ _ _ _ (k.installs_docker arch))
                            λ _.
                              Performs-bind _ _ (stage-Performs _ _ _ _ _ _ (k.configures _ _ _))
                                λ _.
                                  Performs-bind _ _ (stage-Performs _ _ _ _ _ _ (k.names_host _))
                                    λ _.
                                      Performs-bind _ _ (stage-Performs _ _ _ _ _ _ k.loads_images)
                                        λ _.
                                          Performs-bind _ _
                                            (stage-Performs _ _ _ _ _ _ k.sets_components)
                                            λ _.
                                              Performs-bind_last _ _
                                                (stage-Performs _ _ _ _ _ _ k.joins)
                                                λ _. log_message-Performs _ _ _)

  module _ (st : Steps) (info : NodeInfo) where
    launch_by_cmd-Performs :
        ((c : Client E) → Implements E st (some c) (select_node E info.node_type))
        → PerformsSome (launch_plan st info) (launch_by_cmd E info)
    unfolding launch_by_cmd new_client
    launch_by_cmd-Performs k =
        PerformsSome-bind _ _ ("", "")
          (Performs-catch _ _
            (Performs-bind_last _ _ (Performs-perform (Dial _) _ _ (λ es. refl) refl)
              λ conn. Performs-pure _)
            λ e. Quits-fail _)
          λ c. launch_steps-Performs st _ info c (k c)

  module _ (calm : IsCalm E.ssh) (info : NodeInfo) (s : State E.World) where
    -- The launch of a work node carries out the plan of `WorkNode` for some architecture and version: it
    -- connects to the node, probes it, and takes the steps of the installation in their order, none left
    -- out but those marked as optional, to the end where the launch succeeds and up to some point where it
    -- does not. Besides this it only records events and writes secrets. The session calls of the SSH
    -- library do not panic.
    pub launch_work_plan :
        info.node_type ≡ node_work
        → (x : String × String) × Does
            (launch_plan WorkSteps.steps info x)
            (is_ok (launch_by_cmd E info s).0)
            s
            (launch_by_cmd E info s).1
    unfolding select_node
    launch_work_plan w =
        (launch_by_cmd-Performs WorkSteps.steps info (rw w (WorkSteps.steps-Implements E calm))).at
          s

    -- The launch of a kubeedge node carries out the plan of `KubEdgeNode` for some architecture and
    -- version: it connects to the node, probes it, and takes the steps of the installation in their order,
    -- none left out but those marked as optional, to the end where the launch succeeds and up to some point
    -- where it does not. Besides this it only records events and writes secrets. The session calls of the
    -- SSH library do not panic.
    pub launch_kube_edge_plan :
        info.node_type ≡ node_kubeedge
        → (x : String × String) × Does
            (launch_plan KubeEdgeSteps.steps info x)
            (is_ok (launch_by_cmd E info s).0)
            s
            (launch_by_cmd E info s).1
    unfolding select_node
    launch_kube_edge_plan w =
        (launch_by_cmd-Performs KubeEdgeSteps.steps info
            (rw w (KubeEdgeSteps.steps-Implements E calm))).at
          s
