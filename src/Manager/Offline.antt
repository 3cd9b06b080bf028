-- ===== src/Manager/Offline.antt =====
-- Taking down a node that cannot be reached.
use nodedeploy_controller.Prelude.{◌<>◌, ◌∷◌, ◌⊎◌, ◌≡◌, inl, inr}
use nodedeploy_controller.Api.{
  NodeInfo, node_work, node_kubeedge, normal, status_message, deprecate,
}
use nodedeploy_controller.Machine.{Error, ok, err, State, event, dial, ◌>>=◌}
use nodedeploy_controller.Env.{Env}
use nodedeploy_controller.Text.{decimal}
use nodedeploy_controller.Progress.{steps, new_progress, string}
use nodedeploy_controller.Ssh.{new_client, password_auth}
use nodedeploy_controller.Ssh.Recovery.{exec_nil}
use nodedeploy_controller.NodeJoin.Shared.{run_cmd}
use nodedeploy_controller.NodeJoin.Work
use nodedeploy_controller.NodeJoin.KubeEdge
use nodedeploy_controller.Manager.{
  deprecate_cmd, client_or_nil, log_message, message_string, select_node,
}

module _ (E : Env) (info : NodeInfo) (s : State E.World) (e : Error) (w : E.World) where
  -- Where the connection to a node of a known type cannot be made, `Deprecate` still succeeds, and the
  -- failed call is all that has happened besides the events, which report success.
  pub deprecate_offline :
      (info.node_type ≡ node_work) ⊎ (info.node_type ≡ node_kubeedge)
      → E.ssh.dial
          (info.node_ip <> ":" <> info.node_port)
          info.node_user
          (password_auth E info.node_pwd)
          s.world
        ≡ (err e, w)
      → deprecate_cmd E info s ≡ (
        ok tt,
        record s {
          world = w;
          trace =
              event normal status_message
                (message_string E "Deprecate Node" "deprecate success" "1/1")
              ∷ event normal deprecate "deprecate success"
              ∷ event normal status_message
                  (message_string E "Deprecate Node" "shutdown workerNode" "1/1")
              ∷ dial (info.node_ip <> ":" <> info.node_port)
              ∷ s.trace;
        },
      )
  unfolding deprecate_cmd client_or_nil new_client log_message select_node ◌>>=◌ steps new_progress
      string run_cmd Work.dis_join KubeEdge.dis_join decimal
  deprecate_offline (inl work) failed = rw failed (rw work (rw (exec_nil E)))
  deprecate_offline (inr edge) failed = rw failed (rw edge (rw (exec_nil E)))
