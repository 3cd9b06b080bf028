-- ===== src/Phases/Takedown.antt =====
-- The order in which `deprecateNode` takes a node down.
use nodedeploy_controller.Prelude.{
  String, ◌<>◌, Bool, true, false, [], ◌∷◌, ◌++◌, ◌≡◌, ◌⊎◌, Option, none, some, str_eq,
  if◌then◌else◌,
}
use nodedeploy_controller.Api.{Node, NodeInfo, node_work, node_kubeedge}
use nodedeploy_controller.Machine.{
  Error, Outcome, ok, err, panic, Effect, dial, delete_node, State, ◌>>=◌,
}
use nodedeploy_controller.Machine.Plans.{Plan, must, Does, is_ok}
use nodedeploy_controller.Env.{Env}
use nodedeploy_controller.Env.Laws.{IsCalm, IsListing}
use nodedeploy_controller.Ssh.{Client, password_auth}
use nodedeploy_controller.Ssh.Commands.{Command}
use nodedeploy_controller.NodeJoin.Shared.{file_path_prefix}
use nodedeploy_controller.NodeJoin.Work
use nodedeploy_controller.NodeJoin.KubeEdge
use nodedeploy_controller.Manager.Plan.{Dial}
use nodedeploy_controller.Node.Draining.{draining}
use nodedeploy_controller.Node.{drain_node}
use nodedeploy_controller.Phases.{evict}

-- Whether the removal went through: `deprecateNode` returns true, and no error.
abbrev pub is_done : Outcome Bool → Bool
is_done (ok b) = b
is_done (err e) = false
is_done (panic m) = false

abbrev Delete : String → Effect → Type 0
Delete name e = e ≡ delete_node name

abbrev pub removal_script : String → String
removal_script node_type =
    if str_eq node_type node_work
    then "bash " <> file_path_prefix <> "/" <> node_work <> "/08-work-disjoin.sh "
    else "bash " <> file_path_prefix <> "/" <> node_kubeedge <> "/08-edgecore_disjoin.sh "

-- Whether the connection to the node can be made: it can, or the call has failed.
pub data Contact (E : Env) (info : NodeInfo) : Type 0 where
  reached : Contact E info
  unreachable :
      (w : E.World) (e : Error)
      → (E.ssh.dial
          (info.node_ip <> ":" <> info.node_port)
          info.node_user
          (password_auth E info.node_pwd)
          w).0
        ≡ err e
      → Contact E info

-- The script runs on a node that is reached, and on no other.
abbrev pub disjoining : {E : Env} (info : NodeInfo) → Contact E info → Plan
disjoining info reached = must (Command (removal_script info.node_type)) ∷ []
disjoining info (unreachable w e failed) = []

abbrev pub taking_down : {E : Env} (info : NodeInfo) → Node → Contact E info → Plan
taking_down info node contact =
    must (Dial (info.node_ip <> ":" <> info.node_port))
    ∷ (disjoining info contact ++ must (Delete node.name) ∷ [])

-- Drain the node where this is asked for, run the script on it where it can be reached, delete it.
abbrev pub removal_plan : {E : Env} (info : NodeInfo) → Bool → Node → Contact E info → Plan
removal_plan info drained node contact = draining drained node ++ taking_down info node contact

module _ (E : Env) where
  -- The client that comes of a contact
  data Fits (info : NodeInfo) : Contact E info → Option (Client E) → Type 0 where
    with_client : (c : Client E) → Fits info reached (some c)
    without :
        (w : E.World) (e : Error)
        (failed : (E.ssh.dial
            (info.node_ip <> ":" <> info.node_port)
            info.node_user
            (password_auth E info.node_pwd)
            w).0
          ≡ err e)
        → Fits info (unreachable w e failed) none

  module _ (calm : IsCalm E.ssh) where
    module _ (info : NodeInfo)
        (known : (info.node_type ≡ node_work) ⊎ (info.node_type ≡ node_kubeedge)) where
      module _ (listing : IsListing E.cluster E.library.aggregate) where
        drained :
            (node : Node) (s t : State E.World) (r : Outcome Unit)
            → drain_node E node s ≡ (r, t)
            → Does (draining true node) (is_ok r) s t
            → Does (draining true node) (is_done (evict E true node s).0) s (evict E true node s).1
        unfolding evict ◌>>=◌
        drained node s t (ok u) eq d = rw eq d
        drained node s t (err e) eq d =
            rw eq (record { effects = d.effects; runs = d.runs; shown = d.shown })
        drained node s t (panic m) eq d = rw eq d
