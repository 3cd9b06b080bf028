-- ===== src/Reconcile/Gates.antt =====
-- The guards of `Reconcile`: when a call does nothing, and when the deadline ends another call's work.
use nodedeploy_controller.Prelude.{ℕ, ◌≤◌, ◌<◌, String, ◌<>◌, ◌∷◌, ◌≡◌, ◌≢◌, ◌⊎◌, none, some, arith}
use nodedeploy_controller.Api.{
  NodeDeploy, NodeStatus, unknown, inactive, active, launching, launch_fail, deprecating,
  deprecate_fail, warning, change_status, status_string,
}
use nodedeploy_controller.Machine.{ok, State, write_status, event, ◌>>=◌}
use nodedeploy_controller.Env.{Env}
use nodedeploy_controller.Env.Laws.{IsFaithful}
use nodedeploy_controller.Node.{get_before_status}
use nodedeploy_controller.Phases.{done, now, update_status}
use nodedeploy_controller.Reconcile.{reconcile, ignore_not_found, reconcile_object}

-- The status of the object is the one wanted, or the last attempt to reach it has failed.
abbrev pub IsSettled : NodeDeploy → Type 0
IsSettled d =
    (d.spec.node_status ≡ d.status.node_status)
    ⊎ ((d.spec.node_status ≡ active) × (d.status.node_status ≡ launch_fail))
    ⊎ ((d.spec.node_status ≡ inactive) × (d.status.node_status ≡ deprecate_fail))

-- A launch or a removal is under way.
abbrev pub IsUnderWay : NodeStatus → Type 0
IsUnderWay x = (x ≡ launching) ⊎ (x ≡ deprecating)

-- The object with the status that it had before the work under way.
abbrev pub fallen : NodeDeploy → NodeDeploy
fallen d = record d {
  status = record d.status { node_status = get_before_status d.status.node_status };
}

abbrev pub fallback_message : NodeStatus → String
fallback_message x =
    "exec timeout, fallback: " <> status_string x <> " -> " <> status_string (get_before_status x)

module _ (E : Env) (key : String) (s : State E.World) (d : NodeDeploy) (w : E.World)
    (got : E.cluster.get_node_deploy key s.world ≡ (ok d, w)) where
  -- The state in which the guards are tested.
  abbrev pub entered : State E.World
  entered = record s { object = d; world = w }

  pub reconcile-entered : reconcile E key s ≡ reconcile_object E d entered
  unfolding reconcile ◌>>=◌ ignore_not_found
  reconcile-entered = rw got

  -- A settled object is left alone: the call succeeds with an empty result, and nothing but the
  -- reading of the object has happened.
  pub reconcile_settled :
      d.status.node_status ≢ unknown → IsSettled d → reconcile E key s ≡ (ok done, entered)
  unfolding reconcile_object ◌>>=◌
  reconcile_settled known settled = rw reconcile-entered (ground arith)

  -- While another call's work is under way and it has no deadline or one that has not passed, the
  -- call succeeds with an empty result and changes neither the object nor anything outside.
  pub reconcile_busy :
      IsUnderWay d.status.node_status
      → d.spec.node_status ≢ d.status.node_status
      → (d.status.deadline ≡ none)
        ⊎ ((t : ℕ) × (d.status.deadline ≡ some t) × ((E.cluster.now w).0 ≤ t))
      → ((reconcile E key s).0 ≡ ok done)
        × ((reconcile E key s).1.object ≡ d)
        × ((reconcile E key s).1.trace ≡ s.trace)
  unfolding reconcile_object ◌>>=◌ now
  reconcile_busy under_way differs time = rw reconcile-entered (ground arith)

  pub reconcile_expired :
      (t : ℕ) (d' : NodeDeploy)
      → IsFaithful E.cluster
      → IsUnderWay d.status.node_status
      → d.spec.node_status ≢ d.status.node_status
      → d.status.deadline ≡ some t
      → t < (E.cluster.now w).0
      → (E.cluster.update_status (fallen d) (E.cluster.now w).1).0 ≡ ok d'
      → ((reconcile E key s).1.object.status.node_status ≡ get_before_status d.status.node_status)
        × ((reconcile E key s).1.trace
            ≡ write_status (fallen d).status
              ∷ event warning change_status (fallback_message d.status.node_status)
              ∷ s.trace)
  unfolding reconcile_object ◌>>=◌ now update_status
  reconcile_expired t d' faithful under_way differs dated late stored =
      rw reconcile-entered
        (ground (arith, faithful.keeps_status (fallen d) d' (E.cluster.now w).1 stored))
