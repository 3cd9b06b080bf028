-- ===== src/Reconcile/Success.antt =====
-- Where the work of a launch or a removal succeeds, the object reaches the status wanted.
use nodedeploy_controller.Prelude.{String, Bool, true, ◌≡◌, refl, none}
use nodedeploy_controller.Duration.{ℤ}
use nodedeploy_controller.Api.{
  NodeDeploy, NodeStatus, unknown, inactive, active, launching, launch_fail, deprecating,
  deprecate_fail,
}
use nodedeploy_controller.Machine.{Outcome, ok, State, ◌>>=◌, ◌>>◌, pure}
use nodedeploy_controller.Env.{Env}
use nodedeploy_controller.Env.Laws.{IsFaithful, IsRetry}
use nodedeploy_controller.Phases.{
  done, to_uint, retry_delay, node_info, prepare, finalize, launch, deprecate, update_status,
}
use nodedeploy_controller.Phases.Preflight.{IsDeployable}
use nodedeploy_controller.Reconcile.{reconcile, attempt, drive}
use nodedeploy_controller.Reconcile.Gates.{reconcile-entered}
use nodedeploy_controller.Reconcile.Outcomes.{drive-concluded}
use nodedeploy_controller.Reconcile.Endings.{
  IsDown, IsUp, launch_passes, removal_passes, accepted, act_launches, act_deprecates,
}

-- The object that `finalize` sends.
abbrev pub finished : NodeStatus → NodeDeploy → NodeDeploy
finished x d = record d { status = record { node_status = x; deadline = none } }

module _ (E : Env) where
  finalized :
      (x : NodeStatus) (u : State E.World) (d' : NodeDeploy)
      → IsFaithful E.cluster
      → (E.cluster.update_status (finished x u.object) u.world).0 ≡ ok d'
      → ((finalize E x >> pure done) u).0 ≡ ok done
        × (((finalize E x >> pure done) u).1.object.status ≡ (finished x u.object).status)
  unfolding finalize update_status ◌>>=◌
  finalized x u d' faithful stored =
      rw stored (refl, faithful.keeps_status (finished x u.object) d' u.world stored)

  module _ (law : IsRetry E.retry) (faithful : IsFaithful E.cluster) (start : NodeStatus)
      (name : String) (good bad : NodeStatus) (work : State E.World → Outcome Bool × State E.World)
      (m : ℤ) (s t u : State E.World) (d' : NodeDeploy)
      (prepared : prepare E start (record s { outcome = unknown }) ≡ (ok tt, t))
      (worked : work t ≡ (ok true, u)) where
    attempted :
        attempt E start name good bad work (record s { outcome = unknown })
        ≡ (ok tt, record u { outcome = good })
    unfolding attempt ◌>>=◌
    attempted = rw prepared (rw worked refl)

    drive_succeeds :
        (E.cluster.update_status (finished good u.object) u.world).0 ≡ ok d'
        → let r = drive E m (attempt E start name good bad work) s in
          (r.0 ≡ ok done) × (r.1.object.status ≡ (finished good u.object).status)
    drive_succeeds stored =
        rw
          (drive-concluded E m _ s (ok tt) (record u { outcome = good })
            (law.at_success (to_uint m) retry_delay _ _ _ attempted))
          (finalized good (record u { outcome = good }) d' faithful stored)

module _ (E : Env) (law : IsRetry E.retry) (faithful : IsFaithful E.cluster) (key : String)
    (s : State E.World) (d : NodeDeploy) (w : E.World)
    (got : E.cluster.get_node_deploy key s.world ≡ (ok d, w)) (fine : IsDeployable E d)
    (t u : State E.World) (d' : NodeDeploy) where
  abbrev begun : State E.World
  begun = record s { object = d; world = w; outcome = unknown }

  -- A call for a valid object that is to be active, and is new, inactive or left by a failed removal,
  -- succeeds and leaves it active without a deadline, if the server accepts the update before the work and
  -- the one behind it, and `launchNode` succeeds at the first attempt. The server keeps what it is
  -- sent, and `retry.Do` is as documented.
  pub reconcile_activates :
      d.spec.node_status ≡ active
      → IsDown d.status.node_status
      → prepare E launching begun ≡ (ok tt, t)
      → launch E (node_info d) t ≡ (ok true, u)
      → (E.cluster.update_status (finished active u.object) u.world).0 ≡ ok d'
      → ((reconcile E key s).0 ≡ ok done)
        × ((reconcile E key s).1.object.status ≡ record { node_status = active; deadline = none })
  reconcile_activates goal down prepared worked stored =
      rw
        (
          reconcile-entered E key s d w got,
          launch_passes E d goal down (record s { object = d; world = w }),
          accepted E d (record s { object = d; world = w }) refl fine,
          act_launches E d goal (record s { object = d; world = w }),
        )
        (drive_succeeds E law faithful launching "LaunchNode" active launch_fail _ d.spec.max_retry
          _ t u d' prepared worked stored)

  -- A call for a valid object that is to be inactive, and is active or left by a failed launch, succeeds
  -- and leaves it inactive without a deadline, if the server accepts the update before the work and the
  -- one behind it, and `deprecateNode` succeeds at the first attempt. The server keeps what it is sent,
  -- and `retry.Do` is as documented.
  pub reconcile_deactivates :
      d.spec.node_status ≡ inactive
      → IsUp d.status.node_status
      → prepare E deprecating begun ≡ (ok tt, t)
      → deprecate E (node_info d) t ≡ (ok true, u)
      → (E.cluster.update_status (finished inactive u.object) u.world).0 ≡ ok d'
      → ((reconcile E key s).0 ≡ ok done)
        × ((reconcile E key s).1.object.status ≡ record { node_status = inactive; deadline = none })
  reconcile_deactivates goal up prepared worked stored =
      rw
        (
          reconcile-entered E key s d w got,
          removal_passes E d goal up (record s { object = d; world = w }),
          accepted E d (record s { object = d; world = w }) refl fine,
          act_deprecates E d goal up (record s { object = d; world = w }),
        )
        (drive_succeeds E law faithful deprecating "DeprecateNode" inactive deprecate_fail _
          d.spec.max_retry _ t u d' prepared worked stored)
