-- ===== src/Reconcile/Endings.antt =====
-- Calls of `Reconcile` that get past the guards: a whole launch, a whole removal, and a refusal.
use nodedeploy_controller.Prelude.{String, ◌∷◌, ◌≡◌, refl, ◌≢◌, ◌⊎◌, some, arith}
use nodedeploy_controller.Duration.{pos}
use nodedeploy_controller.Api.{
  NodeDeploy, NodeStatus, init, inactive, active, launching, launch_fail, deprecating,
  deprecate_fail, warning, status_message,
}
use nodedeploy_controller.Machine.{Outcome, ok, err, panic, State, event, write_status, ◌>>=◌}
use nodedeploy_controller.Env.{Env}
use nodedeploy_controller.Env.Laws.{IsRetry}
use nodedeploy_controller.Manager.{message_string}
use nodedeploy_controller.Phases.{node_info, preflight_reason, launch, deprecate, update_status}
use nodedeploy_controller.Phases.Preflight.{
  IsDeployable, preflight_iff, check-accepts, check-refuses,
}
use nodedeploy_controller.Reconcile.{
  reconcile, reconcile_object, preflight_and_act, act, reject, drive, attempt, launch_attempt,
  deprecate_attempt,
}
use nodedeploy_controller.Reconcile.Branches.{IsInt32}
use nodedeploy_controller.Reconcile.Gates.{reconcile-entered}
use nodedeploy_controller.Reconcile.Outcomes.{Ended, drive_outcomes}

-- The statuses from which a new launch starts, and those from which a removal starts.
abbrev pub IsDown : NodeStatus → Type 0
IsDown x = (x ≡ init) ⊎ (x ≡ inactive) ⊎ (x ≡ deprecate_fail)

abbrev pub IsUp : NodeStatus → Type 0
IsUp x = (x ≡ active) ⊎ (x ≡ launch_fail)

module _ (E : Env) (d : NodeDeploy) where
  pub launch_passes :
      d.spec.node_status ≡ active
      → IsDown d.status.node_status
      → (s : State E.World) → reconcile_object E d s ≡ preflight_and_act E d s
  unfolding reconcile_object
  launch_passes goal down s = ground arith

  pub removal_passes :
      d.spec.node_status ≡ inactive
      → IsUp d.status.node_status
      → (s : State E.World) → reconcile_object E d s ≡ preflight_and_act E d s
  unfolding reconcile_object
  removal_passes goal up s = ground arith

  pub accepted :
      (s : State E.World) → s.object ≡ d → IsDeployable E d → preflight_and_act E d s ≡ act E d s
  unfolding preflight_and_act ◌>>=◌
  accepted s same fine = rw (check-accepts E (node_info d) s (rw same ((preflight_iff E d).1 fine)))

  pub act_launches :
      d.spec.node_status ≡ active
      → (s : State E.World)
      → act E d s
        ≡ drive E d.spec.max_retry
            (attempt E launching "LaunchNode" active launch_fail (launch E (node_info d)))
            s
  unfolding act launch_attempt
  act_launches goal s = ground arith

  pub act_deprecates :
      d.spec.node_status ≡ inactive
      → IsUp d.status.node_status
      → (s : State E.World)
      → act E d s
        ≡ drive E d.spec.max_retry
            (attempt E deprecating "DeprecateNode" inactive deprecate_fail
              (deprecate E (node_info d)))
            s
  unfolding act deprecate_attempt
  act_deprecates goal up s = ground arith

module _ (E : Env) (law : IsRetry E.retry) (key : String) (s : State E.World) (d : NodeDeploy)
    (w : E.World) (got : E.cluster.get_node_deploy key s.world ≡ (ok d, w))
    (fine : IsDeployable E d) (int32 : IsInt32 d.spec.max_retry)
    (nonzero : d.spec.max_retry ≢ pos 0) where
  -- A call for a valid object that is to be active, and is new, inactive or left by a failed removal,
  -- asks for the active status at the end only behind a successful `launchNode`, and else for the
  -- failed launch or the unknown status, or an attempt panicked; `retry.Do` is as documented, and the
  -- number of attempts is not 0.
  pub reconcile_launches :
      d.spec.node_status ≡ active
      → IsDown d.status.node_status
      → Ended E law launching "LaunchNode" active launch_fail
          (launch E (node_info d))
          (reconcile E key s)
  reconcile_launches goal down =
      rw
        (
          reconcile-entered E key s d w got,
          launch_passes E d goal down (record s { object = d; world = w }),
          accepted E d (record s { object = d; world = w }) refl fine,
          act_launches E d goal (record s { object = d; world = w }),
        )
        (drive_outcomes E law launching "LaunchNode" active launch_fail (launch E (node_info d))
          d.spec.max_retry int32 nonzero _)

  -- A call for a valid object that is to be inactive, and is active or left by a failed launch, asks
  -- for the inactive status at the end only behind a successful `deprecateNode`, and else for the
  -- failed removal or the unknown status, or an attempt panicked; `retry.Do` is as documented, and the
  -- number of attempts is not 0.
  pub reconcile_deprecates :
      d.spec.node_status ≡ inactive
      → IsUp d.status.node_status
      → Ended E law deprecating "DeprecateNode" inactive deprecate_fail
          (deprecate E (node_info d))
          (reconcile E key s)
  reconcile_deprecates goal up =
      rw
        (
          reconcile-entered E key s d w got,
          removal_passes E d goal up (record s { object = d; world = w }),
          accepted E d (record s { object = d; world = w }) refl fine,
          act_deprecates E d goal up (record s { object = d; world = w }),
        )
        (drive_outcomes E law deprecating "DeprecateNode" inactive deprecate_fail
          (deprecate E (node_info d)) d.spec.max_retry int32 nonzero _)

module _ (E : Env) (key : String) (s : State E.World) (d : NodeDeploy) (w : E.World)
    (got : E.cluster.get_node_deploy key s.world ≡ (ok d, w)) where
  -- For each of the three ways in which the update may end.
  sent :
      (t : State E.World) (o : Outcome NodeDeploy)
      → (E.cluster.update_status t.object t.world).0 ≡ o
      → d.spec.node_status ≡ inactive
      → IsUp d.status.node_status
      → (reject E d t).1.trace ≡ write_status t.object.status ∷ t.trace
  unfolding reject update_status ◌>>=◌
  sent t (ok d') stored goal up = ground arith
  sent t (err e) stored goal up = ground arith
  sent t (panic m) stored goal up = ground arith

  -- A call for an object that is to be inactive and that `preflight` refuses sends the status as it
  -- was read: the removal is not marked as failed, and the next call does the same.
  pub reconcile_refused_removal :
      (reason : String)
      → d.spec.node_status ≡ inactive
      → IsUp d.status.node_status
      → preflight_reason E d (node_info d) ≡ ok (some reason)
      → (reconcile E key s).1.trace
        ≡ write_status d.status
          ∷ event warning status_message (message_string E "Parameter validate" reason "1/1")
          ∷ s.trace
  unfolding preflight_and_act ◌>>=◌
  reconcile_refused_removal reason goal up refused =
      rw
        (
          reconcile-entered E key s d w got,
          removal_passes E d goal up (record s { object = d; world = w }),
          check-refuses E (node_info d) (record s { object = d; world = w }) reason refused,
        )
        (sent _ _ refl goal up)
