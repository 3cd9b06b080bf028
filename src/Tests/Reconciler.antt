-- ===== src/Tests/Reconciler.antt =====
-- The theorems on `Reconcile` at concrete inputs.
use nodedeploy_controller.Prelude.{false, [], ◌∷◌, ◌≡◌, refl, inl, inr, none, some, arith, sym}
use nodedeploy_controller.Duration.{pos, sub_ℕ, IsPositive}
use nodedeploy_controller.Api.{
  NodeDeploy, unknown, init, inactive, active, launching, launch_fail, deprecating, deprecate_fail,
  NodeStatus-discrete, warning, status_message,
}
use nodedeploy_controller.Machine.{
  Error, Outcome, ok, err, State, errorf, event, write_status, pure, ◌>>=◌, ◌>>◌,
}
use nodedeploy_controller.Phases.{
  done, node_info, prepare, finalize, launch, update_status, announce, now,
}
use nodedeploy_controller.Reconcile.{reconcile, reconcile_object, ignore_not_found, drive, attempt}
use nodedeploy_controller.Reconcile.Outcomes.{drive_while_down, Ended}
use nodedeploy_controller.Node.{get_before_status}
use nodedeploy_controller.Phases.{preflight_reason}
use nodedeploy_controller.Phases.Preflight.{IsDeployable}
use nodedeploy_controller.Manager.{message_string}
use nodedeploy_controller.Reconcile.Gates.{reconcile_settled, reconcile_busy, fallen}
use nodedeploy_controller.Reconcile.Requeue.{reconcile_never_requeues}
use nodedeploy_controller.Reconcile.Diagram.{writes, latest, Chain}
use nodedeploy_controller.Reconcile.Lifecycle.{reconcile_follows_diagram}
use nodedeploy_controller.Tests.World.{World, test_env, a_spec, a_deploy, a_world, started}
use nodedeploy_controller.Env.Laws.{as_kept}
use nodedeploy_controller.Tests.Laws.{faithful, monotonic, retry_law}
use nodedeploy_controller.Phases.Preflight.{IsDeployable}
use nodedeploy_controller.Phases.{deprecate as deprecate_work}
use nodedeploy_controller.Reconcile.Restart.{
  timed_out_launch_starts_over, timed_out_removal_starts_over,
}
use nodedeploy_controller.Reconcile.Endings.{
  reconcile_launches, reconcile_deprecates, reconcile_refused_removal,
}

abbrev settled : NodeDeploy
settled = a_deploy active active none

reconcile_settled_example :
    reconcile test_env "d1" (started (a_world settled))
    ≡ (ok done, record (started (a_world settled)) { object = settled })
reconcile_settled_example =
    reconcile_settled test_env "d1" (started (a_world settled)) settled (a_world settled) refl
      (λ e. cc) (inl refl)

abbrev busy : NodeDeploy
busy = a_deploy active launching (some 5000)

reconcile_busy_example :
    ((reconcile test_env "d1" (started (a_world busy))).0 ≡ ok done)
    × ((reconcile test_env "d1" (started (a_world busy))).1.object ≡ busy)
    × ((reconcile test_env "d1" (started (a_world busy))).1.trace ≡ [])
reconcile_busy_example =
    reconcile_busy test_env "d1" (started (a_world busy)) busy (a_world busy) refl (inl refl)
      (λ e. cc) (inr (5000, refl, omega arith))

abbrev late : NodeDeploy
late = a_deploy active launching (some 10)

late_result :
    (reconcile test_env "d1" (started (a_world late))).0
    ≡ ok (record { requeue_after = sub_ℕ 0 1001 })
unfolding reconcile reconcile_object ignore_not_found ◌>>=◌ now update_status NodeStatus-discrete
late_result = refl

reconcile_never_requeues_example : ¬ (IsPositive (sub_ℕ 0 1001))
reconcile_never_requeues_example =
    reconcile_never_requeues test_env faithful monotonic "d1" (started (a_world late))
      (record { requeue_after = sub_ℕ 0 1001 }) late_result

abbrev fresh_launch : NodeDeploy
fresh_launch = a_deploy active init none

reconcile_follows_diagram_example :
    Chain active init (writes (reconcile test_env "d1" (started (a_world fresh_launch))).1.trace)
    × ((reconcile test_env "d1" (started (a_world fresh_launch))).1.object.status.node_status
        ≡ latest init (writes (reconcile test_env "d1" (started (a_world fresh_launch))).1.trace))
reconcile_follows_diagram_example =
    reconcile_follows_diagram test_env faithful retry_law "d1" (started (a_world fresh_launch))
      fresh_launch (a_world fresh_launch) refl refl (inl refl) (omega arith) (λ e. cc)

abbrev launch_body : State World → Outcome Unit × State World
launch_body =
    attempt test_env launching "LaunchNode" active launch_fail
      (launch test_env (node_info fresh_launch))

abbrev unavailable : World
unavailable = record (a_world fresh_launch) { accepts = false }

abbrev IsUnavailable : World → Type 0
IsUnavailable w = w.accepts ≡ false

prepare_refused :
    (s : State World)
    → IsUnavailable s.world
    → (e : Error) × ((prepare test_env launching s).0 ≡ err e)
      × IsUnavailable (prepare test_env launching s).1.world
unfolding prepare now update_status announce ◌>>=◌
prepare_refused s refuses = (errorf "refused", rw refuses, rw refuses)

drive_while_down_example :
    (u : State World) × IsUnavailable u.world
    × (drive test_env (pos 3) launch_body (started unavailable)
        ≡ (finalize test_env unknown >> pure done) u)
unfolding retry_law
drive_while_down_example =
    drive_while_down test_env retry_law launching "LaunchNode" active launch_fail
      (launch test_env (node_info fresh_launch)) IsUnavailable prepare_refused
      (λ d w refuses. refuses) (pos 3) (omega arith) (λ e. cc) (started unavailable) refl

fine_launch : IsDeployable test_env fresh_launch
fine_launch = (refl, refl, (record { major = 1; minor = 21 }, refl))

reconcile_launches_example :
    Ended test_env retry_law launching "LaunchNode" active launch_fail
      (launch test_env (node_info fresh_launch))
      (reconcile test_env "d1" (started (a_world fresh_launch)))
reconcile_launches_example =
    reconcile_launches test_env retry_law "d1" (started (a_world fresh_launch)) fresh_launch
      (a_world fresh_launch) refl fine_launch (omega arith) (λ e. cc) refl (inl refl)

abbrev a_removal : NodeDeploy
a_removal = a_deploy inactive active none

fine_removal : IsDeployable test_env a_removal
fine_removal = (refl, refl, (record { major = 1; minor = 21 }, refl))

reconcile_deprecates_example :
    Ended test_env retry_law deprecating "DeprecateNode" inactive deprecate_fail
      (deprecate_work test_env (node_info a_removal))
      (reconcile test_env "d1" (started (a_world a_removal)))
reconcile_deprecates_example =
    reconcile_deprecates test_env retry_law "d1" (started (a_world a_removal)) a_removal
      (a_world a_removal) refl fine_removal (omega arith) (λ e. cc) refl (inl refl)

abbrev without_address : NodeDeploy
without_address = record a_removal { spec = record (a_spec inactive (pos 3)) { node_ip = "" } }

address_refused :
    preflight_reason test_env without_address (node_info without_address)
    ≡ ok (some "nodeIP is an invalid ip address")
unfolding preflight_reason node_info
address_refused = refl

reconcile_refused_removal_example :
    (reconcile test_env "d1" (started (a_world without_address))).1.trace
    ≡ write_status without_address.status
      ∷ event warning status_message
          (message_string test_env "Parameter validate" "nodeIP is an invalid ip address" "1/1")
      ∷ []
reconcile_refused_removal_example =
    reconcile_refused_removal test_env "d1" (started (a_world without_address)) without_address
      (a_world without_address) refl "nodeIP is an invalid ip address" refl (inl refl)
      address_refused

-- An object as the server returns it
abbrev kept : NodeDeploy → NodeDeploy
kept d = record d { status = as_kept d.status }

-- A launch and a removal whose deadline has passed, and what the next call reads.
fallen_status :
    (reconcile test_env "d1" (started (a_world late))).1.object.status
    ≡ record { node_status = inactive; deadline = some 0 }
unfolding reconcile reconcile_object ignore_not_found ◌>>=◌ now update_status NodeStatus-discrete
    get_before_status
fallen_status = refl

abbrev fallen_launch : NodeDeploy
fallen_launch = a_deploy active inactive (some 0)

timed_out_launch_starts_over_example :
    Ended test_env retry_law launching "LaunchNode" active launch_fail
      (launch test_env (node_info fallen_launch))
      (reconcile test_env "d1" (started (a_world fallen_launch)))
timed_out_launch_starts_over_example =
    timed_out_launch_starts_over test_env faithful retry_law "d1" (started (a_world late)) late
      (a_world late) refl 10 refl (omega arith) (kept (fallen late)) refl
      (started (a_world fallen_launch)) fallen_launch (a_world fallen_launch) refl refl
      (sym fallen_status) (refl, refl, (record { major = 1; minor = 21 }, refl)) (omega arith)
      (λ e. cc) refl refl

abbrev late_removal : NodeDeploy
late_removal = a_deploy inactive deprecating (some 10)

fallen_removal_status :
    (reconcile test_env "d1" (started (a_world late_removal))).1.object.status
    ≡ record { node_status = active; deadline = some 0 }
unfolding reconcile reconcile_object ignore_not_found ◌>>=◌ now update_status NodeStatus-discrete
    get_before_status
fallen_removal_status = refl

abbrev fallen_removal : NodeDeploy
fallen_removal = a_deploy inactive active (some 0)

timed_out_removal_starts_over_example :
    Ended test_env retry_law deprecating "DeprecateNode" inactive deprecate_fail
      (deprecate_work test_env (node_info fallen_removal))
      (reconcile test_env "d1" (started (a_world fallen_removal)))
timed_out_removal_starts_over_example =
    timed_out_removal_starts_over test_env faithful retry_law "d1" (started (a_world late_removal))
      late_removal (a_world late_removal) refl 10 refl (omega arith) (kept (fallen late_removal))
      refl (started (a_world fallen_removal)) fallen_removal (a_world fallen_removal) refl refl
      (sym fallen_removal_status) (refl, refl, (record { major = 1; minor = 21 }, refl))
      (omega arith) (λ e. cc) refl refl
