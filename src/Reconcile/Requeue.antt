-- ===== src/Reconcile/Requeue.antt =====
-- What `Reconcile` asks of controller-runtime: the field `RequeueAfter` of its result.
use nodedeploy_controller.Prelude.{ℕ, ◌≤◌, String, ◌≡◌, refl, Option, none, some, arith}
use nodedeploy_controller.Duration.{ℤ, sub_ℕ, IsPositive}
use nodedeploy_controller.Api.{NodeDeploy}
use nodedeploy_controller.Machine.{Outcome, ok, err, panic, State, ◌>>=◌}
use nodedeploy_controller.Machine.Gives.{Gives, Gives-bind, gives_rules}
use nodedeploy_controller.Env.{Env}
use nodedeploy_controller.Env.Laws.{IsFaithful, IsMonotonic}
use nodedeploy_controller.Phases.{Result, done, now, update_status}
use nodedeploy_controller.Reconcile.{
  reconcile, reconcile_found, reconcile_object, init_status, check_deadline, fall_back,
  preflight_and_act, act, reject, drive,
}
use nodedeploy_controller.Reconcile.Gates.{fallen}

-- The field is not positive, so that controller-runtime does not call again.
abbrev NoRequeue : Result → Type 0
NoRequeue r = ¬ (IsPositive r.requeue_after)

module _ (E : Env) where
  not-IsPositive : (t n : ℕ) → t ≤ n → ¬ (IsPositive (sub_ℕ t n))
  not-IsPositive t n h = ground arith

  done-NoRequeue : NoRequeue done
  done-NoRequeue h = omega arith

  init_status-Gives : Gives NoRequeue (init_status E)
  unfolding init_status
  init_status-Gives = search (gives_rules, done-NoRequeue) depth 8

  reject-Gives : (d : NodeDeploy) → Gives NoRequeue (reject E d)
  unfolding reject
  reject-Gives d = search (gives_rules, done-NoRequeue) depth 8

  drive-Gives :
      (m : ℤ) (f : State E.World → Outcome Unit × State E.World) → Gives NoRequeue (drive E m f)
  unfolding drive
  drive-Gives m f = search (gives_rules, done-NoRequeue) depth 8

  act-Gives : (d : NodeDeploy) → Gives NoRequeue (act E d)
  unfolding act
  act-Gives d = search (gives_rules, drive-Gives, done-NoRequeue) depth 8

  preflight_and_act-Gives : (d : NodeDeploy) → Gives NoRequeue (preflight_and_act E d)
  unfolding preflight_and_act
  preflight_and_act-Gives d = search (gives_rules, act-Gives, reject-Gives) depth 8

  module _ (faithful : IsFaithful E.cluster) (monotonic : IsMonotonic E.cluster) where
    -- The deadline that the server returns is the one that had passed before the update.
    fall_back_late :
        (s : State E.World) (t : ℕ) (o : Outcome NodeDeploy) (r : Result)
        → s.object.status.deadline ≡ some t
        → t ≤ (E.cluster.now s.world).0
        → (E.cluster.update_status (fallen s.object) (E.cluster.now s.world).1).0 ≡ o
        → (fall_back E (record s { world = (E.cluster.now s.world).1 })).0 ≡ ok r
        → NoRequeue r
    unfolding fall_back ◌>>=◌ now update_status
    fall_back_late s t (ok d') r dated late stored e = ground (
      arith,
      faithful.keeps_status (fallen s.object) d' (E.cluster.now s.world).1 stored,
      monotonic.update_later (fallen s.object) s.world,
    )
    fall_back_late s t (err x) r dated late stored e = ground arith
    fall_back_late s t (panic m) r dated late stored e = ground arith

    check_deadline_late :
        (s : State E.World) (o : Option ℕ) (r : Result)
        → s.object.status.deadline ≡ o
        → (check_deadline E s).0 ≡ ok r
        → NoRequeue r
    unfolding check_deadline ◌>>=◌ now
    check_deadline_late s none r dated e = ground arith
    check_deadline_late s (some t) r dated e = ground (
      arith,
      fall_back_late s t (E.cluster.update_status (fallen s.object) (E.cluster.now s.world).1).0 r,
    )

    check_deadline-Gives : Gives NoRequeue (check_deadline E)
    check_deadline-Gives = record {
      at = λ s r e. check_deadline_late s s.object.status.deadline r refl e;
    }

    reconcile_object-Gives : (d : NodeDeploy) → Gives NoRequeue (reconcile_object E d)
    unfolding reconcile_object
    reconcile_object-Gives d =
        search
          (
            gives_rules, init_status-Gives, check_deadline-Gives, preflight_and_act-Gives,
            done-NoRequeue,
          )
          depth 12

    reconcile_found-Gives : (o : Option NodeDeploy) → Gives NoRequeue (reconcile_found E o)
    unfolding reconcile_found
    reconcile_found-Gives none = search (gives_rules, done-NoRequeue)
    reconcile_found-Gives (some d) = search (gives_rules, reconcile_object-Gives)

    -- Whatever the server and the libraries do, a call of `Reconcile` that succeeds returns a
    -- `RequeueAfter` that is not positive, if the server keeps what it is sent and the clock does not
    -- go back: no call asks to be called again, also not one that waits for a deadline.
    pub reconcile_never_requeues :
        (key : String) (s : State E.World) (r : Result)
        → (reconcile E key s).0 ≡ ok r
        → ¬ (IsPositive r.requeue_after)
    unfolding reconcile
    reconcile_never_requeues key s r e =
        (Gives-bind {Q = NoRequeue} _ _ reconcile_found-Gives).at s r e
