-- ===== src/Tests/Laws.antt =====
-- The functions of the small world behave as documented.
use nodedeploy_controller.Prelude.{ℕ, zero, suc, ◌≤◌, String, Bool, true, false, ◌≡◌, arith}
use nodedeploy_controller.Api.{NodeDeploy}
use nodedeploy_controller.Machine.{Error, Outcome, ok, err, panic, State}
use nodedeploy_controller.Env.Laws.{
  IsFaithful, IsMonotonic, IsRetry, IsCalm, IsListing, IsConflictRetry, as_kept, Alike, same,
  pausing,
}
use nodedeploy_controller.Tests.World.{
  World, store, tick, attempts, unless_failed, test_do_retry, test_cluster, test_retry, test_ssh,
  first_error,
}

stores_status :
    (b : Bool) (d d' : NodeDeploy) (w : World)
    → (store b d w).0 ≡ ok d'
    → (d'.status ≡ as_kept d.status) × (d'.spec ≡ d.spec)
stores_status true d d' w e = ground arith
stores_status false d d' w e = cc

pub faithful : IsFaithful test_cluster
faithful = record {
  keeps_status = λ d d' w e. (stores_status w.accepts d d' w e).0;
  keeps_spec = λ d d' w e. (stores_status w.accepts d d' w e).1;
}

stores_later : (b : Bool) (d : NodeDeploy) (w : World) → w.time ≤ (store b d w).1.time
stores_later true d w = omega arith
stores_later false d w = omega arith

pub monotonic : IsMonotonic test_cluster
monotonic = record { update_later = λ d w. stores_later w.accepts d w }

success :
    (n d : ℕ) (f : State World → Outcome Unit × State World) (s t : State World)
    → f s ≡ (ok tt, t)
    → attempts n d f s ≡ (ok tt, t)
success zero d f s t e = e
success (suc n) d f s t e = rw e

crashed :
    (n d : ℕ) (f : State World → Outcome Unit × State World) (s t : State World) (m : String)
    → f s ≡ (panic m, t)
    → attempts n d f s ≡ (panic m, t)
crashed zero d f s t m e = e
crashed (suc n) d f s t m e = rw e

pub again-Alike :
    (n d : ℕ) (f : State World → Outcome Unit × State World) (s t : State World) (e : Error)
    → f s ≡ (err e, t)
    → Alike (attempts (suc n) d f s) (attempts n d f (pausing tick d t))
again-Alike n d f s t e failed = rw failed (same _)

module _ (P : State World → Type 0) (f : State World → Outcome Unit × State World)
    (moves : (s : State World) (w : World) → P s → P (record s { world = w }))
    (step : (s : State World) → P s → P (f s).1) where
  unless_keeps :
      (again : State World → Outcome Unit × State World)
      → ((s : State World) → P s → P (again s).1)
      → (d : ℕ) (r : Outcome Unit × State World) → P r.1
      → P (unless_failed again d r).1
  unless_keeps again g d (ok x, t) p = p
  unless_keeps again g d (panic m, t) p = p
  unless_keeps again g d (err e, t) p = g (pausing tick d t) (moves t (tick d t.world) p)

  attempts_keep : (n d : ℕ) (s : State World) → P s → P (attempts n d f s).1
  attempts_keep zero d s p = step s p
  attempts_keep (suc n) d s p = unless_keeps (attempts n d f) (attempts_keep n d) d (f s) (step s p)

  pub retry_keeps : (n d : ℕ) (s : State World) → P s → P (test_do_retry n d f s).1
  retry_keeps zero d s p = attempts_keep zero d s p
  retry_keeps (suc n) d s p = attempts_keep n d s p

pub retry_success :
    (n d : ℕ) (f : State World → Outcome Unit × State World) (s t : State World)
    → f s ≡ (ok tt, t)
    → test_do_retry n d f s ≡ (ok tt, t)
retry_success zero d f s t e = e
retry_success (suc n) d f s t e = success n d f s t e

pub retry_crashed :
    (n d : ℕ) (f : State World → Outcome Unit × State World) (s t : State World) (m : String)
    → f s ≡ (panic m, t)
    → test_do_retry n d f s ≡ (panic m, t)
retry_crashed zero d f s t m e = e
retry_crashed (suc n) d f s t m e = crashed n d f s t m e

unfoldable pub retry_law : IsRetry test_retry
retry_law = record {
  pause = tick;
  at_success = retry_success;
  at_panic = retry_crashed;
  at_last = λ d f s t e failed. (e, failed);
  at_failure = again-Alike;
  only_calls = λ P f moves step n d s p. retry_keeps P f moves step n d s p;
  only_calls_on_conflict = λ P f moves step s p. step s p;
}

pub calm : IsCalm test_ssh
calm = record { new_session_calm = λ c w m e. cc; stdin_pipe_calm = λ x w m e. cc }

pub listing : IsListing test_cluster first_error
listing = record { reports = λ name w pods errs listed. cc }

pub conflict_law : IsConflictRetry test_retry
conflict_law = record { at_end = λ f s t e. (s, e) }
