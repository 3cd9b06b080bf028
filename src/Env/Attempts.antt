-- ===== src/Env/Attempts.antt =====
-- A rule for `retry.Do`: what holds before each attempt, and what holds after the last.
use nodedeploy_controller.Prelude.{ℕ, zero, suc, ◌≡◌, refl}
use nodedeploy_controller.Machine.{Error, Outcome, ok, err, panic, State}
use nodedeploy_controller.Env.{Retry}
use nodedeploy_controller.Env.Laws.{IsRetry, Alike, same, errors, pausing}

module _ {W : Type 0} {R : Retry W} (law : IsRetry R) (d : ℕ) (f : State W → Outcome Unit × State W)
    (P : State W → Type 0) (Q : Outcome Unit × State W → Type 0)
    (after : (s : State W) → P s → Q (f s))
    (again : (e : Error) (u : State W) → Q (err e, u) → P (pausing law.pause d u))
    (any_error : (x y : Error) (u : State W) → Q (err x, u) → Q (err y, u)) where
  alike-Q : {a b : Outcome Unit × State W} → Alike a b → Q b → Q a
  alike-Q (same r) q = q
  alike-Q (errors x y u) q = any_error y x u q

  last_attempt : (s : State W) (r : Outcome Unit × State W) → f s ≡ r → Q r → Q (R.do_retry 1 d f s)
  last_attempt s (ok u, t) e q = rw (law.at_success 1 d f s t e) q
  last_attempt s (panic m, t) e q = rw (law.at_panic 1 d f s t m e) q
  last_attempt s (err x, t) e q =
      let (y, stopped) = law.at_last d f s t x e in rw stopped (any_error x y t q)

  attempt_then :
      (n : ℕ) (s : State W) (r : Outcome Unit × State W)
      → f s ≡ r
      → Q r
      → ((u : State W) → P u → Q (R.do_retry (suc n) d f u))
      → Q (R.do_retry (suc (suc n)) d f s)
  attempt_then n s (ok u, t) e q rest = rw (law.at_success (suc (suc n)) d f s t e) q
  attempt_then n s (panic m, t) e q rest = rw (law.at_panic (suc (suc n)) d f s t m e) q
  attempt_then n s (err x, t) e q rest =
      alike-Q (law.at_failure n d f s t x e) (rest (pausing law.pause d t) (again x t q))

  -- With one attempt or more, what every attempt ensures holds at the end.
  pub do_retry_rule : (n : ℕ) (s : State W) → P s → Q (R.do_retry (suc n) d f s)
  do_retry_rule zero s p = last_attempt s (f s) refl (after s p)
  do_retry_rule (suc n) s p = attempt_then n s (f s) refl (after s p) (do_retry_rule n)
