-- ===== src/Machine/Success.antt =====
-- What is known of an action that has succeeded.
use nodedeploy_controller.Prelude.{◌≡◌, refl, ap}
use nodedeploy_controller.Machine.{Outcome, ok, err, panic, State, Action, continue, ◌>>=◌}

-- What an action returns, from its two parts.
pub both :
    {W A : Type 0} {o : Outcome A × State W} {r : Outcome A} {v : State W}
    → o.0 ≡ r
    → o.1 ≡ v
    → o ≡ (r, v)
both {o} first second = rw (← first) (rw (← second) refl)

module _ {W A B : Type 0} where
  continued :
      (r : Outcome A) (f : A → Action W B) (u t : State W) (b : B)
      → continue r f u ≡ (ok b, t)
      → (a : A) × (r ≡ ok a) × (f a u ≡ (ok b, t))
  continued (ok a) f u t b e = (a, refl, e)
  continued (err x) f u t b e = absurd (cc (ap (λ o. o.0) e))
  continued (panic m) f u t b e = absurd (cc (ap (λ o. o.0) e))

  -- Both halves have succeeded.
  pub bind_ok :
      (m : Action W A) (f : A → Action W B) (s t : State W) (b : B)
      → (m >>= f) s ≡ (ok b, t)
      → (a : A) × ((m s).0 ≡ ok a) × (f a (m s).1 ≡ (ok b, t))
  unfolding ◌>>=◌
  bind_ok m f s t b e = continued (m s).0 f (m s).1 t b e
