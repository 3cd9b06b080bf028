-- ===== src/Machine/Gives.antt =====
-- What holds of every value that an action returns.
use nodedeploy_controller.Prelude.{◌≡◌, Bool, true, false, if◌then◌else◌, arith}
use nodedeploy_controller.Machine.{Outcome, ok, err, panic, State, Action, pure, continue, ◌>>=◌}

pub record Gives {W A : Type 0} (Q : A → Type 0) (m : State W → Outcome A × State W) : Type 0 where
  pub at : (s : State W) (a : A) → (m s).0 ≡ ok a → Q a

module _ {W A : Type 0} {Q : A → Type 0} where
  pub Gives-pure : (a : A) → Q a → Gives Q (pure {W = W} a)
  unfolding pure
  Gives-pure a q = record { at = λ s b e. ground arith }

module _ {W A B : Type 0} {Q : B → Type 0} where
  Gives-continue :
      (r : Outcome A) (f : A → Action W B) → ((a : A) → Gives Q (f a)) → Gives Q (continue r f)
  Gives-continue (ok a) f g = g a
  Gives-continue (err e) f g = record { at = λ s b h. cc }
  Gives-continue (panic m) f g = record { at = λ s b h. cc }

  pub Gives-bind :
      (m : Action W A) (f : A → Action W B) → ((a : A) → Gives Q (f a)) → Gives Q (m >>= f)
  unfolding ◌>>=◌
  Gives-bind m f g = record { at = λ s b h. let (r, t) = m s in (Gives-continue r f g).at t b h }

module _ {W A : Type 0} {Q : A → Type 0} where
  pub Gives-if :
      (b : Bool) (m n : Action W A) → Gives Q m → Gives Q n → Gives Q (if b then m else n)
  Gives-if true m n gm gn = gm
  Gives-if false m n gm gn = gn

pub ruleset gives_rules = (Gives-pure, Gives-bind, Gives-if)
