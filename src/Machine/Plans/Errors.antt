-- ===== src/Machine/Plans/Errors.antt =====
-- Which plan an action with error branches carries out.
use nodedeploy_controller.Prelude.{Bool, true, false, List, [], ◌∷◌, ◌≡◌, refl, ◌∙◌, subst, sym}
use nodedeploy_controller.Machine.{
  Error, Outcome, ok, err, panic, Effect, State, Action, pure, fail, catch, or_else, continue,
  ◌>>=◌,
}
use nodedeploy_controller.Machine.Keeps.{Keeps}
use nodedeploy_controller.Machine.Plans.{
  must, may, Plan, Runs, finished, stopped, did, also_did, left_out, work, is_ok, Does, Performs,
}
use nodedeploy_controller.Machine.Plans.Rules.{optional}

optional_stopped :
    {K : Effect → Type 0} {es : List Effect}
    → Runs (must K ∷ []) es false
    → Runs (may K ∷ []) es true
optional_stopped stopped = left_out finished
optional_stopped (did k stopped) = also_did k finished

Does-quits :
    {W : Type 0} {p : Plan} {s t u : State W} {b : Bool}
    → b ≡ false
    → work u.trace ≡ work t.trace
    → Does p false s t
    → Does p b s u
Does-quits {p} {s} {u} failed same d =
    subst (λ b. Does p b s u) (sym failed)
      (record { effects = d.effects; runs = d.runs; shown = same ∙ d.shown })

-- An action that shows no work and does not succeed.
pub record Quits {W A : Type 0} (m : State W → Outcome A × State W) : Type 0 where
  pub fails : (s : State W) → is_ok (m s).0 ≡ false
  pub quiet : (s : State W) → work (m s).1.trace ≡ work s.trace

module _ {W A : Type 0} where
  pub Quits-fail : (e : Error) → Quits {W = W} (fail {A = A} e)
  unfolding fail
  Quits-fail e = record { fails = λ s. refl; quiet = λ s. refl }

  Does-or_else :
      {p : Plan} (s : State W) (r : Outcome A) (t : State W) (h : Error → Action W A)
      → Does p (is_ok r) s t
      → ((e : Error) → Quits (h e))
      → Does p (is_ok (or_else r h t).0) s (or_else r h t).1
  Does-or_else s (ok a) t h d q = d
  Does-or_else s (err e) t h d q = Does-quits ((q e).fails t) ((q e).quiet t) d
  Does-or_else s (panic m) t h d q = d

  -- `if err != nil { …; return err }`
  pub Performs-catch :
      {p : Plan} (m : Action W A) (h : Error → Action W A)
      → Performs p m
      → ((e : Error) → Quits (h e))
      → Performs p (catch m h)
  unfolding catch
  Performs-catch m h d q = record { at = λ s. Does-or_else s (m s).0 (m s).1 h (d.at s) q }

  Does-ignored :
      {K : Effect → Type 0} (s : State W) (r : Outcome A) (t : State W) (a : A)
      → Does (must K ∷ []) (is_ok r) s t
      → Does (may K ∷ []) (is_ok (or_else r (λ _. pure a) t).0) s (or_else r (λ _. pure a) t).1
  unfolding pure
  Does-ignored s (ok x) t a d = record {
    effects = d.effects;
    runs = optional d.runs;
    shown = d.shown;
  }
  Does-ignored s (err e) t a d = record {
    effects = d.effects;
    runs = optional_stopped d.runs;
    shown = d.shown;
  }
  Does-ignored s (panic m) t a d = record {
    effects = d.effects;
    runs = optional d.runs;
    shown = d.shown;
  }

  -- An error that is not looked at.
  pub Performs-ignored :
      {K : Effect → Type 0} (m : Action W A) (a : A)
      → Performs (must K ∷ []) m
      → Performs (may K ∷ []) (catch m (λ _. pure a))
  unfolding catch
  Performs-ignored m a d = record { at = λ s. Does-ignored s (m s).0 (m s).1 a (d.at s) }

module _ {W A B : Type 0} where
  Quits-continue :
      (r : Outcome A) (f : A → Action W B) (s t : State W)
      → work t.trace ≡ work s.trace
      → ((a : A) → Quits (f a))
      → (is_ok (continue r f t).0 ≡ false) × (work (continue r f t).1.trace ≡ work s.trace)
  Quits-continue (ok a) f s t same q = ((q a).fails t, (q a).quiet t ∙ same)
  Quits-continue (err e) f s t same q = (refl, same)
  Quits-continue (panic m) f s t same q = (refl, same)

  pub Quits-bind :
      (m : Action W A) (f : A → Action W B)
      → ((es : List Effect) → Keeps (λ (s : State W). work s.trace ≡ es) m)
      → ((a : A) → Quits (f a))
      → Quits (m >>= f)
  unfolding ◌>>=◌
  Quits-bind m f k q = record {
    fails = λ s. (Quits-continue (m s).0 f s (m s).1 ((k (work s.trace)).at s refl) q).0;
    quiet = λ s. (Quits-continue (m s).0 f s (m s).1 ((k (work s.trace)).at s refl) q).1;
  }
