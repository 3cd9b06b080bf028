-- ===== src/Machine/Plans/Rules.antt =====
-- Which plan an action carries out, with one rule for each way to build an action.
use nodedeploy_controller.Prelude.{
  Bool, true, false, List, [], ◌∷◌, ◌++◌, ◌≡◌, refl, subst, if◌then◌else◌,
}
use mathlib.Core.List.{append-nil}
use nodedeploy_controller.Machine.{
  Error, Outcome, ok, err, panic, Effect, State, Action, pure, fail, crash, gets, call, perform,
  continue, emit, from_outcome, ◌>>=◌,
}
use nodedeploy_controller.Machine.Keeps.{
  Keeps-pure, Keeps-gets, Keeps-call, Keeps-emit, Keeps-from_outcome,
}
use nodedeploy_controller.Machine.Plans.{
  must, may, Plan, Runs, finished, stopped, did, also_did, left_out, work, IsQuiet, is_ok, Does,
  Performs, Does-append, Does-stop, Performs-quiet, IsQuiet-IsRobust,
}

one :
    {A : Type 0} {K : Effect → Type 0} {e : Effect}
    → K e
    → (r : Outcome A) → Runs (must K ∷ []) (e ∷ []) (is_ok r)
one k (ok a) = did k finished
one k (err x) = did k stopped
one k (panic m) = did k stopped

pub optional :
    {K : Effect → Type 0} {es : List Effect} {b : Bool}
    → Runs (must K ∷ []) es b
    → Runs (may K ∷ []) es b
optional stopped = stopped
optional (did k r) = also_did k r

module _ {W A : Type 0} where
  pub Performs-pure : (a : A) → Performs {W = W} [] (pure a)
  Performs-pure a = Performs-quiet _ λ es. Keeps-pure a

  pub Performs-gets : (f : State W → A) → Performs [] (gets f)
  Performs-gets f = Performs-quiet _ λ es. Keeps-gets f

  pub Performs-from_outcome : (r : Outcome A) → Performs {W = W} [] (from_outcome r)
  Performs-from_outcome r = Performs-quiet _ λ es. Keeps-from_outcome r

  pub Performs-call : (f : W → Outcome A × W) → Performs [] (call f)
  Performs-call f = Performs-quiet _ λ es. Keeps-call (IsQuiet-IsRobust es) f

  -- A plan of which nothing is done.
  pub Performs-fail : (p : Plan) (e : Error) → Performs {W = W} p (fail {A = A} e)
  unfolding fail
  Performs-fail p e = record { at = λ s. record { effects = []; runs = stopped; shown = refl } }

  pub Performs-crash : (p : Plan) (m : _) → Performs {W = W} p (crash {A = A} m)
  unfolding crash
  Performs-crash p m = record { at = λ s. record { effects = []; runs = stopped; shown = refl } }

  -- A call that the trace shows.
  pub Performs-perform :
      (K : Effect → Type 0) (e : Effect) (f : W → Outcome A × W)
      → ((es : List Effect) → work (e ∷ es) ≡ e ∷ work es)
      → K e
      → Performs (must K ∷ []) (perform e f)
  unfolding perform
  Performs-perform K e f visible k = record {
    at = λ s. record { effects = e ∷ []; runs = one k (f s.world).0; shown = visible s.trace };
  }

module _ {W : Type 0} where
  pub Performs-emit : (e : Effect) → IsQuiet e → Performs {W = W} [] (emit e)
  Performs-emit e q = Performs-quiet _ λ es. Keeps-emit (IsQuiet-IsRobust es) e q

module _ {W A B : Type 0} where
  Does-continue :
      {p q : Plan} (s : State W) (r : Outcome A) (t : State W) (f : A → Action W B)
      → Does p (is_ok r) s t
      → ((a : A) → Performs q (f a))
      → Does (p ++ q) (is_ok (continue r f t).0) s (continue r f t).1
  Does-continue s (ok a) t f d k = Does-append d ((k a).at t)
  Does-continue {q} s (err e) t f d k = Does-stop q d
  Does-continue {q} s (panic m) t f d k = Does-stop q d

  pub Performs-bind :
      {p q : Plan} (m : Action W A) (f : A → Action W B)
      → Performs p m
      → ((a : A) → Performs q (f a))
      → Performs (p ++ q) (m >>= f)
  unfolding ◌>>=◌
  Performs-bind m f d k = record { at = λ s. Does-continue s (m s).0 (m s).1 f (d.at s) k }

module _ {W A B : Type 0} where
  Does-called :
      {q : Plan} (s : State W) (r : Outcome A) (t : State W) (k : A → Action W B)
      → Does [] (is_ok r) s t
      → ((a : A) → r ≡ ok a → Performs q (k a))
      → Does q (is_ok (continue r k t).0) s (continue r k t).1
  Does-called s (ok a) t k d h = Does-append d ((h a refl).at t)
  Does-called {q} s (err e) t k d h = Does-stop q d
  Does-called {q} s (panic m) t k d h = Does-stop q d

  -- A call of which the rest needs to know what it gave.
  pub Performs-called :
      {q : Plan} (f : W → Outcome A × W) (k : A → Action W B)
      → ((w : W) (a : A) → (f w).0 ≡ ok a → Performs q (k a))
      → Performs q (call f >>= k)
  unfolding ◌>>=◌ call
  Performs-called f k h = record {
    at = λ s.
        Does-called s (f s.world).0 (record s { world = (f s.world).1 }) k ((Performs-call f).at s)
          (h s.world);
  }

module _ {W A B : Type 0} where
  -- A last action that shows no work.
  pub Performs-bind_last :
      {p : Plan} (m : Action W A) (f : A → Action W B)
      → Performs p m
      → ((a : A) → Performs [] (f a))
      → Performs p (m >>= f)
  Performs-bind_last {p} m f d k =
      subst (λ q. Performs q (m >>= f)) (append-nil p) (Performs-bind m f d k)

module _ {W A : Type 0} where
  pub Performs-if :
      {p q : Plan} (b : Bool) (m n : Action W A)
      → Performs p m
      → Performs q n
      → Performs (if b then p else q) (if b then m else n)
  Performs-if true m n d e = d
  Performs-if false m n d e = e

module _ {W A : Type 0} {K : Effect → Type 0} {m : State W → Outcome A × State W} where
  -- A step that is not asked for.
  pub Performs-may : Performs (must K ∷ []) m → Performs (may K ∷ []) m
  Performs-may d = record {
    at = λ s. record {
      effects = (d.at s).effects;
      runs = optional (d.at s).runs;
      shown = (d.at s).shown;
    };
  }

  pub Performs-left_out : Performs [] m → Performs (may K ∷ []) m
  Performs-left_out d = record {
    at = λ s. record {
      effects = (d.at s).effects;
      runs = left_out (d.at s).runs;
      shown = (d.at s).shown;
    };
  }

-- An action that carries out one of a family of plans, known only from what it meets.
pub record PerformsSome {W A I : Type 0} (q : I → Plan) (m : State W → Outcome A × State W)
    : Type 1 where
  pub at : (s : State W) → (i : I) × Does (q i) (is_ok (m s).0) s (m s).1

module _ {W A I : Type 0} where
  -- The plan is known beforehand.
  pub known :
      {q : I → Plan} {m : State W → Outcome A × State W} (i : I)
      → Performs (q i) m
      → PerformsSome q m
  known i k = record { at = λ s. (i, k.at s) }

module _ {W A B I : Type 0} where
  some_continue :
      {p : Plan} {q : I → Plan} (s : State W) (r : Outcome A) (t : State W) (f : A → Action W B)
      → I
      → Does p (is_ok r) s t
      → ((a : A) → PerformsSome q (f a))
      → (i : I) × Does (p ++ q i) (is_ok (continue r f t).0) s (continue r f t).1
  some_continue s (ok a) t f i₀ d k = let (i, e) = (k a).at t in (i, Does-append d e)
  some_continue {q} s (err e) t f i₀ d k = (i₀, Does-stop (q i₀) d)
  some_continue {q} s (panic m) t f i₀ d k = (i₀, Does-stop (q i₀) d)

  given_continue :
      {p : Plan} {q : I → Plan} (s : State W) (r : Outcome A) (t : State W) (f : A → Action W B)
      → I
      → Does p (is_ok r) s t
      → ((a : A) → r ≡ ok a → (i : I) × Performs (q i) (f a))
      → (i : I) × Does (p ++ q i) (is_ok (continue r f t).0) s (continue r f t).1
  given_continue s (ok a) t f i₀ d k = let (i, e) = k a refl in (i, Does-append d (e.at t))
  given_continue {q} s (err e) t f i₀ d k = (i₀, Does-stop (q i₀) d)
  given_continue {q} s (panic m) t f i₀ d k = (i₀, Does-stop (q i₀) d)

  -- The plan of the rest depends on what the first action gave.
  pub PerformsSome-given :
      {p : Plan} {q : I → Plan} (m : Action W A) (f : A → Action W B)
      → I
      → Performs p m
      → ((s : State W) (a : A) → (m s).0 ≡ ok a → (i : I) × Performs (q i) (f a))
      → PerformsSome (λ i. p ++ q i) (m >>= f)
  unfolding ◌>>=◌
  PerformsSome-given m f i₀ d k = record {
    at = λ s. given_continue s (m s).0 (m s).1 f i₀ (d.at s) (k s);
  }

  then_continue :
      {p : Plan} {q : I → Plan} (s : State W) (r : Outcome A) (t : State W) (f : A → Action W B)
      → ((i : I) × Does (q i) (is_ok r) s t)
      → ((a : A) → Performs p (f a))
      → (i : I) × Does (q i ++ p) (is_ok (continue r f t).0) s (continue r f t).1
  then_continue s (ok a) t f (i, d) k = (i, Does-append d ((k a).at t))
  then_continue {p} s (err e) t f (i, d) k = (i, Does-stop p d)
  then_continue {p} s (panic m) t f (i, d) k = (i, Does-stop p d)

  pub PerformsSome-then :
      {p : Plan} {q : I → Plan} (m : Action W A) (f : A → Action W B)
      → PerformsSome q m
      → ((a : A) → Performs p (f a))
      → PerformsSome (λ i. q i ++ p) (m >>= f)
  unfolding ◌>>=◌
  PerformsSome-then m f d k = record { at = λ s. then_continue s (m s).0 (m s).1 f (d.at s) k }

  pub PerformsSome-bind :
      {p : Plan} {q : I → Plan} (m : Action W A) (f : A → Action W B)
      → I
      → Performs p m
      → ((a : A) → PerformsSome q (f a))
      → PerformsSome (λ i. p ++ q i) (m >>= f)
  unfolding ◌>>=◌
  PerformsSome-bind m f i₀ d k = record {
    at = λ s. some_continue s (m s).0 (m s).1 f i₀ (d.at s) k;
  }
