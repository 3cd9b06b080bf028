-- ===== src/Machine/Plans.antt =====
-- Plans: what an action does to the node and to the cluster, in which order. An action carries a plan
-- out from its start, and ends early or at the plan's end.
pub mod Rules
pub mod Errors
use nodedeploy_controller.Prelude.{Bool, true, false, List, [], ◌∷◌, ◌++◌, ◌≡◌, refl, ◌∙◌, sym, ap}
use nodedeploy_controller.Machine.{
  Error, Outcome, ok, err, panic, Effect, event, write_status, update_node, delete_node,
  cordon_node, evict_pods, dial, exec, upload, write_secret, IsSecretWrite, State, Action, pure,
  fail, crash, gets, call, perform, catch, or_else, continue, emit, from_outcome, ◌>>=◌,
}
use nodedeploy_controller.Machine.Keeps.{Keeps, IsRobust, IsRobust-mono}

-- An effect that has to come next, and one that may be left out, each given by what it is like.
pub data Item : Type 1 where
  must may : (Effect → Type 0) → Item

abbrev pub Plan : Type 1
Plan = List Item

-- The effects of an action that carries a plan out, the oldest first, and whether it got to the end.
pub data Runs : Plan → List Effect → Bool → Type 1 where
  finished : Runs [] [] true
  stopped : {p : Plan} → Runs p [] false
  did :
      {K : Effect → Type 0} {e : Effect} {p : Plan} {es : List Effect} {b : Bool}
      → K e
      → Runs p es b
      → Runs (must K ∷ p) (e ∷ es) b
  also_did :
      {K : Effect → Type 0} {e : Effect} {p : Plan} {es : List Effect} {b : Bool}
      → K e
      → Runs p es b
      → Runs (may K ∷ p) (e ∷ es) b
  left_out :
      {K : Effect → Type 0} {p : Plan} {es : List Effect} {b : Bool}
      → Runs p es b
      → Runs (may K ∷ p) es b

pub Runs-append :
    {p q : Plan} {xs ys : List Effect} {b : Bool}
    → Runs p xs true
    → Runs q ys b
    → Runs (p ++ q) (xs ++ ys) b
Runs-append finished r = r
Runs-append (did k l) r = did k (Runs-append l r)
Runs-append (also_did k l) r = also_did k (Runs-append l r)
Runs-append (left_out l) r = left_out (Runs-append l r)

pub Runs-stop : (q : Plan) {p : Plan} {xs : List Effect} → Runs p xs false → Runs (p ++ q) xs false
Runs-stop q stopped = stopped
Runs-stop q (did k l) = did k (Runs-stop q l)
Runs-stop q (also_did k l) = also_did k (Runs-stop q l)
Runs-stop q (left_out l) = left_out (Runs-stop q l)

-- What a trace shows of the work: events and writes of statuses and secrets are passed over.
abbrev pub work : List Effect → List Effect
work [] = []
work (event t r m ∷ es) = work es
work (write_status st ∷ es) = work es
work (write_secret name ∷ es) = work es
work (update_node n ∷ es) = update_node n ∷ work es
work (delete_node n ∷ es) = delete_node n ∷ work es
work (cordon_node n ∷ es) = cordon_node n ∷ work es
work (evict_pods ps ∷ es) = evict_pods ps ∷ work es
work (dial server ∷ es) = dial server ∷ work es
work (exec cmd ∷ es) = exec cmd ∷ work es
work (upload src dest ∷ es) = upload src dest ∷ work es

abbrev pub IsQuiet : Effect → Type 0
IsQuiet (event t r m) = Unit
IsQuiet (write_status st) = Unit
IsQuiet (write_secret name) = Unit
IsQuiet _ = ⊥

pub work-quiet : (e : Effect) (es : List Effect) → IsQuiet e → work (e ∷ es) ≡ work es
work-quiet (event t r m) es q = refl
work-quiet (write_status st) es q = refl
work-quiet (write_secret name) es q = refl
work-quiet _ es q = elim q [ ]

-- The newer effects, the oldest first, on top of a trace, which has the newest first.
abbrev pub onto : List Effect → List Effect → List Effect
onto [] es = es
onto (e ∷ new) es = onto new (e ∷ es)

onto-append : (xs ys es : List Effect) → onto (xs ++ ys) es ≡ onto ys (onto xs es)
onto-append [] ys es = refl
onto-append (x ∷ xs) ys es = onto-append xs ys (x ∷ es)

abbrev pub is_ok : {A : Type 0} → Outcome A → Bool
is_ok (ok a) = true
is_ok (err e) = false
is_ok (panic m) = false

-- From `s` to `t` the plan was carried out, to its end or not.
pub record Does {W : Type 0} (p : Plan) (b : Bool) (s t : State W) : Type 1 where
  pub effects : List Effect
  pub runs : Runs p effects b
  pub shown : work t.trace ≡ onto effects (work s.trace)

-- An action that carries a plan out, to the end where it succeeds.
pub record Performs {W A : Type 0} (p : Plan) (m : State W → Outcome A × State W) : Type 1 where
  pub at : (s : State W) → Does p (is_ok (m s).0) s (m s).1

nothing : {A : Type 0} (r : Outcome A) → Runs [] [] (is_ok r)
nothing (ok a) = finished
nothing (err e) = stopped
nothing (panic m) = stopped

secret_writes-IsQuiet : (e : Effect) → IsSecretWrite e → IsQuiet e
secret_writes-IsQuiet (write_secret name) q = q
secret_writes-IsQuiet _ q = elim q [ ]

module _ {W : Type 0} where
  pub Does-append :
      {p q : Plan} {b : Bool} {s t u : State W}
      → Does p true s t
      → Does q b t u
      → Does (p ++ q) b s u
  Does-append {s} d f = record {
    effects = d.effects ++ f.effects;
    runs = Runs-append d.runs f.runs;
    shown =
        f.shown
        ∙ ap (onto f.effects) d.shown
        ∙ sym (onto-append d.effects f.effects (work s.trace));
  }

  pub Does-stop : (q : Plan) {p : Plan} {s t : State W} → Does p false s t → Does (p ++ q) false s t
  Does-stop q d = record { effects = d.effects; runs = Runs-stop q d.runs; shown = d.shown }

  -- An action that shows no work.
  pub Performs-quiet :
      {A : Type 0} (m : State W → Outcome A × State W)
      → ((es : List Effect) → Keeps (λ (s : State W). work s.trace ≡ es) m)
      → Performs [] m
  Performs-quiet m quiet = record {
    at = λ s. record {
      effects = [];
      runs = nothing (m s).0;
      shown = (quiet (work s.trace)).at s refl;
    };
  }

  pub IsQuiet-IsRobust : (es : List Effect) → IsRobust IsQuiet (λ (s : State W). work s.trace ≡ es)
  IsQuiet-IsRobust es = record {
    world = λ s w h. h;
    effect = λ s e q h. work-quiet e s.trace q ∙ h;
  }

  -- A write of a secret is no work.
  pub secret-quiet :
      (es : List Effect) → IsRobust IsSecretWrite (λ (s : State W). work s.trace ≡ es)
  secret-quiet es = IsRobust-mono secret_writes-IsQuiet (IsQuiet-IsRobust es)
