-- ===== src/Node/Watch.antt =====
-- How the watch on a node ends, and what counts as ready.
use nodedeploy_controller.Prelude.{
  String, str_eq, eq_iff, Bool, true, false, List, [], ◌∷◌, ◌≡◌, refl, ◌⊎◌, inl, inr, Bool-cases,
  Option, none, some, if◌then◌else◌,
}
use nodedeploy_controller.Api.{Node, NodeCondition}
use nodedeploy_controller.Machine.{ok, State, ◌>>=◌}
use nodedeploy_controller.Env.{
  Env, Signal, context_done, closed, received, WatchType, added, modified, deleted, bookmark, error,
}
use nodedeploy_controller.Node.{
  node_is_ready, has_ready_condition, is_awaited, watch_loop, same_bool,
}

-- A test, and what it tests.
abbrev pub Decides : Bool → Type 0 → Type 0
Decides b P = ((b ≡ true) × P) ⊎ ((b ≡ false) × ¬ P)

-- Some condition has the type `Ready`.
abbrev pub HasReady : List NodeCondition → Type 0
HasReady [] = ⊥
HasReady (c ∷ cs) = (c.type_name ≡ "Ready") ⊎ HasReady cs

abbrev pub ReadyAs : Bool → Node → Type 0
ReadyAs true n = HasReady n.conditions
ReadyAs false n = ¬ (HasReady n.conditions)

-- An addition or a modification of the node with that name, in the state wanted.
abbrev pub Awaited : String → Bool → Signal → Type 0
Awaited name ready (received added (some n)) = (n.name ≡ name) × ReadyAs ready n
Awaited name ready (received modified (some n)) = (n.name ≡ name) × ReadyAs ready n
Awaited name ready _ = ⊥

-- One comes before the context ends.
abbrev pub Comes : String → Bool → List Signal → Type 0
Comes name ready [] = ⊥
Comes name ready (context_done ∷ rest) = ⊥
Comes name ready (closed ∷ rest) = Comes name ready rest
Comes name ready (received t o ∷ rest) = Awaited name ready (received t o) ⊎ Comes name ready rest

str_eq-decides : (s t : String) → Decides (str_eq s t) (s ≡ t)
str_eq-decides s t = elim (Bool-cases (str_eq s t)) [
  | inl e ↦ inl (e, (eq_iff s t).0 e)
  | inr e ↦ inr (e, λ same. absurd (cc (e, (eq_iff s t).1 same)))
]

has_ready_condition-decides :
    (cs : List NodeCondition) → Decides (has_ready_condition cs) (HasReady cs)
unfolding has_ready_condition
has_ready_condition-decides [] = inr (refl, λ h. h)
has_ready_condition-decides (c ∷ cs) = elim (str_eq-decides c.type_name "Ready") [
  | inl (e, same) ↦ rw e (inl (refl, inl same))
  | inr (e, apart) ↦ rw e (elim (has_ready_condition-decides cs) [
    | inl (e', h) ↦ inl (e', inr h)
    | inr (e', none_has) ↦
        inr (e', λ h. elim h [ inl same ↦ apart same | inr later ↦ none_has later ])
  ])
]

shown-decides :
    (ready b : Bool) (n : Node)
    → Decides b (HasReady n.conditions)
    → Decides (same_bool b ready) (ReadyAs ready n)
shown-decides true _ n (inl (e, h)) = rw e (inl (refl, h))
shown-decides true _ n (inr (e, h)) = rw e (inr (refl, h))
shown-decides false _ n (inl (e, h)) = rw e (inr (refl, λ none_has. none_has h))
shown-decides false _ n (inr (e, h)) = rw e (inl (refl, h))

module _ (E : Env) (name : String) (ready : Bool) where
  named-decides :
      (n : Node)
      → Decides
          (if str_eq n.name name then same_bool (node_is_ready n) ready else false)
          ((n.name ≡ name) × ReadyAs ready n)
  unfolding node_is_ready
  named-decides n = elim (str_eq-decides n.name name) [
    | inl (e, same) ↦
        rw e
          (elim (shown-decides ready (has_ready_condition n.conditions) n
            (has_ready_condition-decides n.conditions)) [
              | inl (e', h) ↦ inl (e', (same, h))
              | inr (e', h) ↦ inr (e', λ p. h p.1)
            ])
    | inr (e, apart) ↦ rw e (inr (refl, λ p. apart p.0))
  ]

  is_awaited-decides :
      (t : WatchType) (o : Option Node)
      → Decides (is_awaited E name ready (received t o)) (Awaited name ready (received t o))
  unfolding is_awaited
  is_awaited-decides added (some n) = named-decides n
  is_awaited-decides modified (some n) = named-decides n
  is_awaited-decides added none = inr (refl, λ h. h)
  is_awaited-decides modified none = inr (refl, λ h. h)
  is_awaited-decides deleted o = inr (refl, λ h. h)
  is_awaited-decides bookmark o = inr (refl, λ h. h)
  is_awaited-decides error o = inr (refl, λ h. h)

  -- The watch returns without an error whatever it receives. It returns `true` if an addition or a
  -- modification of a node with that name comes before the end of the context, which has a condition of
  -- the type `Ready` or has none, as is wanted, and `false` if none does; the timer ends it after the last
  -- signal.
  pub watch_loop_result :
      (signals : List Signal) (s : State E.World)
      → (((watch_loop E name ready signals s).0 ≡ ok true) × Comes name ready signals)
        ⊎ (((watch_loop E name ready signals s).0 ≡ ok false) × ¬ (Comes name ready signals))
  unfolding watch_loop ◌>>=◌
  watch_loop_result [] s = inr (refl, λ h. h)
  watch_loop_result (context_done ∷ rest) s = inr (refl, λ h. h)
  watch_loop_result (closed ∷ rest) s = watch_loop_result rest s
  watch_loop_result (received t o ∷ rest) s = elim (is_awaited-decides t o) [
    | inl (e, h) ↦ rw e (inl (refl, inl h))
    | inr (e, h) ↦ rw e (elim (watch_loop_result rest s) [
      | inl (e', later) ↦ inl (e', inr later)
      | inr (e', never) ↦ inr (e', λ c. elim c [ inl now ↦ h now | inr later ↦ never later ])
    ])
  ]

-- The condition with its status replaced.
abbrev pub with_statuses : (NodeCondition → String) → List NodeCondition → List NodeCondition
with_statuses f [] = []
with_statuses f (c ∷ cs) = record c { status = f c } ∷ with_statuses f cs

-- Whether a node counts as ready does not depend on the statuses of its conditions: a node whose
-- condition `Ready` is "False" or "Unknown" counts as ready like one where it is "True".
pub node_is_ready_ignores_status :
    (f : NodeCondition → String) (n : Node)
    → node_is_ready (record n { conditions = with_statuses f n.conditions }) ≡ node_is_ready n
unfolding node_is_ready
node_is_ready_ignores_status f n = same_conditions n.conditions
  where
    same_conditions :
        (cs : List NodeCondition)
        → has_ready_condition (with_statuses f cs) ≡ has_ready_condition cs
    same_conditions [] = refl
    same_conditions (c ∷ cs) = rw (same_conditions cs)
