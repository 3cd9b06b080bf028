-- ===== src/Phases/Marking.antt =====
-- What a successful launch has done to the object of the node.
use nodedeploy_controller.Prelude.{
  String, str_eq, eq_iff, Bool, true, false, Bool-cases, [], ◌∷◌, ◌≡◌, refl, sym, ap, ◌∙◌, inl, inr,
  subst, All, Option, none, some, if◌then◌else◌,
}
use nodedeploy_controller.Api.{
  StringMap, Node, NodeInfo, NodeDeploy, NodeDeploySpec, Taint, warning, launch_node,
}
use nodedeploy_controller.Machine.{
  ok, IsRemote, event, emit, fail, update_node, State, call, perform, pure, catch, gets, ◌>>◌,
}
use nodedeploy_controller.Machine.Keeps.{
  Keeps, IsRobust, Keeps-catch, Keeps-bind, Keeps-emit, Keeps-fail,
}
use nodedeploy_controller.Manager.Frames.{launch_by_cmd-Keeps}
use nodedeploy_controller.Node.Frames.{watch_node-Keeps}
use nodedeploy_controller.Machine.Success.{bind_ok, both}
use nodedeploy_controller.Env.{Env}
use nodedeploy_controller.Env.Laws.{IsConflictRetry}
use nodedeploy_controller.Token.{insert}
use nodedeploy_controller.Node.{mark_node, watch_node, annotate, insert_all, has_taint}
use nodedeploy_controller.Node.Taints.{add_taints_complete}
use nodedeploy_controller.Phases.{launch, finish_launch}

-- The value of a key in a map, nil included.
abbrev pub look_up : String → StringMap → Option String
look_up k [] = none
look_up k ((j, v) ∷ m) = if str_eq j k then some v else look_up k m

abbrev pub annotation : String → Option StringMap → Option String
annotation k none = none
annotation k (some m) = look_up k m

-- The value that a list of entries has for a key, the last one, and else the one from before.
abbrev pub overridden : String → StringMap → Option String → Option String
overridden k [] before = before
overridden k ((j, v) ∷ m) before = overridden k m (if str_eq j k then some v else before)

look_up-insert :
    (j k v : String) (m : StringMap)
    → look_up k (insert j v m) ≡ (if str_eq j k then some v else look_up k m)
unfolding insert
look_up-insert j k v [] = refl
look_up-insert j k v ((i, w) ∷ m) = elim (Bool-cases (str_eq i j)) [
  | inl e ↦ rw e (
      rw ((eq_iff i j).0 e)
        (elim (Bool-cases (str_eq j k)) [ inl e' ↦ rw e' refl | inr e' ↦ rw e' refl ]))
  | inr e ↦ rw e (
      rw (look_up-insert j k v m) (elim (Bool-cases (str_eq j k)) [
        | inl e' ↦ rw e' (rw (subst (λ x. str_eq i x ≡ false) ((eq_iff j k).0 e') e) refl)
        | inr e' ↦ rw e' refl
      ]))
]

look_up-insert_all :
    (k : String) (kvs m : StringMap) → look_up k (insert_all kvs m) ≡ overridden k kvs (look_up k m)
unfolding insert_all
look_up-insert_all k [] m = refl
look_up-insert_all k ((j, v) ∷ kvs) m =
    look_up-insert_all k kvs (insert j v m) ∙ ap (overridden k kvs) (look_up-insert j k v m)

annotation-annotate :
    (k : String) (kvs : StringMap) (m m' : Option StringMap)
    → annotate kvs m ≡ ok m'
    → annotation k m' ≡ overridden k kvs (annotation k m)
unfolding annotate
annotation-annotate k [] m m' e = ap (annotation k) (given e)
  where
    given : {a b : Option StringMap} → ok a ≡ ok b → b ≡ a
    given same = cc
annotation-annotate k (kv ∷ kvs) none m' e = absurd (cc e)
annotation-annotate k (kv ∷ kvs) (some m) m' e =
    ap (annotation k) (given e) ∙ look_up-insert_all k (kv ∷ kvs) m
  where
    given : {a b : Option StringMap} → ok a ≡ ok b → b ≡ a
    given same = cc

module _ (E : Env) where
  -- The node as the server had it, and as it was sent and accepted, and the state before.
  pub record IsMarked (spec : NodeDeploySpec) (u t : State E.World) : Type 0 where
    pub node : Node
    pub marked : Node
    pub sent_in : E.World
    pub seen : (E.cluster.get_node spec.node_name u.world).0 ≡ ok node
    pub accepted : (E.cluster.update_node marked sent_in).0 ≡ ok tt
    pub last : t.trace ≡ update_node marked ∷ u.trace
    pub same_name : marked.name ≡ node.name
    pub labels : marked.labels ≡ E.library.merge node.labels spec.labels
    pub annotations :
        (k : String)
        → annotation k marked.annotations
          ≡ overridden k spec.annotations (annotation k node.annotations)
    pub taints : All (λ x. has_taint E.library.match_taint x marked.taints ≡ true) spec.taints

  module _ (m_refl : (x : Taint) → E.library.match_taint x x ≡ true) where
    mark_ok :
        (spec : NodeDeploySpec) (u t : State E.World)
        → mark_node E spec u ≡ (ok tt, t)
        → IsMarked spec u t
    unfolding mark_node call perform
    mark_ok spec u t e =
        let (node, seen, rest) = bind_ok _ _ u t tt e in
        let (annotations, annotated, sent) = bind_ok _ _ _ t tt rest in
        record {
          node = node;
          marked = _;
          sent_in = _;
          seen = seen;
          accepted = ap (λ o. o.0) sent;
          last = ap (λ o. o.1.trace) (sym sent);
          same_name = refl;
          labels = refl;
          annotations =
              λ k. annotation-annotate k spec.annotations node.annotations annotations annotated;
          taints = add_taints_complete E.library.match_taint m_refl spec.taints node.taints;
        }

    finish_ok :
        (law : IsConflictRetry E.retry) (success : Bool) (x t : State E.World)
        → finish_launch E success x ≡ (ok true, t)
        → (u : State E.World) × IsMarked x.object.spec u t
    unfolding finish_launch pure gets
    finish_ok law false x t e = absurd (cc (ap (λ o. o.0) e))
    finish_ok law true x t e =
        let (d, read, rest) = bind_ok _ _ x t true e in
        let (done, retried, ended) = bind_ok _ _ x t true rest in
        let (u, called) =
          law.at_end (mark_node E d.spec) x t (both retried (ap (λ o. o.1) ended)) in
        (u, subst (λ y. IsMarked y u t) (same_spec d x read) (mark_ok d.spec u t called))
      where
        same_spec :
            (d : NodeDeploy) (x : State E.World) → ok x.object ≡ ok d → d.spec ≡ x.object.spec
        same_spec d x same = cc

    abbrev Unchanged : NodeDeploy → State E.World → Type 0
    Unchanged d s = s.object ≡ d

    Unchanged-IsRobust : (d : NodeDeploy) → IsRobust IsRemote (Unchanged d)
    Unchanged-IsRobust d = record { world = λ s w h. h; effect = λ s e q h. h }

    pub launch_marks :
        (law : IsConflictRetry E.retry) (info : NodeInfo) (s t : State E.World)
        → launch E info s ≡ (ok true, t)
        → (u : State E.World) × IsMarked s.object.spec u t
    unfolding launch gets
    launch_marks law info s t e =
        let (_, brought_up, rest) = bind_ok _ _ s t true e in
        let (d, read, rest') = bind_ok _ _ _ t true rest in
        let (success, watched, rest'') = bind_ok _ _ _ t true rest' in
        let (u, marked) = finish_ok law success _ t rest'' in
        (
          u,
          subst (λ o. IsMarked o.spec u t)
              ((waits d.spec.node_name).at _
                ((launch_by_cmd-Keeps E (Unchanged-IsRobust s.object) info).at s refl))
              marked,
        )
      where
        waits :
            (name : String)
            → Keeps (Unchanged s.object) (
                catch
                  (watch_node E name true)
                  λ e. emit (event warning launch_node "node status is not as expected") >> fail e)
        waits name =
            Keeps-catch _ _
              (watch_node-Keeps E (Unchanged-IsRobust s.object) (λ t r m. tt) name true)
              λ e. Keeps-bind _ _ (Keeps-emit (Unchanged-IsRobust s.object) _ tt) λ _. Keeps-fail e
