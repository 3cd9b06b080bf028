-- ===== src/Reconcile/Lifecycle.antt =====
-- Every status that a call of `Reconcile` writes follows the diagram of the life cycle.
use nodedeploy_controller.Prelude.{
  ℕ, suc, String, true, false, ◌&&◌, ◌≡◌, refl, ◌≢◌, Option, [], none, some, arith, if-cases,
}
use nodedeploy_controller.Duration.{pos, sub_ℕ}
use nodedeploy_controller.Api.{
  NodeDeploy, NodeStatus, unknown, init, inactive, active, launch_fail, deprecate_fail, same_status,
}
use nodedeploy_controller.Machine.{Outcome, ok, State, pure, gets, ◌>>=◌, ◌>>◌}
use nodedeploy_controller.Machine.Keeps.{
  Keeps, Keeps-pure, Keeps-bind, Keeps-catch, Keeps-emit, Keeps-fail, Keeps-gets, Keeps-crash,
  bind_seq,
}
use nodedeploy_controller.Env.{Env}
use nodedeploy_controller.Env.Laws.{IsFaithful, IsRetry}
use nodedeploy_controller.Node.{get_before_status}
use nodedeploy_controller.Phases.{Result, done, to_uint, node_info, now, update_status, set_status}
use nodedeploy_controller.Phases.Frames.{now-Keeps, preflight_check-Keeps}
use nodedeploy_controller.Reconcile.{
  reconcile, reconcile_object, check_deadline, expired, fall_back, deadline_or_crash,
  preflight_and_act, act, reject, is_intermediate,
}
use nodedeploy_controller.Reconcile.Gates.{IsUnderWay, reconcile-entered}
use nodedeploy_controller.Reconcile.Diagram.{Edge, writes, latest, Chain}
use nodedeploy_controller.Reconcile.Diagram.Writes.{
  At, Follows, At-Follows, IsPending, set_status_leads, update_leads,
}
use nodedeploy_controller.Reconcile.Diagram.Ready.{
  IsTarget, Ready, inactive-Edge, launch-Edge, stay-Edge, fall-Edge, Ready-CanLaunch,
  Ready-CanDeprecate, left-Ready,
}
use nodedeploy_controller.Reconcile.Branches.{
  IsInt32, to_uint_pos, Read, Read-IsRobust, Follows-IsRobust, init-Follows, launch-Follows,
  deprecate-Follows,
}

same_eq : (a b : NodeStatus) → same_status a b ≡ true → a ≡ b
same_eq a b h = ground arith

same_ne : (a b : NodeStatus) → same_status a b ≡ false → a ≢ b
same_ne a b h = ground arith

module _ (E : Env) (faithful : IsFaithful E.cluster) (law : IsRetry E.retry) (d : NodeDeploy)
    (n : ℕ) (attempts : to_uint d.spec.max_retry ≡ suc n) where
  abbrev Good : (State E.World → Outcome Result × State E.World) → Type 0
  Good m = (s : State E.World) → Read E faithful law d s → Follows d (m s).1

  pure-Good : Good (pure done)
  unfolding pure
  pure-Good s h = At-Follows d h

  act-Good : Ready d.spec.node_status d.status.node_status → Good (act E d)
  unfolding act ◌>>=◌
  act-Good ready =
      if-cases Good (same_status d.spec.node_status active) _ _
        (λ b.
          launch-Follows E faithful law d n attempts (same_eq _ _ b)
            (Ready-CanLaunch ready (same_eq _ _ b)))
        λ b.
          if-cases Good (same_status d.spec.node_status inactive) _ _
            (λ b'.
              if-cases Good (same_status d.status.node_status init) _ _
                (λ b''. λ s h. At-Follows d ((Read-IsRobust E faithful law d).effect s _ tt h))
                (λ b''.
                  deprecate-Follows E faithful law d n attempts (same_eq _ _ b')
                    (Ready-CanDeprecate ready (same_eq _ _ b') (same_ne _ _ b''))))
            (λ b'. pure-Good)

  -- Behind the assignment of a status that the diagram admits.
  after_set :
      (x : NodeStatus) (f : State E.World → Outcome Result × State E.World)
      → Keeps (Follows d) f
      → (s : State E.World) → IsPending d x (λ y. Unit) s
      → Follows d ((update_status E >> f) s).1
  after_set x f kept =
      bind_seq (IsPending d x (λ y. Unit)) (At d (λ y. y ≡ x) (λ y. Unit)) (Follows d)
        (update_status E) _ (update_leads E faithful d x (λ y. Unit))
        (λ _ t k. kept.at t (At-Follows d k)) (λ t k. At-Follows d k)

  set-Good :
      (x : NodeStatus) (f : State E.World → Outcome Result × State E.World)
      → Edge d.spec.node_status d.status.node_status x
      → Keeps (Follows d) f
      → Good (set_status x >> (update_status E >> f))
  unfolding ◌>>=◌
  set-Good x f edge kept s h =
      after_set x f kept _
        (set_status_leads d (λ y. y ≡ d.status.node_status) (λ y. Unit) x (λ y e. rw e edge) s h)

  -- The status is written again as it is.
  same-Good :
      Edge d.spec.node_status d.status.node_status d.status.node_status
      → Good (pure tt >> (update_status E >> pure done))
  unfolding ◌>>=◌
  same-Good edge s h = after_set d.status.node_status (pure done) (Keeps-pure done) s (record {
    chain = h.chain;
    edge = rw (← h.current) (rw h.status_is edge);
    set = h.status_is;
    out = tt;
    spec = h.spec;
  })

  abbrev Refused : (State E.World → Outcome Unit × State E.World) → Type 0
  Refused m = Good (m >> (update_status E >> pure done))

  reject-Good : Ready d.spec.node_status d.status.node_status → Good (reject E d)
  unfolding reject
  reject-Good ready =
      if-cases Refused (same_status d.status.node_status inactive) _ _
        (λ b.
          set-Good deprecate_fail (pure done) (inactive-Edge ready (same_eq _ _ b))
            (Keeps-pure done))
        λ b.
          if-cases Refused (same_status d.spec.node_status active) _ _
            (λ b'.
              set-Good launch_fail (pure done) (launch-Edge ready (same_eq _ _ b') (same_ne _ _ b))
                (Keeps-pure done))
            (λ b'. same-Good (stay-Edge ready (same_ne _ _ b')))

  preflight-Good : Ready d.spec.node_status d.status.node_status → Good (preflight_and_act E d)
  unfolding preflight_and_act
  preflight-Good ready =
      bind_seq (Read E faithful law d) (Read E faithful law d) (Follows d) _ _
        (Keeps-catch _ _
          (preflight_check-Keeps E (Read-IsRobust E faithful law d) (λ t r m. tt) (node_info d))
          (λ e.
            Keeps-bind _ _ (Keeps-emit (Read-IsRobust E faithful law d) _ tt)
              (λ _. Keeps-fail e))).at
        (λ success. if-cases Good success _ _ (λ _. act-Good ready) (λ _. reject-Good ready))
        (λ t k. At-Follows d k)

  after_fall_back : Keeps {A = Result} (Follows d) (do
    d' ← gets (λ s. s.object)
    t ← deadline_or_crash E d'.status.deadline
    r ← now E
    pure (record { requeue_after = sub_ℕ t r }))
  unfolding deadline_or_crash
  after_fall_back = Keeps-bind _ _ (Keeps-gets _) λ d'.
      Keeps-bind _ _ (dated d'.status.deadline) λ t.
        Keeps-bind _ _ (now-Keeps E (Follows-IsRobust E faithful law d) (λ t r m. tt))
          λ r. Keeps-pure _
    where
      dated : (o : Option ℕ) → Keeps (Follows d) (deadline_or_crash E o)
      dated (some t) = Keeps-pure t
      dated none = Keeps-crash _

  fall_back-Good : IsUnderWay d.status.node_status → Good (fall_back E)
  unfolding fall_back ◌>>=◌
  fall_back-Good under_way s h =
      set-Good (get_before_status s.object.status.node_status) _
        (rw h.status_is (fall-Edge under_way)) after_fall_back _
        ((Read-IsRobust E faithful law d).effect s _ tt h)

  expired-Keeps : (o : Option ℕ) → Keeps (Read E faithful law d) (expired E o)
  unfolding expired
  expired-Keeps none = Keeps-pure false
  expired-Keeps (some t) =
      Keeps-bind _ _ (now-Keeps E (Read-IsRobust E faithful law d) (λ t r m. tt)) λ r. Keeps-pure _

  deadline-Good : IsUnderWay d.status.node_status → Good (check_deadline E)
  unfolding check_deadline ◌>>=◌
  deadline-Good under_way s h =
      bind_seq (Read E faithful law d) (Read E faithful law d) (Follows d)
        (expired E s.object.status.deadline) _ (expired-Keeps s.object.status.deadline).at
        (λ late. if-cases Good late _ _ (λ _. fall_back-Good under_way) (λ _. pure-Good))
        (λ t k. At-Follows d k) s h

  guarded-Good :
      IsTarget d.spec.node_status
      → d.status.node_status ≢ unknown
      → d.spec.node_status ≢ d.status.node_status
      → ¬ (IsUnderWay d.status.node_status)
      → (same_status d.spec.node_status active && same_status d.status.node_status launch_fail)
        ≡ false
      → (same_status d.spec.node_status inactive && same_status d.status.node_status deprecate_fail)
        ≡ false
      → Good (preflight_and_act E d)
  guarded-Good target known differs idle up down =
      preflight-Good
        (left-Ready target known differs idle (λ g e. ground arith) (λ g e. ground arith))

  object-Good : IsTarget d.spec.node_status → Good (reconcile_object E d)
  unfolding reconcile_object
  object-Good target =
      if-cases Good (same_status d.status.node_status unknown) _ _
        (λ b. init-Follows E faithful law d (same_eq _ _ b))
        λ b₀.
          if-cases Good (same_status d.spec.node_status d.status.node_status) _ _ (λ b. pure-Good)
            λ b₁.
              if-cases Good (is_intermediate d.status.node_status) _ _
                (λ b. deadline-Good (ground arith))
                λ b₂.
                  if-cases Good
                    (same_status d.spec.node_status active
                      && same_status d.status.node_status launch_fail)
                    _ _ (λ b. pure-Good)
                    λ b₃.
                      if-cases Good
                        (same_status d.spec.node_status inactive
                          && same_status d.status.node_status deprecate_fail)
                        _ _ (λ b. pure-Good)
                        (λ b₄.
                          guarded-Good target (same_ne _ _ b₀) (same_ne _ _ b₁) (ground arith) b₃
                            b₄)

module _ (E : Env) (faithful : IsFaithful E.cluster) (law : IsRetry E.retry) where
  Read-at :
      (d : NodeDeploy) (s : State E.World) (w : E.World)
      → s.trace ≡ []
      → Read E faithful law d (record s { object = d; world = w })
  Read-at d s w fresh = record {
    chain = rw fresh tt;
    current = rw fresh refl;
    status_is = refl;
    out = tt;
    spec = refl;
  }

  -- Every status that a call of `Reconcile` sends to the server follows, along an edge of the diagram,
  -- from the one sent before it, and the first from the status that the object was read with;
  -- afterwards the object in memory has the last status sent. This holds for every outcome of every
  -- call to the cluster, the node and the libraries, panics included, if the server keeps what it is
  -- sent, `retry.Do` is as documented, the spec asks for `active` or `inactive` and the number of
  -- attempts is not 0.
  pub reconcile_follows_diagram :
      (key : String) (s : State E.World) (d : NodeDeploy) (w : E.World)
      → s.trace ≡ []
      → E.cluster.get_node_deploy key s.world ≡ (ok d, w)
      → IsTarget d.spec.node_status
      → IsInt32 d.spec.max_retry
      → d.spec.max_retry ≢ pos 0
      → let s' = (reconcile E key s).1 in
        Chain d.spec.node_status d.status.node_status (writes s'.trace)
        × (s'.object.status.node_status ≡ latest d.status.node_status (writes s'.trace))
  reconcile_follows_diagram key s d w fresh got target int32 nonzero =
      let (n, attempts) = to_uint_pos d.spec.max_retry int32 nonzero in
      let h =
        object-Good E faithful law d n attempts target (record s { object = d; world = w })
          (Read-at d s w fresh) in
      rw (reconcile-entered E key s d w got) (h.chain, h.current)
