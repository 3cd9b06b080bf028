-- ===== src/Reconcile/Diagram/Work.antt =====
-- The attempts of a launch or of a removal, and the final write, follow the diagram.
use nodedeploy_controller.Prelude.{ℕ, suc, String, Bool, true, false, none, ◌≡◌, if◌then◌else◌}
use nodedeploy_controller.Duration.{ℤ}
use nodedeploy_controller.Api.{NodeDeploy, NodeStatus, unknown}
use nodedeploy_controller.Machine.{Outcome, State, pure, gets, set_outcome, ◌>>=◌, ◌>>◌}
use nodedeploy_controller.Machine.Keeps.{
  Keeps, IsRobust, Keeps-bind, Keeps-pure, Keeps-catch, Keeps-fail, bind_leads, bind_seq,
  catch_leads,
}
use nodedeploy_controller.Env.{Env}
use nodedeploy_controller.Env.Laws.{IsFaithful, IsRetry}
use nodedeploy_controller.Env.Attempts.{do_retry_rule}
use nodedeploy_controller.Phases.{
  done, to_uint, retry_delay, set_status, prepare, finalize, update_status,
}
use nodedeploy_controller.Phases.Frames.{now-Keeps, announce-Keeps}
use nodedeploy_controller.Reconcile.{attempt, drive}
use nodedeploy_controller.Reconcile.Diagram.{Edge, IsSilent}
use nodedeploy_controller.Reconcile.Diagram.Writes.{
  At, Follows, At-Follows, At-IsRobust, set_deadline-At, set_status_leads, set_deadline-IsPending,
  update_leads,
}

-- The variable `status` of `Reconcile` while the attempts go on.
pub data IsOutcome (good bad : NodeStatus) : NodeStatus → Type 0 where
  unset : IsOutcome good bad unknown
  succeeded : IsOutcome good bad good
  failed : IsOutcome good bad bad

module _ (E : Env) (faithful : IsFaithful E.cluster) (d : NodeDeploy)
    (Out : NodeStatus → Type 0) where
  module _ (Is : NodeStatus → Type 0) (x : NodeStatus)
      (admits : (y : NodeStatus) → Is y → Edge d.spec.node_status y x) where
    pub set_and_update :
        (s : State E.World)
        → At d Is Out s
        → At d (λ y. y ≡ x) Out ((set_status x >> update_status E) s).1
    unfolding ◌>>=◌
    set_and_update s h = update_leads E faithful d x Out _ (set_status_leads d Is Out x admits s h)

    -- `prepare` leads to the status that it writes.
    prepare_leads : (s : State E.World) → At d Is Out s → At d (λ y. y ≡ x) Out (prepare E x s).1
    unfolding prepare ◌>>=◌
    prepare_leads s h = set_and_update _ (
        (announce-Keeps E robust (λ t r m. tt) x).at _
          ((set_deadline-At d Is Out _).at _ ((now-Keeps E robust (λ t r m. tt)).at s h)))
      where
        robust : IsRobust IsSilent (At {W = E.World} d Is Out)
        robust = At-IsRobust d Is Out

    -- `finalize` leads to the status that it writes.
    pub finalize_leads :
        (s : State E.World) → At d Is Out s → At d (λ y. y ≡ x) Out (finalize E x s).1
    unfolding finalize ◌>>=◌
    finalize_leads s h = update_leads E faithful d x Out _ (
        (set_deadline-IsPending d x Out none).at _ (
          set_status_leads d Is Out x admits _
            ((announce-Keeps E (At-IsRobust d Is Out) (λ t r m. tt) x).at s h)))

-- The work of one direction: where it may start, the status while it runs, and its two ends.
module _ (E : Env) (faithful : IsFaithful E.cluster) (d : NodeDeploy) (Can : NodeStatus → Type 0)
    (start good bad : NodeStatus)
    (starts : (y : NodeStatus) → Can y → Edge d.spec.node_status y start) (restarts : Can start)
    (name : String) (work : State E.World → Outcome Bool × State E.World) where
  abbrev Running : State E.World → Type 0
  Running = At d (λ y. y ≡ start) (IsOutcome good bad)

  set_outcome-Running : (x : NodeStatus) → IsOutcome good bad x → Keeps Running (set_outcome x)
  unfolding set_outcome
  set_outcome-Running x o = record {
    at = λ s h. record {
      chain = h.chain;
      current = h.current;
      status_is = h.status_is;
      out = o;
      spec = h.spec;
    };
  }

  choose : (b : Bool) → IsOutcome good bad (if b then good else bad)
  choose true = succeeded
  choose false = failed

  attempt_leads :
      Keeps Running work
      → (s : State E.World) → At d Can (IsOutcome good bad) s
      → Running (attempt E start name good bad work s).1
  unfolding attempt
  attempt_leads kept =
      bind_leads _ _ (prepare_leads E faithful d (IsOutcome good bad) Can start starts) λ _.
        Keeps-bind _ _
          (Keeps-catch _ _ kept
            λ e. Keeps-bind _ _ (set_outcome-Running bad failed) λ _. Keeps-fail _)
          λ success. set_outcome-Running _ (choose success)

  Running-Can : (s : State E.World) → Running s → At d Can (IsOutcome good bad) s
  Running-Can s h = record {
    chain = h.chain;
    current = h.current;
    status_is = rw h.status_is restarts;
    out = h.out;
    spec = h.spec;
  }

  -- After one attempt or more the work has been announced, and the trace follows the diagram.
  attempts_lead :
      (law : IsRetry E.retry)
      → Keeps Running work
      → (n delay : ℕ) (s : State E.World) → At d Can (IsOutcome good bad) s
      → Running (E.retry.do_retry (suc n) delay (attempt E start name good bad work) s).1
  attempts_lead law kept n delay =
      do_retry_rule law delay (attempt E start name good bad work) (At d Can (IsOutcome good bad))
        (λ r. Running r.1) (attempt_leads kept)
        (λ e u h. Running-Can _ ((At-IsRobust d (λ y. y ≡ start) (IsOutcome good bad)).world u _ h))
        (λ x y u h. h) n

  -- The end of `drive`, behind the attempts.
  finish_leads :
      ((x : NodeStatus) → IsOutcome good bad x → Edge d.spec.node_status start x)
      → (s : State E.World) → Running s
      → Follows d ((do status ← gets (λ s. s.outcome); finalize E status; pure done) s).1
  unfolding ◌>>=◌
  finish_leads ends s h =
      bind_seq Running (At d (λ y. y ≡ s.outcome) (IsOutcome good bad)) (Follows d)
        (finalize E s.outcome) (λ _. pure done)
        (finalize_leads E faithful d (IsOutcome good bad) (λ y. y ≡ start) s.outcome
          (λ y e. rw e (ends s.outcome h.out)))
        (λ _ t k. (Keeps-pure {P = Follows d} done).at t (At-Follows d k)) (λ t k. At-Follows d k) s
        h

  -- The attempts and `finalize` follow the diagram, with one attempt or more.
  pub drive-Follows :
      (law : IsRetry E.retry)
      → Keeps Running work
      → ((x : NodeStatus) → IsOutcome good bad x → Edge d.spec.node_status start x)
      → (m : ℤ) (n : ℕ) → to_uint m ≡ suc n
      → (s : State E.World) → At d Can (λ x. Unit) s
      → Follows d (drive E m (attempt E start name good bad work) s).1
  unfolding drive set_outcome
  drive-Follows law kept ends m n attempts s h =
      bind_seq (At d Can (λ x. Unit)) (At d Can (IsOutcome good bad)) (Follows d)
        (set_outcome unknown) _ unset_leads
        (λ _.
          bind_seq (At d Can (IsOutcome good bad)) Running (Follows d) _ _
            (catch_leads (At d Can (IsOutcome good bad)) Running _ _
              (λ t k. rw attempts (attempts_lead law kept n retry_delay t k)) (λ e. Keeps-pure tt))
            (λ _ t k. finish_leads ends t k) (λ t k. At-Follows d k))
        (λ t k. At-Follows d k) s h
    where
      unset_leads :
          (s : State E.World)
          → At d Can (λ x. Unit) s
          → At d Can (IsOutcome good bad) (set_outcome unknown s).1
      unset_leads s h = record {
        chain = h.chain;
        current = h.current;
        status_is = h.status_is;
        out = unset;
        spec = h.spec;
      }
