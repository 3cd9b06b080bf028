-- ===== src/Reconcile/Deadlines/Calls.antt =====
-- No call of `Reconcile` sends a status under way without a deadline.
use nodedeploy_controller.Prelude.{
  ℕ, String, Bool, true, false, [], ◌≡◌, Option, none, some, arith, if◌then◌else◌,
}
use nodedeploy_controller.Api.{
  NodeDeploy, NodeStatus, unknown, init, inactive, active, launching, launch_fail, deprecating,
  deprecate_fail, same_status, warning, invalid_status,
}
use nodedeploy_controller.Machine.{
  Outcome, ok, event, State, pure, emit, gets, set_outcome, ◌>>=◌, ◌>>◌,
}
use nodedeploy_controller.Machine.Keeps.{
  Keeps, IsRobust, IsRobust-mono, keeps_rules, Keeps-bind, Keeps-catch, Keeps-if, Keeps-pure,
  Keeps-gets, Keeps-emit, Keeps-fail, bind_seq,
}
use nodedeploy_controller.Env.{Env}
use nodedeploy_controller.Env.Laws.{IsFaithful, IsRetry}
use nodedeploy_controller.Node.{get_before_status}
use nodedeploy_controller.Phases.{done, to_uint, retry_delay, node_info, finalize}
use nodedeploy_controller.Phases.Frames.{
  now-Keeps, preflight_check-Keeps, launch-Keeps, deprecate-Keeps,
}
use nodedeploy_controller.Reconcile.{
  reconcile, reconcile_object, init_status, check_deadline, expired, fall_back, deadline_or_crash,
  preflight_and_act, act, reject, attempt, drive, launch_attempt, deprecate_attempt,
}
use nodedeploy_controller.Reconcile.Gates.{IsUnderWay, reconcile-entered}
use nodedeploy_controller.Reconcile.Diagram.{IsSilent}
use nodedeploy_controller.Reconcile.Branches.{IsSilent-launch, IsSilent-deprecation}
use nodedeploy_controller.Reconcile.Deadlines.{
  IsDated, AllSent, Dated, set_status-Keeps, update-Keeps, Dated-IsRobust, prepare-Keeps,
  finalize-Keeps,
}

before_settled : (x : NodeStatus) → ¬ (IsUnderWay (get_before_status x))
unfolding get_before_status
before_settled x = ground arith

abbrev Free : NodeStatus → Type 0
Free x = Unit

abbrev Settled : NodeStatus → Type 0
Settled x = ¬ (IsUnderWay x)

module _ {W : Type 0} where
  set_outcome-Keeps : (x : NodeStatus) → Settled x → Keeps (Dated {W = W} Settled) (set_outcome x)
  unfolding set_outcome
  set_outcome-Keeps x settled = record {
    at = λ s h. record { object = h.object; trace = h.trace; out = settled };
  }

  forget : (s : State W) → Dated Settled s → Dated Free s
  forget s h = record { object = h.object; trace = h.trace; out = tt }

module _ (E : Env) (faithful : IsFaithful E.cluster) where
  attempt-Keeps :
      (start : NodeStatus) (name : String) (good bad : NodeStatus)
      (work : State E.World → Outcome Bool × State E.World)
      → Settled good
      → Settled bad
      → Keeps (Dated Settled) work
      → Keeps (Dated Settled) (attempt E start name good bad work)
  unfolding attempt
  attempt-Keeps start name good bad work g b k =
      Keeps-bind _ _ (prepare-Keeps E faithful Settled start) λ _.
        Keeps-bind _ _
          (Keeps-catch _ _ k λ e. Keeps-bind _ _ (set_outcome-Keeps bad b) λ _. search keeps_rules)
          (chosen g b)
    where
      chosen :
          {g b : NodeStatus}
          → Settled g
          → Settled b
          → (x : Bool) → Keeps (Dated {W = E.World} Settled) (set_outcome (if x then g else b))
      chosen h i true = set_outcome-Keeps _ h
      chosen h i false = set_outcome-Keeps _ i

  finish-Keeps :
      (s : State E.World)
      → Dated Settled s
      → Dated Free ((do status ← gets (λ s. s.outcome); finalize E status; pure done) s).1
  unfolding ◌>>=◌
  finish-Keeps s h = forget _ (
      (Keeps-bind _ _ (finalize-Keeps E faithful Settled s.outcome h.out) (λ _. Keeps-pure done)).at
        s h)

  drive-Keeps :
      (law : IsRetry E.retry) (m : _) (body : State E.World → Outcome Unit × State E.World)
      → Keeps (Dated Settled) body
      → Keeps (Dated Free) (drive E m body)
  unfolding drive set_outcome
  drive-Keeps law m body k = record {
    at =
        bind_seq (Dated Free) (Dated Settled) (Dated Free) (set_outcome unknown) _
          (λ s h. record { object = h.object; trace = h.trace; out = λ u. ground arith })
          (λ _.
            bind_seq (Dated Settled) (Dated Settled) (Dated Free) _ _
              (Keeps-catch _ _
                (record {
                  at =
                      law.only_calls (Dated Settled) body (Dated-IsRobust E faithful Settled).world
                        k.at (to_uint m) retry_delay;
                })
                (λ e. Keeps-pure tt)).at
              (λ _. finish-Keeps) forget)
          forget;
  }

  robust : (Out : NodeStatus → Type 0) → IsRobust IsSilent (Dated {W = E.World} Out)
  robust Out = Dated-IsRobust E faithful Out

  init_status-Keeps : Keeps (Dated Free) (init_status E)
  unfolding init_status
  init_status-Keeps = Keeps-bind _ _ (Keeps-emit (robust Free) _ tt) λ _.
      Keeps-bind _ _ (set_status-Keeps Free init (λ u. ground arith))
        λ _. Keeps-bind _ _ (update-Keeps E faithful Free) λ _. Keeps-pure done

  reject-Keeps : (d : NodeDeploy) → Keeps (Dated Free) (reject E d)
  unfolding reject
  reject-Keeps d =
      Keeps-bind _ _
        (Keeps-if _ _ _ (set_status-Keeps Free deprecate_fail (λ u. ground arith))
          (Keeps-if _ _ _ (set_status-Keeps Free launch_fail (λ u. ground arith)) (Keeps-pure tt)))
        λ _. Keeps-bind _ _ (update-Keeps E faithful Free) λ _. Keeps-pure done

  deadline-Keeps : (o : Option ℕ) → Keeps (Dated Free) (deadline_or_crash E o)
  unfolding deadline_or_crash
  deadline-Keeps none = search keeps_rules
  deadline-Keeps (some t) = search keeps_rules

  expired-Keeps : (o : Option ℕ) → Keeps (Dated Free) (expired E o)
  unfolding expired
  expired-Keeps none = search keeps_rules
  expired-Keeps (some t) = search (keeps_rules, now-Keeps E (robust Free) (λ t r m. tt))

  fall_back-Keeps : Keeps (Dated Free) (fall_back E)
  unfolding fall_back
  fall_back-Keeps = Keeps-bind _ _ (Keeps-gets _) λ d.
      Keeps-bind _ _ (Keeps-emit (robust Free) _ tt) λ _.
        Keeps-bind _ _ (set_status-Keeps Free _ (before_settled d.status.node_status)) λ _.
          Keeps-bind _ _ (update-Keeps E faithful Free) λ _. Keeps-bind _ _ (Keeps-gets _) λ d'.
            Keeps-bind _ _ (deadline-Keeps d'.status.deadline)
              λ t. Keeps-bind _ _ (now-Keeps E (robust Free) (λ t r m. tt)) λ n. Keeps-pure _

  check_deadline-Keeps : Keeps (Dated Free) (check_deadline E)
  unfolding check_deadline
  check_deadline-Keeps = search (keeps_rules, expired-Keeps, fall_back-Keeps) depth 8

  module _ (law : IsRetry E.retry) where
    launch-Dated :
        (d : NodeDeploy)
        → Keeps (Dated Free) (drive E d.spec.max_retry (launch_attempt E (node_info d)))
    unfolding launch_attempt
    launch-Dated d = drive-Keeps law _ _ (
        attempt-Keeps launching "LaunchNode" active launch_fail _ (λ u. ground arith)
          (λ u. ground arith)
          (launch-Keeps E law (IsRobust-mono IsSilent-launch (robust Settled)) (node_info d)))

    deprecate-Dated :
        (d : NodeDeploy)
        → Keeps (Dated Free) (drive E d.spec.max_retry (deprecate_attempt E (node_info d)))
    unfolding deprecate_attempt
    deprecate-Dated d = drive-Keeps law _ _ (
        attempt-Keeps deprecating "DeprecateNode" inactive deprecate_fail _ (λ u. ground arith)
          (λ u. ground arith)
          (deprecate-Keeps E (IsRobust-mono IsSilent-deprecation (robust Settled)) (node_info d)))

    act-Keeps : (d : NodeDeploy) → Keeps (Dated Free) (act E d)
    unfolding act
    act-Keeps d = Keeps-if (same_status d.spec.node_status active) _ _ (launch-Dated d) (
        Keeps-if (same_status d.spec.node_status inactive) _ _
          (Keeps-if (same_status d.status.node_status init) _ _ ignored (deprecate-Dated d))
          (Keeps-pure done))
      where
        ignored :
            Keeps
              (Dated {W = E.World} Free)
              (emit (event warning invalid_status "ignore init to inactive") >> pure done)
        ignored = Keeps-bind _ _ (Keeps-emit (robust Free) _ tt) λ _. Keeps-pure done

    preflight_and_act-Keeps : (d : NodeDeploy) → Keeps (Dated Free) (preflight_and_act E d)
    unfolding preflight_and_act
    preflight_and_act-Keeps d =
        Keeps-bind _ _
          (Keeps-catch _ _ (preflight_check-Keeps E (robust Free) (λ t r m. tt) (node_info d))
            λ e. Keeps-bind _ _ (Keeps-emit (robust Free) _ tt) λ _. Keeps-fail e)
          λ success. Keeps-if success _ _ (act-Keeps d) (reject-Keeps d)

    reconcile_object-Keeps : (d : NodeDeploy) → Keeps (Dated Free) (reconcile_object E d)
    unfolding reconcile_object
    reconcile_object-Keeps d =
        search (keeps_rules, init_status-Keeps, check_deadline-Keeps, preflight_and_act-Keeps) depth
          12

    -- Where the object read has a deadline if its status is under way, so has every status that the call
    -- sends, for every outcome of every other call.
    pub reconcile_dates :
        (key : String) (s : State E.World) (d : NodeDeploy) (w : E.World)
        → s.trace ≡ []
        → E.cluster.get_node_deploy key s.world ≡ (ok d, w)
        → IsDated d.status
        → AllSent IsDated (reconcile E key s).1.trace
    reconcile_dates key s d w fresh got dated = rw (reconcile-entered E key s d w got) (
        ((reconcile_object-Keeps d).at _
          (record { object = dated; trace = rw fresh tt; out = tt })).trace)
