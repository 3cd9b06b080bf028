-- ===== src/Reconcile.antt =====
-- controllers/nodedeploy_controller.go: `Reconcile`.
pub mod Gates
pub mod Requeue
pub mod Restart
pub mod Diagram
pub mod Branches
pub mod Lifecycle
pub mod Outcomes
pub mod Endings
pub mod Deadlines
pub mod Success
pub mod Installed
pub mod History
use nodedeploy_controller.Prelude.{
  ℕ, String, ◌<>◌, Bool, true, false, ◌&&◌, ◌||◌, Option, none, some, ltb, if◌then◌else◌,
}
use nodedeploy_controller.Duration.{ℤ, sub_ℕ}
use nodedeploy_controller.Api.{
  NodeDeploy, NodeInfo, NodeStatus, unknown, init, inactive, active, launching, launch_fail,
  deprecating, deprecate_fail, same_status, status_string, normal, warning, change_status,
  invalid_status, preflight,
}
use nodedeploy_controller.Machine.{
  Cause, not_found, already_exists, conflict, other, Error, Outcome, State, ok, err, panic, errorf,
  event, pure, fail, crash, gets, call, catch, emit, assign, set_outcome, ◌>>=◌, ◌>>◌,
}
use nodedeploy_controller.Env.{Env}
use nodedeploy_controller.Node.{get_before_status}
use nodedeploy_controller.Phases.{
  Result, done, to_uint, retry_delay, node_info, now, update_status, set_status, prepare, finalize,
  preflight_check, launch, deprecate,
}

-- What `Get` found; a missing object is no error (`client.IgnoreNotFound`).
unfoldable pub ignore_not_found : Outcome NodeDeploy → Outcome (Option NodeDeploy)
ignore_not_found (ok d) = ok (some d)
ignore_not_found (err e) = elim e.cause [ not_found ↦ ok none | _ ↦ err e ]
ignore_not_found (panic m) = panic m

abbrev pub is_intermediate : NodeStatus → Bool
is_intermediate x = same_status x launching || same_status x deprecating

module _ (E : Env) where
  -- The first call for an object sets its status.
  unfoldable pub init_status : State E.World → Outcome Result × State E.World
  init_status = do
    emit (event normal change_status "init status")
    set_status init
    update_status E
    pure done

  -- `nodeDeploy.Status.Deadline` where it is not nil.
  unfoldable pub deadline_or_crash : Option ℕ → State E.World → Outcome ℕ × State E.World
  deadline_or_crash (some t) = pure t
  deadline_or_crash none = crash "nil pointer dereference"

  -- The deadline has passed: the status falls back.
  unfoldable pub fall_back : State E.World → Outcome Result × State E.World
  unfolding deadline_or_crash
  fall_back = do
    d ← gets (λ s. s.object)
    let before = get_before_status d.status.node_status
    emit (
        event warning change_status (
          "exec timeout, fallback: "
          <> status_string d.status.node_status
          <> " -> "
          <> status_string before))
    set_status before
    update_status E
    d' ← gets (λ s. s.object)
    t ← deadline_or_crash d'.status.deadline
    n ← now E
    pure (record { requeue_after = sub_ℕ t n })

  -- Whether the deadline is set and lies before now; the clock is read only if it is set.
  unfoldable pub expired : Option ℕ → State E.World → Outcome Bool × State E.World
  expired none = pure false
  expired (some t) = do n ← now E; pure (ltb t n)

  -- Another call is at work on the object, unless it has run out of time.
  unfoldable pub check_deadline : State E.World → Outcome Result × State E.World
  unfolding expired fall_back
  check_deadline = do
    d ← gets (λ s. s.object)
    late ← expired d.status.deadline
    if late then fall_back else pure done

  -- Where `preflight` refuses.
  unfoldable pub reject : NodeDeploy → State E.World → Outcome Result × State E.World
  reject d = do
    (if same_status d.status.node_status inactive
        then set_status deprecate_fail
        else if same_status d.spec.node_status active
        then set_status launch_fail
        else pure tt)
    update_status E
    pure done

  -- One attempt of `retry.Do`: the status to start with, the work, the name in its error message, and
  -- the values of `status` where the work succeeds and where it does not.
  unfoldable pub attempt :
      NodeStatus
      → String
      → NodeStatus
      → NodeStatus
      → (State E.World → Outcome Bool × State E.World)
      → State E.World
      → Outcome Unit × State E.World
  attempt start name good bad work = do
    prepare E start
    success ←
        catch work λ e. do set_outcome bad; fail (errorf (name <> " failed,err:" <> e.message))
    set_outcome (if success then good else bad)

  -- Attempts and `finalize`. The error of `retry.Do` is only logged.
  unfoldable pub drive :
      ℤ
      → (State E.World → Outcome Unit × State E.World)
      → State E.World
      → Outcome Result × State E.World
  drive max_retry body = do
    set_outcome unknown
    catch (E.retry.do_retry (to_uint max_retry) retry_delay body) λ _. pure tt
    status ← gets (λ s. s.outcome)
    finalize E status
    pure done

  unfoldable pub launch_attempt : NodeInfo → State E.World → Outcome Unit × State E.World
  unfolding attempt
  launch_attempt info = attempt launching "LaunchNode" active launch_fail (launch E info)

  unfoldable pub deprecate_attempt : NodeInfo → State E.World → Outcome Unit × State E.World
  unfolding attempt
  deprecate_attempt info =
      attempt deprecating "DeprecateNode" inactive deprecate_fail (deprecate E info)

  -- Behind `preflight`.
  unfoldable pub act : NodeDeploy → State E.World → Outcome Result × State E.World
  unfolding drive
  act d =
      if same_status d.spec.node_status active
      then drive d.spec.max_retry (launch_attempt (node_info d))
      else if same_status d.spec.node_status inactive
      then if same_status d.status.node_status init
        then emit (event warning invalid_status "ignore init to inactive") >> pure done
        else drive d.spec.max_retry (deprecate_attempt (node_info d))
      else pure done

  unfoldable pub preflight_and_act : NodeDeploy → State E.World → Outcome Result × State E.World
  unfolding act reject
  preflight_and_act d = do
    success ←
        catch (preflight_check E (node_info d))
          λ e. do emit (event warning preflight ("Preflight err:" <> e.message)); fail e
    if success then act d else reject d

  -- The guards of `Reconcile`, in their order.
  unfoldable pub reconcile_object : NodeDeploy → State E.World → Outcome Result × State E.World
  unfolding init_status check_deadline preflight_and_act
  reconcile_object d =
      if same_status d.status.node_status unknown
      then init_status
      else if same_status d.spec.node_status d.status.node_status
      then pure done
      else if is_intermediate d.status.node_status
      then check_deadline
      else if same_status d.spec.node_status active && same_status d.status.node_status launch_fail
      then pure done
      else if same_status d.spec.node_status inactive
          && same_status d.status.node_status deprecate_fail
      then pure done
      else preflight_and_act d

  reconcile_found : Option NodeDeploy → State E.World → Outcome Result × State E.World
  unfolding reconcile_object
  reconcile_found none = pure done
  reconcile_found (some d) = assign (λ _. d) >> reconcile_object d

  -- `Reconcile`, for the object with the given key
  unfoldable pub reconcile : String → State E.World → Outcome Result × State E.World
  unfolding reconcile_found
  reconcile key = do
    found ← call (λ w. let (r, w') = E.cluster.get_node_deploy key w in (ignore_not_found r, w'))
    reconcile_found found
