-- ===== src/Reconcile/Deadlines.antt =====
-- Statuses under way and their deadlines: what the writes of `Reconcile` keep.
pub mod Calls
use nodedeploy_controller.Prelude.{
  ℕ, ◌+◌, ◌*◌, ◌/◌, String, Bool, true, false, List, [], ◌∷◌, ◌≡◌, refl, ◌≢◌, ◌⊎◌, inl, inr, Option,
  none, some, sym, subst, ap, if◌then◌else◌,
}
use nodedeploy_controller.Api.{
  NodeDeploy, NodeStatus, NodeDeployStatus, unknown, init, inactive, active, launching, launch_fail,
  deprecating, deprecate_fail,
}
use nodedeploy_controller.Machine.{
  Outcome, ok, err, panic, Effect, event, write_status, State, pure, catch, gets, set_outcome,
  assign, ◌>>=◌, ◌>>◌,
}
use nodedeploy_controller.Machine.Keeps.{
  Keeps, IsRobust, IsRobust-mono, keeps_rules, Keeps-bind, Keeps-catch, Keeps-if, Keeps-pure,
  Keeps-gets, bind_seq,
}
use nodedeploy_controller.Env.{Env}
use nodedeploy_controller.Env.Laws.{IsFaithful, IsRetry, as_kept, kept_deadline}
use nodedeploy_controller.Node.{get_before_status}
use nodedeploy_controller.Phases.{
  done, now, announce, to_uint, retry_delay, node_info, update_status, set_status, set_deadline,
  prepare, finalize, launch, deprecate,
}
use nodedeploy_controller.Phases.Frames.{
  now-Keeps, announce-Keeps, preflight_check-Keeps, launch-Keeps, deprecate-Keeps,
}
use nodedeploy_controller.Reconcile.{
  reconcile, reconcile_object, init_status, check_deadline, expired, fall_back, deadline_or_crash,
  preflight_and_act, act, reject, attempt, drive, launch_attempt, deprecate_attempt,
}
use nodedeploy_controller.Reconcile.Gates.{IsUnderWay, reconcile-entered}
use nodedeploy_controller.Reconcile.Diagram.{IsSilent}
use nodedeploy_controller.Reconcile.Branches.{IsSilent-launch, IsSilent-deprecation}

abbrev pub HasDeadline : NodeDeployStatus → Type 0
HasDeadline st = (t : ℕ) × (st.deadline ≡ some t)

-- A status under way has a deadline.
abbrev pub IsDated : NodeDeployStatus → Type 0
IsDated st = IsUnderWay st.node_status → HasDeadline st

kept_some : (o : Option ℕ) (t : ℕ) → o ≡ some t → (u : ℕ) × (kept_deadline o ≡ some u)
kept_some none t e = absurd (cc e)
kept_some (some x) t e = (x / 1000000000 * 1000000000, refl)

-- A deadline stays one where the server keeps it.
pub kept-IsDated : (st : NodeDeployStatus) → IsDated st → IsDated (as_kept st)
kept-IsDated st dated under_way = let (t, e) = dated under_way in kept_some st.deadline t e

abbrev IsIdle : NodeDeployStatus → Type 0
IsIdle st = ¬ (IsUnderWay st.node_status)

-- Every status that a trace has sent.
abbrev pub AllSent : (NodeDeployStatus → Type 0) → List Effect → Type 0
AllSent P [] = Unit
AllSent P (write_status st ∷ es) = P st × AllSent P es
AllSent P (_ ∷ es) = AllSent P es

AllSent-silent :
    (P : NodeDeployStatus → Type 0) (e : Effect) (es : List Effect)
    → IsSilent e
    → AllSent P es
    → AllSent P (e ∷ es)
AllSent-silent P (write_status st) es q h = absurd q
AllSent-silent P _ es q h = h

-- Every status sent is dated, the object is as `Is` says, and the variable `status` as `Out` says.
pub record Sent {W : Type 0} (Is : NodeDeployStatus → Type 0) (Out : NodeStatus → Type 0)
    (s : State W) : Type 0 where
  pub object : Is s.object.status
  pub trace : AllSent IsDated s.trace
  pub out : Out s.outcome

abbrev pub Dated : {W : Type 0} → (NodeStatus → Type 0) → State W → Type 0
Dated = Sent IsDated

module _ {W : Type 0} (Is : NodeDeployStatus → Type 0) (Out : NodeStatus → Type 0) where
  Sent-IsRobust : IsRobust IsSilent (Sent {W = W} Is Out)
  Sent-IsRobust = record {
    world = λ s w h. record { object = h.object; trace = h.trace; out = h.out };
    effect = λ s e q h. record {
      object = h.object;
      trace = AllSent-silent _ e s.trace q h.trace;
      out = h.out;
    };
  }

  to_Dated :
      ((st : NodeDeployStatus) → Is st → IsDated st) → (s : State W) → Sent Is Out s → Dated Out s
  to_Dated narrow s h = record {
    object = narrow s.object.status h.object;
    trace = h.trace;
    out = h.out;
  }

module _ {W : Type 0} (Out : NodeStatus → Type 0) where
  -- Assignments to the status.
  timed : (t : ℕ) (s : State W) → Dated Out s → Sent HasDeadline Out (set_deadline (some t) s).1
  unfolding assign
  timed t s h = record { object = (t, refl); trace = h.trace; out = h.out }

  set_status-Timed : (x : NodeStatus) → Keeps (Sent {W = W} HasDeadline Out) (set_status x)
  unfolding assign
  set_status-Timed x = record {
    at = λ s h. record { object = h.object; trace = h.trace; out = h.out };
  }

  idle :
      (x : NodeStatus)
      → ¬ (IsUnderWay x)
      → (s : State W) → Dated Out s
      → Sent IsIdle Out (set_status x s).1
  unfolding assign
  idle x settled s h = record { object = settled; trace = h.trace; out = h.out }

  set_deadline-Idle : (t : Option ℕ) → Keeps (Sent {W = W} IsIdle Out) (set_deadline t)
  unfolding assign
  set_deadline-Idle t = record {
    at = λ s h. record { object = h.object; trace = h.trace; out = h.out };
  }

  pub set_status-Keeps :
      (x : NodeStatus) → ¬ (IsUnderWay x) → Keeps (Dated {W = W} Out) (set_status x)
  set_status-Keeps x settled = record {
    at = λ s h. to_Dated IsIdle Out (λ st i u. absurd (i u)) _ (idle x settled s h);
  }

module _ (E : Env) (faithful : IsFaithful E.cluster) (Out : NodeStatus → Type 0) where
  update_ends :
      (s : State E.World) (o : Outcome NodeDeploy)
      → (E.cluster.update_status s.object s.world).0 ≡ o
      → Dated Out s
      → Dated Out (update_status E s).1
  unfolding update_status ◌>>=◌
  update_ends s (ok d') stored h = rw stored (record {
    object =
        rw (faithful.keeps_status s.object d' s.world stored)
          (kept-IsDated s.object.status h.object);
    trace = (h.object, h.trace);
    out = h.out;
  })
  update_ends s (err e) stored h =
      rw stored (record { object = h.object; trace = (h.object, h.trace); out = h.out })
  update_ends s (panic m) stored h =
      rw stored (record { object = h.object; trace = (h.object, h.trace); out = h.out })

  pub update-Keeps : Keeps (Dated Out) (update_status E)
  update-Keeps = record { at = λ s h. update_ends s _ refl h }

  pub Dated-IsRobust : IsRobust IsSilent (Dated {W = E.World} Out)
  Dated-IsRobust = Sent-IsRobust IsDated Out

  pub prepare-Keeps : (x : NodeStatus) → Keeps (Dated Out) (prepare E x)
  unfolding prepare
  prepare-Keeps x = Keeps-bind _ _ (now-Keeps E Dated-IsRobust (λ t r m. tt)) λ t. record {
    at =
        bind_seq (Dated Out) (Sent HasDeadline Out) (Dated Out) _ _ (timed Out _)
          (λ _.
            bind_seq (Sent HasDeadline Out) (Sent HasDeadline Out) (Dated Out) _ _
              (announce-Keeps E (Sent-IsRobust HasDeadline Out) (λ t r m. tt) x).at
              (λ _.
                bind_seq (Sent HasDeadline Out) (Dated Out) (Dated Out) _ _
                  (λ s h.
                    to_Dated HasDeadline Out (λ st k u. k) _ ((set_status-Timed Out x).at s h))
                  (λ _. update-Keeps.at) (λ s h. h))
              (to_Dated HasDeadline Out (λ st k u. k)))
          (to_Dated HasDeadline Out (λ st k u. k));
  }

  pub finalize-Keeps : (x : NodeStatus) → ¬ (IsUnderWay x) → Keeps (Dated Out) (finalize E x)
  unfolding finalize
  finalize-Keeps x settled = Keeps-bind _ _ (announce-Keeps E Dated-IsRobust (λ t r m. tt) x) λ _.
      record {
        at =
            bind_seq (Dated Out) (Sent IsIdle Out) (Dated Out) _ _ (idle Out x settled)
              (λ _.
                bind_seq (Sent IsIdle Out) (Dated Out) (Dated Out) _ _
                  (λ s h.
                    to_Dated IsIdle Out (λ st i u. absurd (i u)) _
                      ((set_deadline-Idle Out none).at s h))
                  (λ _. update-Keeps.at) (λ s h. h))
              (to_Dated IsIdle Out (λ st i u. absurd (i u)));
      }
