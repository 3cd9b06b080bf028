-- ===== src/Reconcile/Branches.antt =====
-- The first write of a status, and the two directions of the work, follow the diagram.
use nodedeploy_controller.Prelude.{
  ℕ, zero, suc, ◌+◌, ◌-◌, ◌^◌, ◌<◌, ◌≡◌, refl, ◌≢◌, arith, sym, subst,
}
use nodedeploy_controller.Duration.{ℤ, pos, negsuc}
use nodedeploy_controller.Api.{
  NodeDeploy, NodeStatus, unknown, init, inactive, active, launching, launch_fail, deprecating,
  deprecate_fail,
}
use nodedeploy_controller.Machine.{State, Effect, write_status, pure, ◌>>=◌, ◌>>◌}
use nodedeploy_controller.Machine.Keeps.{IsRobust, IsRobust-mono, Keeps-pure, bind_seq}
use nodedeploy_controller.Env.{Env}
use nodedeploy_controller.Env.Laws.{IsFaithful, IsRetry}
use nodedeploy_controller.Phases.{
  done, to_uint, node_info, update_status, set_status, launch, deprecate,
}
use nodedeploy_controller.Phases.Frames.{IsLaunch, IsDeprecation, launch-Keeps, deprecate-Keeps}
use nodedeploy_controller.Reconcile.{init_status, launch_attempt, deprecate_attempt, drive}
use nodedeploy_controller.Reconcile.Diagram.{
  Edge, enrol, start_launch, start_deprecate, launched, launch_failed, deprecated, deprecate_failed,
  launch_lost, deprecate_lost, CanLaunch, launch_again, CanDeprecate, deprecate_again, IsSilent,
}
use nodedeploy_controller.Reconcile.Diagram.Writes.{At, Follows, At-Follows, At-IsRobust}
use nodedeploy_controller.Reconcile.Diagram.Work.{
  IsOutcome, unset, succeeded, failed, drive-Follows, set_and_update,
}

-- An int32.
abbrev pub IsInt32 : ℤ → Type 0
IsInt32 (pos n) = n < 2 ^ 31
IsInt32 (negsuc n) = n < 2 ^ 31

pub to_uint_pos : (m : ℤ) → IsInt32 m → m ≢ pos 0 → (n : ℕ) × (to_uint m ≡ suc n)
unfolding to_uint
to_uint_pos (pos zero) h nonzero = absurd (nonzero refl)
to_uint_pos (pos (suc n)) h nonzero = (n, refl)
to_uint_pos (negsuc n) h nonzero = (2 ^ 64 - (n + 1) - 1, omega arith)

pub IsSilent-launch : (e : Effect) → IsLaunch e → IsSilent e
IsSilent-launch (write_status st) q = q
IsSilent-launch _ q = tt

pub IsSilent-deprecation : (e : Effect) → IsDeprecation e → IsSilent e
IsSilent-deprecation (write_status st) q = q
IsSilent-deprecation _ q = tt

module _ (E : Env) (faithful : IsFaithful E.cluster) (law : IsRetry E.retry) (d : NodeDeploy) where
  -- The object as it was read, or with what an unsuccessful check has left of it.
  abbrev pub Read : State E.World → Type 0
  Read = At d (λ y. y ≡ d.status.node_status) (λ x. Unit)

  pub write-Follows :
      (x : NodeStatus)
      → Edge d.spec.node_status d.status.node_status x
      → (s : State E.World) → Read s
      → Follows d ((set_status x >> update_status E) s).1
  write-Follows x edge s h = At-Follows d (
      set_and_update E faithful d (λ x. Unit) (λ y. y ≡ d.status.node_status) x (λ y e. rw e edge) s
        h)

  pub Read-IsRobust : IsRobust IsSilent Read
  Read-IsRobust = At-IsRobust d (λ y. y ≡ d.status.node_status) (λ x. Unit)

  pub Follows-IsRobust : IsRobust IsSilent (Follows {W = E.World} d)
  Follows-IsRobust = At-IsRobust d (λ x. Unit) (λ x. Unit)

  pub init-Follows :
      d.status.node_status ≡ unknown → (s : State E.World) → Read s → Follows d (init_status E s).1
  unfolding init_status ◌>>=◌
  init-Follows e s h =
      bind_seq Read (Follows d) (Follows d) (set_status init >> update_status E) (λ _. pure done)
        (write-Follows init (rw e enrol)) (λ _. (Keeps-pure {P = Follows d} done).at) (λ t k. k) _
        (Read-IsRobust.effect s _ tt h)

  launch_ends :
      d.spec.node_status ≡ active
      → (x : NodeStatus) → IsOutcome active launch_fail x
      → Edge d.spec.node_status launching x
  launch_ends g x unset = rw g launch_lost
  launch_ends g x succeeded = rw g launched
  launch_ends g x failed = rw g launch_failed

  deprecate_ends :
      d.spec.node_status ≡ inactive
      → (x : NodeStatus) → IsOutcome inactive deprecate_fail x
      → Edge d.spec.node_status deprecating x
  deprecate_ends g x unset = rw g deprecate_lost
  deprecate_ends g x succeeded = rw g deprecated
  deprecate_ends g x failed = rw g deprecate_failed

  from_Read :
      {Can : NodeStatus → Type 0}
      → Can d.status.node_status
      → {s : State E.World} → Read s
      → At d Can (λ x. Unit) s
  from_Read {Can} can h = record {
    chain = h.chain;
    current = h.current;
    status_is = subst Can (sym h.status_is) can;
    out = tt;
    spec = h.spec;
  }

  module _ (n : ℕ) (attempts : to_uint d.spec.max_retry ≡ suc n) where
    pub launch-Follows :
        d.spec.node_status ≡ active
        → CanLaunch d.status.node_status
        → (s : State E.World) → Read s
        → Follows d (drive E d.spec.max_retry (launch_attempt E (node_info d)) s).1
    unfolding launch_attempt
    launch-Follows g can s h =
        drive-Follows E faithful d CanLaunch launching active launch_fail
          (λ y c. rw g (start_launch c)) launch_again "LaunchNode" (launch E (node_info d)) law
          (launch-Keeps E law
            (IsRobust-mono IsSilent-launch
              (At-IsRobust d (λ y. y ≡ launching) (IsOutcome active launch_fail)))
            (node_info d))
          (launch_ends g) d.spec.max_retry n attempts s (from_Read can h)

    pub deprecate-Follows :
        d.spec.node_status ≡ inactive
        → CanDeprecate d.status.node_status
        → (s : State E.World) → Read s
        → Follows d (drive E d.spec.max_retry (deprecate_attempt E (node_info d)) s).1
    unfolding deprecate_attempt
    deprecate-Follows g can s h =
        drive-Follows E faithful d CanDeprecate deprecating inactive deprecate_fail
          (λ y c. rw g (start_deprecate c)) deprecate_again "DeprecateNode"
          (deprecate E (node_info d)) law
          (deprecate-Keeps E
            (IsRobust-mono IsSilent-deprecation
              (At-IsRobust d (λ y. y ≡ deprecating) (IsOutcome inactive deprecate_fail)))
            (node_info d))
          (deprecate_ends g) d.spec.max_retry n attempts s (from_Read can h)
