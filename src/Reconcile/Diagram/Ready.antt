-- ===== src/Reconcile/Diagram/Ready.antt =====
-- The statuses with which `Reconcile` comes to `preflight`, and the edges from there.
use nodedeploy_controller.Prelude.{◌≡◌, refl, ◌≢◌, ◌⊎◌, inl, inr, ◌∙◌}
use nodedeploy_controller.Api.{
  NodeStatus, unknown, init, inactive, active, launching, launch_fail, deprecating, deprecate_fail,
}
use nodedeploy_controller.Node.{get_before_status}
use nodedeploy_controller.Reconcile.Gates.{IsUnderWay}
use nodedeploy_controller.Reconcile.Diagram.{
  Edge, launch_timeout, deprecate_timeout, refuse_inactive, refuse_init_launch, refuse_launch,
  refuse_init_deprecate, refuse_active, refuse_launch_fail, CanLaunch, from_init, from_inactive,
  from_deprecate_fail, CanDeprecate, from_active, from_launch_fail,
}

-- The schema admits two statuses in a spec.
abbrev pub IsTarget : NodeStatus → Type 0
IsTarget x = (x ≡ active) ⊎ (x ≡ inactive)

-- Where `preflight` is reached with `active` wanted.
pub data LaunchFrom : NodeStatus → Type 0 where
  init_up : LaunchFrom init
  inactive_up : LaunchFrom inactive
  deprecate_fail_up : LaunchFrom deprecate_fail

-- Where `preflight` is reached with `inactive` wanted.
pub data DeprecateFrom : NodeStatus → Type 0 where
  init_down : DeprecateFrom init
  active_down : DeprecateFrom active
  launch_fail_down : DeprecateFrom launch_fail

can_launch : {x : NodeStatus} → LaunchFrom x → CanLaunch x
can_launch init_up = from_init
can_launch inactive_up = from_inactive
can_launch deprecate_fail_up = from_deprecate_fail

can_deprecate : {x : NodeStatus} → DeprecateFrom x → x ≢ init → CanDeprecate x
can_deprecate init_down h = absurd (h refl)
can_deprecate active_down h = from_active
can_deprecate launch_fail_down h = from_launch_fail

left_up :
    (x : NodeStatus) → x ≢ unknown → active ≢ x → ¬ (IsUnderWay x) → x ≢ launch_fail → LaunchFrom x
left_up unknown a b c e = absurd (a refl)
left_up init a b c e = init_up
left_up inactive a b c e = inactive_up
left_up active a b c e = absurd (b refl)
left_up launching a b c e = absurd (c (inl refl))
left_up launch_fail a b c e = absurd (e refl)
left_up deprecating a b c e = absurd (c (inr refl))
left_up deprecate_fail a b c e = deprecate_fail_up

left_down :
    (x : NodeStatus)
    → x ≢ unknown
    → inactive ≢ x
    → ¬ (IsUnderWay x)
    → x ≢ deprecate_fail
    → DeprecateFrom x
left_down unknown a b c e = absurd (a refl)
left_down init a b c e = init_down
left_down inactive a b c e = absurd (b refl)
left_down active a b c e = active_down
left_down launching a b c e = absurd (c (inl refl))
left_down launch_fail a b c e = launch_fail_down
left_down deprecating a b c e = absurd (c (inr refl))
left_down deprecate_fail a b c e = absurd (e refl)

-- The status wanted and the status of an object that comes to `preflight`.
pub data Ready : NodeStatus → NodeStatus → Type 0 where
  up : {x : NodeStatus} → LaunchFrom x → Ready active x
  down : {x : NodeStatus} → DeprecateFrom x → Ready inactive x

not_inactive : {x : NodeStatus} → DeprecateFrom x → x ≢ inactive
not_inactive init_down e = cc
not_inactive active_down e = cc
not_inactive launch_fail_down e = cc

pub inactive-Edge : {g x : NodeStatus} → Ready g x → x ≡ inactive → Edge g x deprecate_fail
inactive-Edge (up from) e = rw e refuse_inactive
inactive-Edge (down from) e = absurd (not_inactive from e)

up-Edge : {x : NodeStatus} → LaunchFrom x → x ≢ inactive → Edge active x launch_fail
up-Edge init_up ne = refuse_init_launch
up-Edge inactive_up ne = absurd (ne refl)
up-Edge deprecate_fail_up ne = refuse_launch

pub launch-Edge : {g x : NodeStatus} → Ready g x → g ≡ active → x ≢ inactive → Edge g x launch_fail
launch-Edge (up from) e ne = up-Edge from ne
launch-Edge (down from) e ne = absurd (cc e)

down-Edge : {x : NodeStatus} → DeprecateFrom x → Edge inactive x x
down-Edge init_down = refuse_init_deprecate
down-Edge active_down = refuse_active
down-Edge launch_fail_down = refuse_launch_fail

pub stay-Edge : {g x : NodeStatus} → Ready g x → g ≢ active → Edge g x x
stay-Edge (up from) ne = absurd (ne refl)
stay-Edge (down from) ne = down-Edge from

pub fall-Edge : {g x : NodeStatus} → IsUnderWay x → Edge g x (get_before_status x)
unfolding get_before_status
fall-Edge (inl e) = rw e launch_timeout
fall-Edge (inr e) = rw e deprecate_timeout

pub Ready-CanLaunch : {g x : NodeStatus} → Ready g x → g ≡ active → CanLaunch x
Ready-CanLaunch (up from) e = can_launch from
Ready-CanLaunch (down from) e = absurd (cc e)

pub Ready-CanDeprecate : {g x : NodeStatus} → Ready g x → g ≡ inactive → x ≢ init → CanDeprecate x
Ready-CanDeprecate (up from) e ne = absurd (cc e)
Ready-CanDeprecate (down from) e ne = can_deprecate from ne

-- What the guards before `preflight` leave.
pub left-Ready :
    {g x : NodeStatus}
    → IsTarget g
    → x ≢ unknown
    → g ≢ x
    → ¬ (IsUnderWay x)
    → ((g ≡ active) → x ≢ launch_fail)
    → ((g ≡ inactive) → x ≢ deprecate_fail)
    → Ready g x
left-Ready {g} {x} (inl e) a b c f h = rw e (up (left_up x a (λ p. b (e ∙ p)) c (f e)))
left-Ready {g} {x} (inr e) a b c f h = rw e (down (left_down x a (λ p. b (e ∙ p)) c (h e)))
