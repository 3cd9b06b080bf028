-- ===== src/Reconcile/Diagram.antt =====
-- The life cycle of a NodeDeploy: the edges along which `Reconcile` may move a status, and the
-- statuses that a trace has written.
pub mod Writes
pub mod Work
pub mod Ready
use nodedeploy_controller.Prelude.{String, List, [], ◌∷◌, ◌≡◌, refl, ◌⊎◌, arith}
use nodedeploy_controller.Api.{
  NodeStatus, NodeDeployStatus, unknown, init, inactive, active, launching, launch_fail,
  deprecating, deprecate_fail,
}
use nodedeploy_controller.Machine.{
  Effect, event, write_status, update_node, delete_node, cordon_node, evict_pods, dial, exec,
  upload, write_secret,
}

-- The statuses from which a launch starts; a further attempt starts from `launching`.
pub data CanLaunch : NodeStatus → Type 0 where
  from_init : CanLaunch init
  from_inactive : CanLaunch inactive
  from_deprecate_fail : CanLaunch deprecate_fail
  launch_again : CanLaunch launching

-- The statuses from which a removal starts.
pub data CanDeprecate : NodeStatus → Type 0 where
  from_active : CanDeprecate active
  from_launch_fail : CanDeprecate launch_fail
  deprecate_again : CanDeprecate deprecating

-- The edges, for the status that the spec wants.
pub data Edge : NodeStatus → NodeStatus → NodeStatus → Type 0 where
  enrol : {g : NodeStatus} → Edge g unknown init
  launch_timeout : {g : NodeStatus} → Edge g launching inactive
  deprecate_timeout : {g : NodeStatus} → Edge g deprecating active
  start_launch : {x : NodeStatus} → CanLaunch x → Edge active x launching
  start_deprecate : {x : NodeStatus} → CanDeprecate x → Edge inactive x deprecating
  launched : Edge active launching active
  launch_failed : Edge active launching launch_fail
  deprecated : Edge inactive deprecating inactive
  deprecate_failed : Edge inactive deprecating deprecate_fail
  -- No attempt of the work was prepared, so that `finalize` writes the zero value.
  launch_lost : Edge active launching unknown
  deprecate_lost : Edge inactive deprecating unknown
  -- `preflight` refuses.
  refuse_inactive : Edge active inactive deprecate_fail
  refuse_init_launch : Edge active init launch_fail
  refuse_launch : Edge active deprecate_fail launch_fail
  refuse_init_deprecate : Edge inactive init init
  refuse_active : Edge inactive active active
  refuse_launch_fail : Edge inactive launch_fail launch_fail

-- The statuses written, the newest first.
abbrev pub writes : List Effect → List NodeStatus
writes [] = []
writes (write_status st ∷ es) = st.node_status ∷ writes es
writes (_ ∷ es) = writes es

abbrev pub latest : NodeStatus → List NodeStatus → NodeStatus
latest x [] = x
latest x (y ∷ _) = y

-- Every status follows from the one before it, and the first from `x`.
abbrev pub Chain : NodeStatus → NodeStatus → List NodeStatus → Type 0
Chain g x [] = Unit
Chain g x (y ∷ ys) = Edge g (latest x ys) y × Chain g x ys

abbrev pub IsSilent : Effect → Type 0
IsSilent (write_status st) = ⊥
IsSilent _ = Unit

pub writes-silent : (e : Effect) (es : List Effect) → IsSilent e → writes (e ∷ es) ≡ writes es
writes-silent (write_status st) es q = elim q [ ]
writes-silent _ es q = refl
