-- ===== src/Api.antt =====
-- api/v1/nodedeploy_types.go and pkg/types: the custom resource, the node information that the
-- controller takes from it, and the parts of a Kubernetes node that the controller reads and writes.
use nodedeploy_controller.Prelude.{ℕ, String, Bool, true, false, List, Option, ite}
use nodedeploy_controller.Duration.{ℤ}

-- The values of the string type `NodeStatus` that the controller writes and compares with; `unknown`
-- is the empty string. The schema admits `inactive` and `active` in a spec.
pub data NodeStatus : Type 0 where
  unknown init inactive active launching launch_fail deprecating deprecate_fail : NodeStatus

unfoldable pub NodeStatus-discrete : Discrete NodeStatus
NodeStatus-discrete = hlevel

-- `==` on statuses
abbrev pub same_status : NodeStatus → NodeStatus → Bool
same_status a b = ite (NodeStatus-discrete a b) true false

-- `NodeStatus.String`
unfoldable pub status_string : NodeStatus → String
status_string unknown = "unknown"
status_string init = "init"
status_string inactive = "inactive"
status_string active = "active"
status_string launching = "launching"
status_string launch_fail = "launchFail"
status_string deprecating = "deprecating"
status_string deprecate_fail = "deprecateFail"

-- A `NodeType` is any string: the schema does not restrict it.
abbrev pub node_work : String
node_work = "work"

abbrev pub node_kubeedge : String
node_kubeedge = "kubeedge"

-- A Go map from strings to strings that is read in order of its entries.
abbrev pub StringMap : Type 0
StringMap = List (String × String)

-- `corev1.Taint`
pub record Taint : Type 0 where
  pub key : String
  pub value : String
  pub effect : String

pub record NodeDeploySpec : Type 0 where
  pub node_name : String
  pub node_ip : String
  pub node_type : String
  pub node_port : String
  pub node_user : String
  pub node_pwd : String
  pub harbor_endpoint : String
  pub harbor_user : String
  pub harbor_pwd : String
  pub labels : StringMap
  pub annotations : StringMap
  pub taints : List Taint
  pub node_version : String
  pub is_evicted : Bool
  pub node_status : NodeStatus
  pub max_retry : ℤ  -- int32

-- The deadline is an instant, or nil.
pub record NodeDeployStatus : Type 0 where
  pub node_status : NodeStatus
  pub deadline : Option ℕ

-- Of the metadata the controller reads the name and the namespace.
pub record NodeDeploy : Type 0 where
  pub name : String
  pub namespace : String
  pub spec : NodeDeploySpec
  pub status : NodeDeployStatus

-- pkg/types/nodeinfo.go
pub record NodeInfo : Type 0 where
  pub node_name : String
  pub node_ip : String
  pub node_type : String
  pub node_port : String
  pub node_user : String
  pub node_pwd : String
  pub harbor_endpoint : String
  pub harbor_user : String
  pub harbor_pwd : String

-- `corev1.NodeCondition`: its type and its status
pub record NodeCondition : Type 0 where
  pub type_name : String
  pub status : String

-- `corev1.Node`. The annotations are `none` where the map is nil.
pub record Node : Type 0 where
  pub name : String
  pub labels : StringMap
  pub annotations : Option StringMap
  pub taints : List Taint
  pub conditions : List NodeCondition

-- `corev1.EventTypeNormal` and `EventTypeWarning`
pub data EventType : Type 0 where
  normal warning : EventType

-- pkg/types/const.go
pub data Reason : Type 0 where
  status_message change_status invalid_status preflight launch_node deprecate_node : Reason
  deprecate : Reason  -- written as a literal in `Deprecate`
