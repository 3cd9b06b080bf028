-- ===== src/DeepCopy.antt =====
-- api/v1/zz_generated.deepcopy.go: the copies of the custom resource, on a memory of their own.
pub mod Laws
pub mod Deep
use nodedeploy_controller.Prelude.{
  ℕ, zero, suc, String, Bool, Option, none, some, List, [], ◌∷◌, ◌++◌, length,
}
use nodedeploy_controller.Duration.{ℤ}
use nodedeploy_controller.Api.{NodeStatus, StringMap}

-- The types of apimachinery and of corev1 that the resource holds, and what their values refer to.
pub record Types : Type 1 where
  pub Foreign : Type 0
  pub ObjectMeta : Type 0
  pub ListMeta : Type 0
  pub Taint : Type 0

-- The structs as they lie in memory: a map, a slice and a pointer is nil or an address.
pub record SpecValue : Type 0 where
  pub node_name : String
  pub node_ip : String
  pub node_type : String
  pub node_port : String
  pub node_user : String
  pub node_pwd : String
  pub harbor_endpoint : String
  pub harbor_user : String
  pub harbor_pwd : String
  pub labels : Option ℕ
  pub annotations : Option ℕ
  pub taints : Option ℕ
  pub node_version : String
  pub is_evicted : Bool
  pub node_status : NodeStatus
  pub max_retry : ℤ

pub record StatusValue : Type 0 where
  pub node_status : NodeStatus
  pub deadline : Option ℕ

-- The kind and the version of an object
pub record TypeMeta : Type 0 where
  pub kind : String
  pub api_version : String

pub record DeployValue (T : Types) : Type 0 where
  pub type_meta : TypeMeta
  pub object_meta : T.ObjectMeta
  pub spec : SpecValue
  pub status : StatusValue

pub record DeployListValue (T : Types) : Type 0 where
  pub type_meta : TypeMeta
  pub list_meta : T.ListMeta
  pub items : Option ℕ

-- What is at an address: a map, or an array of one type. A pointer to a struct is the address of an array
-- with this one element.
pub data Cell (T : Types) : Type 0 where
  foreign : T.Foreign → Cell T
  string_map : StringMap → Cell T
  taint_array : List T.Taint → Cell T
  spec_array : List SpecValue → Cell T
  status_array : List StatusValue → Cell T
  deploy_array : List (DeployValue T) → Cell T
  deploy_list_array : List (DeployListValue T) → Cell T

-- A copy gives a value, and memory with what it has allocated.
abbrev pub Copy : Type 0 → Type 0 → Type 0
Copy C A = A → List C → A × List C

-- Memory grows at its end, so that an address is a position.
module _ {C : Type 0} where
  unfoldable pub cell_at : List C → ℕ → Option C
  cell_at [] a = none
  cell_at (c ∷ h) zero = some c
  cell_at (c ∷ h) (suc a) = cell_at h a

  -- An assignment, which copies the value and no more
  abbrev pub assign : {A : Type 0} → Copy C A
  assign a h = (a, h)

  module _ {A B : Type 0} where
    -- One copy after the other
    abbrev pub both : Copy C A → Copy C B → Copy C (A × B)
    both copy copy' (a, b) h = let (a', g) = copy a h in let (b', k) = copy' b g in ((a', b'), k)

  module _ {A : Type 0} where
    -- `for i := range *in { … }`
    unfoldable pub each : Copy C A → Copy C (List A)
    each copy [] h = ([], h)
    each copy (x ∷ xs) h = let (x', g) = copy x h in let (xs', k) = each copy xs g in (x' ∷ xs', k)

    -- `if *in != nil { … }` around a copy of what the address refers to
    unfoldable pub unless_nil : Copy C A → Copy C (Option A)
    unless_nil copy none h = (none, h)
    unless_nil copy (some a) h = let (b, g) = copy a h in (some b, g)

    -- A new map or array is made, and every element is copied into it. The new address is unused, so it
    -- does not matter that it is taken behind those that the elements take.
    unfoldable pub into_new : (Option C → List A) → (List A → C) → Copy C A → Copy C ℕ
    unfolding cell_at each
    into_new elements cell copy a h =
        let (xs, g) = each copy (elements (cell_at h a)) h in (length g, g ++ cell xs ∷ [])

module _ {T : Types} where
  abbrev pub map_entries : Option (Cell T) → List (String × String)
  map_entries (some (string_map m)) = m
  map_entries _ = []

  abbrev pub taint_elements : Option (Cell T) → List T.Taint
  taint_elements (some (taint_array xs)) = xs
  taint_elements _ = []

  abbrev pub spec_elements : Option (Cell T) → List SpecValue
  spec_elements (some (spec_array xs)) = xs
  spec_elements _ = []

  abbrev pub status_elements : Option (Cell T) → List StatusValue
  status_elements (some (status_array xs)) = xs
  status_elements _ = []

  abbrev pub deploy_elements : Option (Cell T) → List (DeployValue T)
  deploy_elements (some (deploy_array xs)) = xs
  deploy_elements _ = []

  abbrev pub deploy_list_elements : Option (Cell T) → List (DeployListValue T)
  deploy_list_elements (some (deploy_list_array xs)) = xs
  deploy_list_elements _ = []

module _ {T : Types} where
  -- The loop over a map assigns every entry to the new one: no key comes twice.
  unfoldable pub map_deep_copy : Copy (Cell T) (Option ℕ)
  unfolding unless_nil into_new
  map_deep_copy = unless_nil (into_new map_entries string_map assign)

-- The copies of apimachinery and corev1
pub record Library (T : Types) : Type 0 where
  pub object_meta_deep_copy : Copy (Cell T) T.ObjectMeta
  pub list_meta_deep_copy : Copy (Cell T) T.ListMeta
  pub taint_deep_copy : Copy (Cell T) T.Taint
  pub time_deep_copy : Copy (Cell T) ℕ  -- of a pointer that is not nil

-- `runtime.Object`: nil, or a pointer with its type
pub data RuntimeObject : Type 0 where
  no_object : RuntimeObject
  node_deploy node_deploy_list : ℕ → RuntimeObject

module _ (T : Types) (L : Library T) where
  -- `NodeDeploySpec.DeepCopyInto`
  unfoldable pub spec_deep_copy_into : Copy (Cell T) SpecValue
  unfolding map_deep_copy unless_nil into_new
  spec_deep_copy_into spec h =
      let (labels', h₁) = map_deep_copy spec.labels h in
      let (annotations', h₂) = map_deep_copy spec.annotations h₁ in
      let (taints', h₃) =
        unless_nil (into_new taint_elements taint_array L.taint_deep_copy) spec.taints h₂ in
      (record spec { labels = labels'; annotations = annotations'; taints = taints' }, h₃)

  -- `NodeDeployStatus.DeepCopyInto`
  unfoldable pub status_deep_copy_into : Copy (Cell T) StatusValue
  unfolding unless_nil
  status_deep_copy_into status h =
      let (deadline', h₁) = unless_nil L.time_deep_copy status.deadline h in
      (record status { deadline = deadline' }, h₁)

  -- `NodeDeploy.DeepCopyInto`
  unfoldable pub deploy_deep_copy_into : Copy (Cell T) (DeployValue T)
  unfolding spec_deep_copy_into status_deep_copy_into
  deploy_deep_copy_into d h =
      let (object_meta', h₁) = L.object_meta_deep_copy d.object_meta h in
      let (spec', h₂) = spec_deep_copy_into d.spec h₁ in
      let (status', h₃) = status_deep_copy_into d.status h₂ in
      (record d { object_meta = object_meta'; spec = spec'; status = status' }, h₃)

  -- `NodeDeployList.DeepCopyInto`
  unfoldable pub deploy_list_deep_copy_into : Copy (Cell T) (DeployListValue T)
  unfolding unless_nil into_new deploy_deep_copy_into
  deploy_list_deep_copy_into l h =
      let (list_meta', h₁) = L.list_meta_deep_copy l.list_meta h in
      let (items', h₂) =
        unless_nil (into_new deploy_elements deploy_array deploy_deep_copy_into) l.items h₁ in
      (record l { list_meta = list_meta'; items = items' }, h₂)

  -- `DeepCopy` of each type: nil for nil, and else a new struct that is copied into
  unfoldable pub spec_deep_copy : Copy (Cell T) (Option ℕ)
  unfolding unless_nil into_new spec_deep_copy_into
  spec_deep_copy = unless_nil (into_new spec_elements spec_array spec_deep_copy_into)

  unfoldable pub status_deep_copy : Copy (Cell T) (Option ℕ)
  unfolding unless_nil into_new status_deep_copy_into
  status_deep_copy = unless_nil (into_new status_elements status_array status_deep_copy_into)

  unfoldable pub deploy_deep_copy : Copy (Cell T) (Option ℕ)
  unfolding unless_nil into_new deploy_deep_copy_into
  deploy_deep_copy = unless_nil (into_new deploy_elements deploy_array deploy_deep_copy_into)

  unfoldable pub deploy_list_deep_copy : Copy (Cell T) (Option ℕ)
  unfolding unless_nil into_new deploy_list_deep_copy_into
  deploy_list_deep_copy =
      unless_nil (into_new deploy_list_elements deploy_list_array deploy_list_deep_copy_into)

  as_object : (ℕ → RuntimeObject) → Option ℕ → RuntimeObject
  as_object typed none = no_object
  as_object typed (some a) = typed a

  -- `DeepCopyObject` of both objects
  unfoldable pub deploy_deep_copy_object : Option ℕ → List (Cell T) → RuntimeObject × List (Cell T)
  unfolding as_object deploy_deep_copy
  deploy_deep_copy_object p h = let (c, g) = deploy_deep_copy p h in (as_object node_deploy c, g)

  unfoldable pub deploy_list_deep_copy_object :
      Option ℕ → List (Cell T) → RuntimeObject × List (Cell T)
  unfolding as_object deploy_list_deep_copy
  deploy_list_deep_copy_object p h =
      let (c, g) = deploy_list_deep_copy p h in (as_object node_deploy_list c, g)
