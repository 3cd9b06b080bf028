-- ===== src/Tests/Copies.antt =====
-- The theorems on deep copies, with libraries whose values refer to nothing but an instant.
use nodedeploy_controller.Prelude.{ℕ, String, Option, none, some, List, [], ◌∷◌, false, refl}
use nodedeploy_controller.Duration.{pos}
use nodedeploy_controller.Api.{Taint, active, unknown}
use nodedeploy_controller.DeepCopy.{
  Types, Library, Cell, DeployValue, DeployListValue, foreign, string_map, taint_array,
  deploy_array, deploy_list_array, deploy_deep_copy, deploy_list_deep_copy, assign, into_new,
  cell_at,
}
use nodedeploy_controller.DeepCopy.Laws.{
  Lives, IsCopied, IsDeep, assign-IsDeep, into_new-IsDeep, read_array,
}
use nodedeploy_controller.DeepCopy.Deep.{
  DeepLibrary, read_deploys, read_deploy_lists, deploy_deep_copy_detached,
  deploy_list_deep_copy_detached,
}

-- An instant in memory is an array with one number.
abbrev test_types : Types
test_types = record { Foreign = List ℕ; ObjectMeta = String; ListMeta = String; Taint = Taint }

abbrev instants : Option (Cell test_types) → List ℕ
instants (some (foreign t)) = t
instants _ = []

unfoldable copy_time : ℕ → List (Cell test_types) → ℕ × List (Cell test_types)
unfolding into_new
copy_time = into_new instants foreign assign

abbrev test_library : Library test_types
test_library = record {
  object_meta_deep_copy = assign;
  list_meta_deep_copy = assign;
  taint_deep_copy = assign;
  time_deep_copy = copy_time;
}

time-IsDeep : IsDeep (read_array (λ h t. t) instants) copy_time
unfolding copy_time
time-IsDeep = into_new-IsDeep _ _ instants foreign refl (λ xs. refl) assign-IsDeep

abbrev test_deep : DeepLibrary test_library
test_deep = record {
  ObjectMetaContent = String;
  ListMetaContent = String;
  TaintContent = Taint;
  TimeContent = List ℕ;
  read_object_meta = λ h a. a;
  read_list_meta = λ h a. a;
  read_taint = λ h a. a;
  read_time = read_array (λ h t. t) instants;
  object_meta-IsDeep = assign-IsDeep;
  list_meta-IsDeep = assign-IsDeep;
  taint-IsDeep = assign-IsDeep;
  time-IsDeep = time-IsDeep;
}

abbrev deploy_value : DeployValue test_types
deploy_value = record {
  type_meta = record { kind = "NodeDeploy"; api_version = "node.nodedeploy/v1" };
  object_meta = "edge-1";
  spec = record {
    node_name = "edge-1";
    node_ip = "10.0.0.7";
    node_type = "work";
    node_port = "22";
    node_user = "root";
    node_pwd = "pwd";
    harbor_endpoint = "";
    harbor_user = "";
    harbor_pwd = "";
    labels = some 0;
    annotations = none;
    taints = some 1;
    node_version = "v1.22.0";
    is_evicted = false;
    node_status = active;
    max_retry = pos 3;
  };
  status = record { node_status = unknown; deadline = some 2 };
}

abbrev deploy_list_value : DeployListValue test_types
deploy_list_value = record {
  type_meta = record { kind = "NodeDeployList"; api_version = "node.nodedeploy/v1" };
  list_meta = "";
  items = some 3;
}

-- A map, taints, an instant, the object that refers to them, and a list of it.
abbrev memory : List (Cell test_types)
memory =
    string_map (("zone", "a") ∷ [])
    ∷ taint_array (record { key = "edge"; value = ""; effect = "NoSchedule" } ∷ [])
    ∷ foreign (7 ∷ [])
    ∷ deploy_array (deploy_value ∷ [])
    ∷ deploy_list_array (deploy_list_value ∷ [])
    ∷ []

deploy-Lives : Lives (read_deploys test_types test_library test_deep) memory (some 3)
unfolding cell_at
deploy-Lives more = refl

deploy_list-Lives : Lives (read_deploy_lists test_types test_library test_deep) memory (some 4)
unfolding cell_at
deploy_list-Lives more = refl

deploy_deep_copy_detached_example :
    IsCopied
      (read_deploys test_types test_library test_deep)
      (deploy_deep_copy test_types test_library)
      (some 3)
      memory
deploy_deep_copy_detached_example =
    deploy_deep_copy_detached test_types test_library test_deep (some 3) memory deploy-Lives

deploy_list_deep_copy_detached_example :
    IsCopied
      (read_deploy_lists test_types test_library test_deep)
      (deploy_list_deep_copy test_types test_library)
      (some 4)
      memory
deploy_list_deep_copy_detached_example =
    deploy_list_deep_copy_detached test_types test_library test_deep (some 4) memory
      deploy_list-Lives
