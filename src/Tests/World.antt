-- ===== src/Tests/World.antt =====
-- A small world in which the parameters of the model are concrete functions, and objects to run on.
use nodedeploy_controller.Prelude.{
  ℕ, zero, suc, ◌+◌, ◌<>◌, Bool, true, false, not, List, [], ◌∷◌, ◌++◌, Option, none, some, str_eq,
}
use nodedeploy_controller.Duration.{ℤ, pos}
use nodedeploy_controller.Api.{
  node_work, NodeStatus, unknown, NodeDeploySpec, NodeDeploy, NodeInfo, Node,
}
use nodedeploy_controller.Machine.{Error, Outcome, ok, err, panic, State, errorf}
use nodedeploy_controller.Env.{Env, Cluster, Ssh, Library, Retry, Kube, TokenApi, finished}
use nodedeploy_controller.Env.Laws.{pausing, as_kept}

-- The time, the object that the server stores, and what works: updates, the connection to the node, and
-- the eviction of its pods.
pub record World : Type 0 where
  pub time : ℕ
  pub stored : NodeDeploy
  pub accepts : Bool
  pub online : Bool
  pub drains : Bool

abbrev pub a_node : Node
a_node = record {
  name = "n1";
  labels = [];
  annotations = some [];
  taints = [];
  conditions = record { type_name = "Ready"; status = "True" } ∷ [];
}

abbrev pub answer : {A : Type 0} → Bool → A → World → Outcome A × World
answer true a w = (ok a, w)
answer false a w = (err (errorf "refused"), w)

abbrev pub store : Bool → NodeDeploy → World → Outcome NodeDeploy × World
store true d w =
    let kept = record d { status = as_kept d.status } in
    (ok kept, record w { time = w.time + 1; stored = kept })
store false d w = (err (errorf "refused"), w)

abbrev pub test_cluster : Cluster World
test_cluster = record {
  now = λ w. (w.time, w);
  get_node_deploy = λ key w. (ok w.stored, w);
  update_status = λ d w. store w.accepts d w;
  get_node = λ name w. (ok a_node, w);
  update_node = λ n w. (ok tt, w);
  delete_node = λ n w. (ok tt, w);
  watch_nodes = λ w. (ok [], w);
  patch_or_replace = λ n w. (ok (none, none), w);
  get_pods_for_deletion = λ name w. (ok ("pod" ∷ [], none), w);
  delete_or_evict_pods = λ pods w. answer w.drains tt w;
  get_secret_data = λ namespace name w. (ok (("nodeInfo", "{}") ∷ []), w);
}

abbrev pub test_ssh : Ssh World
test_ssh = record {
  Conn = Unit;
  Session = Unit;
  dial = λ server user password w. answer w.online tt w;
  new_session = λ c w. (ok tt, w);
  stdin_pipe = λ c w. (ok tt, w);
  run = λ c text cmd w. (finished none "x86_64" "", w);
  Pipe = Unit;
  stderr_pipe = λ x w. (ok tt, w);
  stdout_pipe = λ x w. (ok tt, w);
  run_piped = λ x cmd w. (ok tt, w);
  sftp_client = λ c w. (ok tt, w);
  stat_mode = λ path w. (ok 420, w);
  sftp_create = λ path w. (ok tt, w);
  open_file = λ path w. (ok tt, w);
  copy = λ src dest w. (none, w);
}

abbrev pub first_error : List Error → Option Error
first_error [] = none
first_error (e ∷ _) = some e

abbrev pub no_info : NodeInfo
no_info = record {
  node_name = "";
  node_ip = "";
  node_type = "";
  node_port = "";
  node_user = "";
  node_pwd = "";
  harbor_endpoint = "";
  harbor_user = "";
  harbor_pwd = "";
}

abbrev pub test_library : Library
test_library = record {
  new_version = λ v. ok (record { major = 1; minor = 21 });
  parse_ip = λ ip. not (str_eq ip "");
  validate_labels = λ l. none;
  merge = λ a b. a ++ b;
  match_taint = λ s t. str_eq s.key t.key;
  aggregate = first_error;
  marshal = λ a b c. some (a <> b <> c);
  unmarshal_node_info = λ text. ok no_info;
  sprintf = λ text. text;
}

abbrev pub tick : ℕ → World → World
tick d w = record w { time = w.time + d }

abbrev pub unless_failed :
    (State World → Outcome Unit × State World)
    → ℕ
    → Outcome Unit × State World
    → Outcome Unit × State World
unless_failed again d (ok x, t) = (ok x, t)
unless_failed again d (panic m, t) = (panic m, t)
unless_failed again d (err e, t) = again (pausing tick d t)

-- One attempt and as many further ones as the number says.
abbrev pub attempts :
    ℕ → ℕ → (State World → Outcome Unit × State World) → State World → Outcome Unit × State World
attempts zero d f s = f s
attempts (suc n) d f s = unless_failed (attempts n d f) d (f s)

abbrev pub test_do_retry :
    ℕ → ℕ → (State World → Outcome Unit × State World) → State World → Outcome Unit × State World
test_do_retry zero = attempts zero
test_do_retry (suc n) = attempts n

abbrev pub test_retry : Retry World
test_retry = record { do_retry = test_do_retry; retry_on_conflict = λ f s. f s }

abbrev pub test_token_api : TokenApi
test_token_api = record {
  id_key = "token-id";
  secret_key = "token-secret";
  description_key = "description";
  expiration_key = "expiration";
  usage_prefix = "usage-bootstrap-";
  extra_groups_key = "auth-extra-groups";
  secret_type = "bootstrap.kubernetes.io/token";
  pattern = "";
  namespace_system = "kube-system";
}

abbrev pub test_kube : Kube World
test_kube = record {
  token_api = test_token_api;
  in_cluster_config = λ w. (ok tt, w);
  new_for_config = λ w. (ok tt, w);
  get_config_map = λ namespace name w. (ok [], w);
  get_secret = λ namespace name w. (err (errorf "not found"), w);
  create_secret = λ s w. (ok tt, w);
  update_secret = λ s w. (ok tt, w);
  certs_from_file = λ f w. (ok [], w);
  generate_token = λ w. (ok "abcdef.0123456789abcdef", w);
  parse_certs_pem = λ pem. ok ("cert" ∷ []);
  unmarshal_cloud_core =
      λ text. ok (record { advertise_address = "10.0.0.1" ∷ []; websocket_port = "10000" });
  load_kube_config = λ text. ok (record { clusters = []; contexts = []; current_context = "" });
  find_submatch = λ t. t ∷ "abcdef" ∷ "0123456789abcdef" ∷ [];
  token_secret_name = λ id. "bootstrap-token-" <> id;
  sha256_hex = λ t. t;
  format_time = λ t. "";
  quote = λ t. t;
}

abbrev pub test_env : Env
test_env = record {
  World = World;
  cluster = test_cluster;
  ssh = test_ssh;
  kube = test_kube;
  retry = test_retry;
  library = test_library;
}

abbrev pub a_spec : NodeStatus → ℤ → NodeDeploySpec
a_spec goal max_retry = record {
  node_name = "n1";
  node_ip = "10.0.0.7";
  node_type = node_work;
  node_port = "22";
  node_user = "root";
  node_pwd = "secret";
  harbor_endpoint = "";
  harbor_user = "";
  harbor_pwd = "";
  labels = [];
  annotations = [];
  taints = [];
  node_version = "1.21.0";
  is_evicted = true;
  node_status = goal;
  max_retry = max_retry;
}

abbrev pub a_deploy : NodeStatus → NodeStatus → Option ℕ → NodeDeploy
a_deploy goal current deadline = record {
  name = "d1";
  namespace = "default";
  spec = a_spec goal (pos 3);
  status = record { node_status = current; deadline = deadline };
}

-- A world in which all works, or in which updates, the connection or the eviction fail.
abbrev pub a_world : NodeDeploy → World
a_world d = record { time = 1000; stored = d; accepts = true; online = true; drains = true }

abbrev pub started : World → State World
started w = record {
  object = a_deploy unknown unknown none;
  world = w;
  outcome = unknown;
  trace = [];
}
