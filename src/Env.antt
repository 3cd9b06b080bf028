-- ===== src/Env.antt =====
-- What lies outside the repository: the API server behind controller-runtime and client-go, kubectl's
-- drain package, SSH and SFTP, the clock and the libraries. All are parameters. `Env/Laws.antt` states
-- the documented behaviour that some theorems rest on.
pub mod Laws
pub mod Attempts
use nodedeploy_controller.Prelude.{ℕ, String, Bool, List, Option}
use nodedeploy_controller.Api.{NodeDeploy, NodeInfo, Node, Taint, StringMap}
use nodedeploy_controller.Machine.{Error, Outcome, State}

-- `semver.Version`
pub record Version : Type 0 where
  pub major : ℕ
  pub minor : ℕ

-- `watch.EventType`
pub data WatchType : Type 0 where
  added modified deleted bookmark error : WatchType

-- What `select` in `watchNode` receives before its timer fires. An event's object is `none` where it
-- is no node; `closed` is a receive from the closed channel.
pub data Signal : Type 0 where
  context_done closed : Signal
  received : WatchType → Option Node → Signal

-- How `session.Run` ends: by itself with its two buffers, or by the context.
pub data RunResult : Type 0 where
  finished : Option Error → String → String → RunResult
  cancelled : Error → RunResult

-- The controller-runtime client, the watch of nodes and kubectl's drain helper.
pub record Cluster (W : Type 0) : Type 0 where
  pub now : W → ℕ × W
  pub get_node_deploy : String → W → Outcome NodeDeploy × W
  -- On success the object that the server returned.
  pub update_status : NodeDeploy → W → Outcome NodeDeploy × W
  pub get_node : String → W → Outcome Node × W
  pub update_node : Node → W → Outcome Unit × W
  pub delete_node : Node → W → Outcome Unit × W
  pub watch_nodes : W → Outcome (List Signal) × W
  -- `PatchOrReplace`: `err` and `patchErr`
  pub patch_or_replace : Node → W → Outcome (Option Error × Option Error) × W
  -- `GetPodsForDeletion`: the pods and the errors, nil or not
  pub get_pods_for_deletion : String → W → Outcome (List String × Option (List Error)) × W
  pub delete_or_evict_pods : List String → W → Outcome Unit × W
  -- the data of the secret with a namespace and a name
  pub get_secret_data : String → String → W → Outcome StringMap × W

-- golang.org/x/crypto/ssh, github.com/pkg/sftp and the local files
pub record Ssh (W : Type 0) : Type 1 where
  pub Conn : Type 0
  pub Session : Type 0
  -- server, user and password; no password where it is empty
  pub dial : String → String → Option String → W → Outcome Conn × W
  pub new_session : Conn → W → Outcome Session × W
  pub stdin_pipe : Session → W → Outcome Unit × W
  -- the text written to stdin, and the command; it runs in a goroutine, where a panic would end the process
  pub run : Session → String → String → W → RunResult × W
  -- the two output streams of a session, and the run of a command that writes to them
  pub Pipe : Type 0
  pub stderr_pipe : Session → W → Outcome Pipe × W
  pub stdout_pipe : Session → W → Outcome Pipe × W
  pub run_piped : Session → String → W → Outcome Unit × W
  pub sftp_client : Conn → W → Outcome Unit × W
  pub stat_mode : String → W → Outcome ℕ × W
  pub sftp_create : String → W → Outcome Unit × W
  pub open_file : String → W → Outcome Unit × W
  -- source and destination; ends by the copy, with its error, or by the context; in a goroutine too
  pub copy : String → String → W → Option Error × W

-- Functions of libraries.
pub record Library : Type 0 where
  pub new_version : String → Outcome Version  -- semver.NewVersion
  pub parse_ip : String → Bool  -- net.ParseIP gives an address
  pub validate_labels : StringMap → Option Error  -- labels.Set.AsValidatedSelector
  pub merge : StringMap → StringMap → StringMap  -- labels.Merge
  pub match_taint : Taint → Taint → Bool  -- corev1.Taint.MatchTaint
  pub aggregate : List Error → Option Error  -- utilerrors.NewAggregate
  pub marshal : String → String → String → Option String  -- json.Marshal of a StatusMessage
  pub unmarshal_node_info : String → Outcome NodeInfo  -- json.Unmarshal
  pub sprintf : String → String  -- fmt.Sprintf of a format with no operands

-- retry-go's `Do` and client-go's `RetryOnConflict`.
pub record Retry (W : Type 0) : Type 0 where
  -- The number of attempts, the delay and the function.
  pub do_retry : ℕ → ℕ → (State W → Outcome Unit × State W) → State W → Outcome Unit × State W
  pub retry_on_conflict : (State W → Outcome Unit × State W) → State W → Outcome Unit × State W

-- A certificate is its RawSubjectPublicKeyInfo. A cluster and a context of a kubeconfig.
pub record KubeCluster : Type 0 where
  pub server : String
  pub authority_data : Option String
  pub authority_file : String

pub record KubeConfig : Type 0 where
  pub clusters : List (String × KubeCluster)
  pub contexts : List (String × String)
  pub current_context : String

-- The parts of `CloudCoreConfig` that are read.
pub record CloudCoreConfig : Type 0 where
  pub advertise_address : List String
  pub websocket_port : String

pub record Secret : Type 0 where
  pub name : String
  pub namespace : String
  pub kind : String
  pub entries : StringMap

-- The constants of cluster-bootstrap's token API, and `metav1.NamespaceSystem`.
pub record TokenApi : Type 0 where
  pub id_key : String
  pub secret_key : String
  pub description_key : String
  pub expiration_key : String
  pub usage_prefix : String
  pub extra_groups_key : String
  pub secret_type : String
  pub pattern : String
  pub namespace_system : String

-- The clientset that the join information is read with, and the bootstrap token library.
pub record Kube (W : Type 0) : Type 0 where
  pub token_api : TokenApi
  pub in_cluster_config : W → Outcome Unit × W
  pub new_for_config : W → Outcome Unit × W
  pub get_config_map : String → String → W → Outcome StringMap × W
  pub get_secret : String → String → W → Outcome StringMap × W
  pub create_secret : Secret → W → Outcome Unit × W
  pub update_secret : Secret → W → Outcome Unit × W
  pub certs_from_file : String → W → Outcome (List String) × W
  pub generate_token : W → Outcome String × W
  pub parse_certs_pem : String → Outcome (List String)
  pub unmarshal_cloud_core : String → Outcome CloudCoreConfig
  pub load_kube_config : String → Outcome KubeConfig
  pub find_submatch : String → List String  -- BootstrapTokenRegexp.FindStringSubmatch
  pub token_secret_name : String → String  -- BootstrapTokenSecretName
  pub sha256_hex : String → String
  pub format_time : ℕ → String  -- UTC().Format(time.RFC3339)
  pub quote : String → String  -- the verb %q

pub record Env : Type 1 where
  pub World : Type 0
  pub cluster : Cluster World
  pub ssh : Ssh World
  pub kube : Kube World
  pub retry : Retry World
  pub library : Library
