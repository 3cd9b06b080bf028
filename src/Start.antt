-- ===== src/Start.antt =====
-- main.go, `SetupWithManager` of controllers/nodedeploy_controller.go, and the registration of the API
-- group in api/v1/groupversion_info.go and nodedeploy_types.go: how the process starts.
pub mod Order
pub mod Exits
use nodedeploy_controller.Prelude.{ℕ, String, Bool, true, false, List, [], ◌∷◌}
use nodedeploy_controller.Machine.{Error}

-- How a part of `main` ends: it goes on, or the process has exited or panicked.
pub data Ended (A : Type 0) : Type 0 where
  goes_on : A → Ended A
  exited : ℕ → Ended A
  panicked : String → Ended A

-- The status with which the process ends, behind `main`: Go's runtime ends it with 2 for a panic.
unfoldable pub exit_status : Ended Unit → ℕ
exit_status (goes_on a) = 0
exit_status (exited n) = n
exit_status (panicked m) = 2

-- What a call of a library returns.
pub data Answer (A : Type 0) : Type 0 where
  given : A → Answer A
  refused : Error → Answer A

-- A flag with its name and its default. The flags of the logger are left out.
pub data Flag : Type 0 where
  string_var : String → String → Flag
  bool_var : String → Bool → Flag

-- The values of the three flags that `main` declares.
pub record Flags : Type 0 where
  pub metrics_addr : String
  pub probe_addr : String
  pub enable_leader_election : Bool

-- `ctrl.Options`, as far as `main` sets it.
pub record Options : Type 0 where
  pub metrics_bind_address : String
  pub port : ℕ
  pub health_probe_bind_address : String
  pub leader_election : Bool
  pub leader_election_id : String

-- `schema.GroupVersion`
pub record GroupVersion : Type 0 where
  pub group : String
  pub version : String

abbrev pub group_version : GroupVersion
group_version = record { group = "node.nodedeploy"; version = "v1" }

-- The types that a scheme is given, by the names of their Go types.
abbrev pub registered_types : List String
registered_types = "NodeDeploy" ∷ "NodeDeployList" ∷ []

-- controller-runtime, client-go and the flag package.
pub record Runtime (W : Type 0) : Type 1 where
  pub Config : Type 0
  pub Manager : Type 0
  pub Clientset : Type 0
  pub Recorder : Type 0
  pub add_client_go : W → Answer Unit × W  -- clientgoscheme.AddToScheme
  -- `AddToScheme` of a `scheme.Builder` with a group version, on which the types were registered
  pub build_scheme : GroupVersion → List String → W → Answer Unit × W
  -- `flag.Parse`, which may end the process: with 0 where help is asked for, with 2 for a bad flag
  pub parse : List Flag → W → Ended Flags × W
  pub get_config_or_die : W → Ended Config × W
  pub new_manager : Config → Options → W → Answer Manager × W
  pub get_config : Manager → Config
  pub new_for_config : Config → W → Answer Clientset × W
  pub get_event_recorder_for : Manager → String → Recorder
  -- `NewControllerManagedBy(mgr).For(&NodeDeploy{}).Complete(r)`
  pub complete : Manager → Clientset → Recorder → W → Answer Unit × W
  pub add_healthz_check : Manager → String → W → Answer Unit × W
  pub add_readyz_check : Manager → String → W → Answer Unit × W
  -- `mgr.Start` until the signal handler stops it
  pub start : Manager → W → Answer Unit × W

module _ {W A B : Type 0} where
  abbrev pub proceed : Ended A → (A → W → Ended B × W) → W → Ended B × W
  proceed (goes_on a) f w = f a w
  proceed (exited n) f w = (exited n, w)
  proceed (panicked m) f w = (panicked m, w)

  infixl 10 ◌>>=◌ ◌>>◌
  unfoldable pub ◌>>=◌ : (W → Ended A × W) → (A → W → Ended B × W) → W → Ended B × W
  ◌>>=◌ m f w = let (r, v) = m w in proceed r f v

  abbrev pub ◌>>◌ : (W → Ended A × W) → (W → Ended B × W) → W → Ended B × W
  m >> n = m >>= λ _. n

abbrev or_exit : {A : Type 0} → Answer A → Ended A
or_exit (given a) = goes_on a
or_exit (refused e) = exited 1

abbrev or_panic : Answer Unit → Ended Unit
or_panic (given a) = goes_on tt
or_panic (refused e) = panicked e.message

module _ {W : Type 0} where
  -- `if err != nil { setupLog.Error(…); os.Exit(1) }`
  unfoldable pub check : {A : Type 0} → (W → Answer A × W) → W → Ended A × W
  check m w = let (r, v) = m w in (or_exit r, v)

  -- `utilruntime.Must`
  unfoldable pub must_succeed : (W → Answer Unit × W) → W → Ended Unit × W
  must_succeed m w = let (r, v) = m w in (or_panic r, v)

abbrev pub declared_flags : List Flag
declared_flags =
    string_var "metrics-bind-address" ":8080"
    ∷ string_var "health-probe-bind-address" ":8081"
    ∷ bool_var "leader-elect" false
    ∷ []

abbrev pub manager_options : Flags → Options
manager_options flags = record {
  metrics_bind_address = flags.metrics_addr;
  port = 9443;
  health_probe_bind_address = flags.probe_addr;
  leader_election = flags.enable_leader_election;
  leader_election_id = "cc991a2d.nodedeploy";
}

module _ {W : Type 0} (R : Runtime W) where
  -- `AddToScheme` of the API group
  unfoldable pub add_to_scheme : W → Answer Unit × W
  add_to_scheme = R.build_scheme group_version registered_types

  -- `init`
  unfoldable pub init_scheme : W → Ended Unit × W
  init_scheme = must_succeed R.add_client_go >> must_succeed add_to_scheme

  -- `SetupWithManager`
  unfoldable pub setup_with_manager : R.Manager → R.Clientset → W → Answer Unit × W
  setup_with_manager mgr clientset =
      R.complete mgr clientset (R.get_event_recorder_for mgr "NodeDeploy")

  -- `main`, behind `init`
  unfoldable pub main : W → Ended Unit × W
  unfolding init_scheme setup_with_manager
  main = do
    init_scheme
    flags ← R.parse declared_flags
    config ← R.get_config_or_die
    mgr ← check (R.new_manager config (manager_options flags))
    clientset ← check (R.new_for_config (R.get_config mgr))
    check (setup_with_manager mgr clientset)
    check (R.add_healthz_check mgr "healthz")
    check (R.add_readyz_check mgr "readyz")
    check (R.start mgr)
