-- ===== src/Start/Order.antt =====
-- What has been set up, and in which order, where the manager has run.
use nodedeploy_controller.Prelude.{String, List, [], ◌∷◌, false, ◌≡◌, refl, sym, ap}
use nodedeploy_controller.Start.{
  Ended, goes_on, exited, panicked, Answer, given, refused, Runtime, Flags, proceed, check,
  GroupVersion, Flag, string_var, bool_var, Options, setup_with_manager, main, ◌>>=◌, must_succeed,
  init_scheme, add_to_scheme,
}

module _ {W A B : Type 0} where
  proceeded :
      (r : Ended A) (f : A → W → Ended B × W) (v w' : W) (b : B)
      → proceed r f v ≡ (goes_on b, w')
      → (a : A) × (r ≡ goes_on a) × (f a v ≡ (goes_on b, w'))
  proceeded (goes_on a) f v w' b e = (a, refl, e)
  proceeded (exited n) f v w' b e = absurd (cc (ap (λ o. o.0) e))
  proceeded (panicked m) f v w' b e = absurd (cc (ap (λ o. o.0) e))

  -- Both halves went on.
  went_on :
      (m : W → Ended A × W) (f : A → W → Ended B × W) (w w' : W) (b : B)
      → (m >>= f) w ≡ (goes_on b, w')
      → (a : A) × ((m w).0 ≡ goes_on a) × (f a (m w).1 ≡ (goes_on b, w'))
  unfolding ◌>>=◌
  went_on m f w w' b e = proceeded (m w).0 f (m w).1 w' b e

module _ {W A : Type 0} where
  answered : (r : Answer A) (w : W) (a : A) → (check (λ v. (r, v)) w).0 ≡ goes_on a → r ≡ given a
  unfolding check
  answered (given x) w a e = cc
  answered (refused x) w a e = absurd (cc e)

  accepted : (m : W → Answer A × W) (w : W) (a : A) → (check m w).0 ≡ goes_on a → (m w).0 ≡ given a
  unfolding check
  accepted m w a e = answered (m w).0 w a e

  last :
      (m : W → Answer A × W) (w w' : W) (a : A)
      → check m w ≡ (goes_on a, w')
      → ((m w).0 ≡ given a) × (w' ≡ (m w).1)
  unfolding check
  last m w w' a e = (accepted m w a (ap (λ o. o.0) e), sym (ap (λ o. o.1) e))

module _ {W A B : Type 0} where
  checked :
      (m : W → Answer A × W) (f : A → W → Ended B × W) (w w' : W) (b : B)
      → (check m >>= f) w ≡ (goes_on b, w')
      → (a : A) × ((m w).0 ≡ given a) × (f a (m w).1 ≡ (goes_on b, w'))
  unfolding check
  checked m f w w' b e =
      let (a, went, rest) = went_on (check m) f w w' b e in (a, accepted m w a went, rest)

module _ {W : Type 0} where
  must_answered :
      (r : Answer Unit) (w : W) (a : Unit)
      → (must_succeed (λ v. (r, v)) w).0 ≡ goes_on a
      → r ≡ given tt
  unfolding must_succeed
  must_answered (given x) w a e = refl
  must_answered (refused x) w a e = absurd (cc e)

  must_accepted :
      (m : W → Answer Unit × W) (w : W) (a : Unit)
      → (must_succeed m w).0 ≡ goes_on a
      → (m w).0 ≡ given tt
  unfolding must_succeed
  must_accepted m w a e = must_answered (m w).0 w a e

-- The API group with its types, the flags with their defaults, and the options of the manager: written
-- here a second time.
abbrev node_group : GroupVersion
node_group = record { group = "node.nodedeploy"; version = "v1" }

abbrev node_types : List String
node_types = "NodeDeploy" ∷ "NodeDeployList" ∷ []

abbrev pub three_flags : List Flag
three_flags =
    string_var "metrics-bind-address" ":8080"
    ∷ string_var "health-probe-bind-address" ":8081"
    ∷ bool_var "leader-elect" false
    ∷ []

abbrev wanted_options : Flags → Options
wanted_options flags = record {
  metrics_bind_address = flags.metrics_addr;
  port = 9443;
  health_probe_bind_address = flags.probe_addr;
  leader_election = flags.enable_leader_election;
  leader_election_id = "cc991a2d.nodedeploy";
}

module _ {W : Type 0} (R : Runtime W) where
  -- What `init` has done, where it goes on.
  initialised :
      (w : W)
      → (init_scheme R w).0 ≡ goes_on tt
      → ((R.add_client_go w).0 ≡ given tt)
        × ((add_to_scheme R (R.add_client_go w).1).0 ≡ given tt)
        × ((init_scheme R w).1 ≡ (add_to_scheme R (R.add_client_go w).1).1)
  unfolding init_scheme must_succeed
  initialised w e =
      let (_, first, rest) =
        went_on (must_succeed R.add_client_go) (λ _. must_succeed (add_to_scheme R)) w
          (init_scheme R w).1 tt (ap (λ o. (o, (init_scheme R w).1)) e) in
      (
        must_accepted R.add_client_go w tt first,
        must_accepted (add_to_scheme R) (R.add_client_go w).1 tt (ap (λ o. o.0) rest),
        sym (ap (λ o. o.1) rest),
      )

  abbrev recorded : R.Manager → R.Recorder
  recorded mgr = R.get_event_recorder_for mgr "NodeDeploy"

  -- What a run of `main` that comes back has done, in this order, from `w`.
  pub record IsStarted (w w' : W) : Type 0 where
    pub client_go_added : (R.add_client_go w).0 ≡ given tt
    pub built_in : W
    pub built_from : built_in ≡ (R.add_client_go w).1
    pub built : (R.build_scheme node_group node_types built_in).0 ≡ given tt
    pub parsed_in : W
    pub parsed_from : parsed_in ≡ (R.build_scheme node_group node_types built_in).1
    pub flags : Flags
    pub parsed : (R.parse three_flags parsed_in).0 ≡ goes_on flags
    pub configured_in : W
    pub configured_from : configured_in ≡ (R.parse three_flags parsed_in).1
    pub config : R.Config
    pub configured : (R.get_config_or_die configured_in).0 ≡ goes_on config
    pub made_in : W
    pub made_from : made_in ≡ (R.get_config_or_die configured_in).1
    pub mgr : R.Manager
    pub made : (R.new_manager config (wanted_options flags) made_in).0 ≡ given mgr
    pub connected_in : W
    pub connected_from : connected_in ≡ (R.new_manager config (wanted_options flags) made_in).1
    pub clientset : R.Clientset
    pub connected : (R.new_for_config (R.get_config mgr) connected_in).0 ≡ given clientset
    pub set_up_in : W
    pub set_up_from : set_up_in ≡ (R.new_for_config (R.get_config mgr) connected_in).1
    pub set_up : (R.complete mgr clientset (recorded mgr) set_up_in).0 ≡ given tt
    pub probed_in : W
    pub probed_from : probed_in ≡ (R.complete mgr clientset (recorded mgr) set_up_in).1
    pub probed : (R.add_healthz_check mgr "healthz" probed_in).0 ≡ given tt
    pub readied_in : W
    pub readied_from : readied_in ≡ (R.add_healthz_check mgr "healthz" probed_in).1
    pub readied : (R.add_readyz_check mgr "readyz" readied_in).0 ≡ given tt
    pub started_in : W
    pub started_from : started_in ≡ (R.add_readyz_check mgr "readyz" readied_in).1
    pub started : (R.start mgr started_in).0 ≡ given tt
    pub ended : w' ≡ (R.start mgr started_in).1

  -- What `main` has done where it comes back.
  pub main-IsStarted : (w w' : W) → main R w ≡ (goes_on tt, w') → IsStarted w w'
  unfolding main setup_with_manager add_to_scheme
  main-IsStarted w w' e =
      let (_, began, rest₁) = went_on _ _ w w' tt e in
      let (client_go_added, built, built_world) = initialised w began in
      let (flags, flagged, rest₂) = went_on _ _ _ w' tt rest₁ in
      let (config, configured, rest₃) = went_on _ _ _ w' tt rest₂ in
      let (mgr, made, rest₄) = checked _ _ _ w' tt rest₃ in
      let (clientset, connected, rest₅) = checked _ _ _ w' tt rest₄ in
      let (_, set_up, rest₆) = checked _ _ _ w' tt rest₅ in
      let (_, probed, rest₇) = checked _ _ _ w' tt rest₆ in
      let (_, readied, rest₈) = checked _ _ _ w' tt rest₇ in
      record {
        client_go_added = client_go_added;
        built_in = _;
        built_from = refl;
        built = built;
        parsed_in = _;
        parsed_from = built_world;
        flags = flags;
        parsed = cc flagged;
        configured_in = _;
        configured_from = refl;
        config = config;
        configured = configured;
        made_in = _;
        made_from = refl;
        mgr = mgr;
        clientset = clientset;
        made = made;
        connected_in = _;
        connected_from = refl;
        connected = connected;
        set_up_in = _;
        set_up_from = refl;
        set_up = set_up;
        probed_in = _;
        probed_from = refl;
        probed = probed;
        readied_in = _;
        readied_from = refl;
        readied = readied;
        started_in = _;
        started_from = refl;
        started = (last _ _ w' tt rest₈).0;
        ended = (last _ _ w' tt rest₈).1;
      }
