-- ===== src/Tests/Startup.antt =====
-- The theorems on the start of the process, in a runtime that accepts every call.
use nodedeploy_controller.Prelude.{ℕ, suc, false}
use nodedeploy_controller.Start.{goes_on, given, Flags, Runtime}

abbrev default_flags : Flags
default_flags = record {
  metrics_addr = ":8080";
  probe_addr = ":8081";
  enable_leader_election = false;
}

-- A world counts the calls that have an effect.
abbrev test_runtime : Runtime ℕ
test_runtime = record {
  Config = Unit;
  Manager = Unit;
  Clientset = Unit;
  Recorder = Unit;
  add_client_go = λ w. (given tt, suc w);
  build_scheme = λ group types w. (given tt, suc w);
  parse = λ flags w. (goes_on default_flags, w);
  get_config_or_die = λ w. (goes_on tt, w);
  new_manager = λ config options w. (given tt, suc w);
  get_config = λ mgr. tt;
  new_for_config = λ config w. (given tt, suc w);
  get_event_recorder_for = λ mgr name. tt;
  complete = λ mgr clientset recorder w. (given tt, suc w);
  add_healthz_check = λ mgr name w. (given tt, suc w);
  add_readyz_check = λ mgr name w. (given tt, suc w);
  start = λ mgr w. (given tt, suc w);
}
