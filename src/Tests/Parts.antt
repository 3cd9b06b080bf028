-- ===== src/Tests/Parts.antt =====
-- The theorems on the parts that `Reconcile` stands on, at concrete inputs.
use nodedeploy_controller.Prelude.{
  String, Bool, true, false, List, [], ◌∷◌, ◌≡◌, refl, ◌⊎◌, inl, none, some, str_eq, str_eq_refl,
}
use nodedeploy_controller.Api.{
  NodeDeploy, init, inactive, active, Node, NodeInfo, Taint, node_work, normal, status_message,
  deprecate,
}
use nodedeploy_controller.Machine.{ok, err, panic, State, errorf, event, dial, ◌>>=◌}
use nodedeploy_controller.Phases.{node_info}
use nodedeploy_controller.Node.{watch_loop, node_is_ready, add_taints}
use nodedeploy_controller.Node.Watch.{
  watch_loop_result, node_is_ready_ignores_status, Comes, with_statuses,
}
use nodedeploy_controller.Node.Taints.{add_taints_idem}
use nodedeploy_controller.Phases.{preflight_reason}
use nodedeploy_controller.Phases.Preflight.{preflight_iff}
use nodedeploy_controller.Manager.{deprecate_cmd, message_string}
use nodedeploy_controller.Manager.Offline.{deprecate_offline}
use nodedeploy_controller.Token.{create_or_update_secret}
use nodedeploy_controller.Token.Laws.{create_or_update_iff}
use nodedeploy_controller.Env.{Env, Secret, Signal, received, closed, modified}
use nodedeploy_controller.Progress.{steps, new_progress}
use nodedeploy_controller.Progress.Laws.{steps_count}
use nodedeploy_controller.Tests.World.{World, test_env, a_deploy, a_world, started}
use nodedeploy_controller.NodeJoin.KubeEdge.{join}
use nodedeploy_controller.NodeJoin.KubeEdge.Panics.{join_panics_iff, IsUninformed}
use nodedeploy_controller.JoinInfo.{get_kube_edge_join_info}

abbrev fine_object : NodeDeploy
fine_object = a_deploy active init none

preflight_iff_example : preflight_reason test_env fine_object (node_info fine_object) ≡ ok none
preflight_iff_example =
    (preflight_iff test_env fine_object).1 (refl, refl, (record { major = 1; minor = 21 }, refl))

abbrev removal : NodeDeploy
removal = a_deploy inactive active none

abbrev the_node : Node
the_node = record {
  name = "n1";
  labels = [];
  annotations = some [];
  taints = [];
  conditions = record { type_name = "Ready"; status = "True" } ∷ [];
}

abbrev unreachable : State World
unreachable = started (record (a_world removal) { online = false })

abbrev an_info : NodeInfo
an_info = record {
  node_name = "n1";
  node_ip = "10.0.0.7";
  node_type = node_work;
  node_port = "22";
  node_user = "root";
  node_pwd = "secret";
  harbor_endpoint = "";
  harbor_user = "";
  harbor_pwd = "";
}

deprecate_offline_example : deprecate_cmd test_env an_info unreachable ≡ (
  ok tt,
  record unreachable {
    trace =
        event normal status_message
          (message_string test_env "Deprecate Node" "deprecate success" "1/1")
        ∷ event normal deprecate "deprecate success"
        ∷ event normal status_message
            (message_string test_env "Deprecate Node" "shutdown workerNode" "1/1")
        ∷ dial "10.0.0.7:22"
        ∷ [];
  },
)
deprecate_offline_example =
    deprecate_offline test_env an_info unreachable (errorf "refused") unreachable.world (inl refl)
      refl

abbrev some_signals : List Signal
some_signals = closed ∷ received modified (some the_node) ∷ []

watch_loop_result_example :
    (((watch_loop test_env "n1" true some_signals unreachable).0 ≡ ok true)
      × Comes "n1" true some_signals)
    ⊎ (((watch_loop test_env "n1" true some_signals unreachable).0 ≡ ok false)
        × ¬ (Comes "n1" true some_signals))
watch_loop_result_example = watch_loop_result test_env "n1" true some_signals unreachable

node_is_ready_ignores_status_example :
    node_is_ready
      (record the_node { conditions = with_statuses (λ _. "False") the_node.conditions })
    ≡ node_is_ready the_node
node_is_ready_ignores_status_example = node_is_ready_ignores_status (λ _. "False") the_node

abbrev same_key : Taint → Taint → Bool
same_key s t = str_eq s.key t.key

abbrev a_taint : Taint
a_taint = record { key = "k"; value = "v"; effect = "NoSchedule" }

add_taints_idem_example :
    add_taints same_key (a_taint ∷ []) (add_taints same_key (a_taint ∷ []) [])
    ≡ add_taints same_key (a_taint ∷ []) []
add_taints_idem_example = add_taints_idem same_key (λ t. str_eq_refl t.key) (a_taint ∷ []) []

abbrev a_secret : Secret
a_secret = record { name = "s"; namespace = "kube-system"; kind = "Opaque"; entries = [] }

create_or_update_iff_example : (create_or_update_secret test_env a_secret unreachable).0 ≡ ok tt
create_or_update_iff_example = (create_or_update_iff test_env a_secret unreachable).1 (inl refl)

steps_count_example :
    ((steps 12 (new_progress 10)).i ≡ 10) × ((steps 12 (new_progress 10)).sum ≡ 10)
steps_count_example = steps_count 10 12

-- A cluster that has no information for joining, and a secret for every token.
abbrev uninformed_env : Env
uninformed_env = record test_env {
  kube = record test_env.kube {
    get_config_map = λ namespace name w. (err (errorf "not found"), w);
    get_secret = λ namespace name w. (ok [], w);
  };
}

no_information : IsUninformed (get_kube_edge_join_info uninformed_env unreachable).0
unfolding get_kube_edge_join_info ◌>>=◌
no_information = tt

join_panics_iff_example : (m : String) × ((join uninformed_env none unreachable).0 ≡ panic m)
join_panics_iff_example = (join_panics_iff uninformed_env none unreachable).1 no_information
