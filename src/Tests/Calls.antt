-- ===== src/Tests/Calls.antt =====
-- The theorems on histories and on calls that succeed, at concrete inputs.
use nodedeploy_controller.Prelude.{
  arith, str_eq_refl, ℕ, ap, Bool, ◌<◌, true, false, ◌≡◌, refl, inl, none, some, String, ◌∷◌,
}
use nodedeploy_controller.Api.{
  NodeDeployStatus, NodeDeploy, unknown, init, inactive, active, launching, deprecating,
  NodeStatus-discrete,
}
use nodedeploy_controller.Machine.{ok, State, ◌>>=◌, ◌>>◌, pure}
use nodedeploy_controller.Node.{
  find_node, watch_node, node_is_ready, mark_node, annotate, drain_node,
}
use nodedeploy_controller.Manager.{
  launch_by_cmd, deprecate_cmd, launch_steps, stage, log_message, select_node,
}
use nodedeploy_controller.Ssh.{new_client, exec_cmd, upload_file}
use nodedeploy_controller.NodeJoin.Work
use nodedeploy_controller.NodeJoin.Shared.{run_unchecked, run_cmd, script}
use nodedeploy_controller.Arch.{parse_arch, get_kubernetes_version_str}
use nodedeploy_controller.Text.{contains, trim_space}
use nodedeploy_controller.JoinInfo.{get_work_join_info, get_cluster_from_kube_config}
use nodedeploy_controller.Phases.{
  node_info, deprecate, prepare, launch, done, update_status, preflight_check, preflight_reason,
  finalize, to_uint,
}
use nodedeploy_controller.Phases.Preflight.{IsDeployable}
use nodedeploy_controller.Reconcile.{reconcile, reconcile_object, ignore_not_found, launch_attempt}
use nodedeploy_controller.Node.{get_secret_name}
use nodedeploy_controller.Reconcile.Gates.{fallen}
use nodedeploy_controller.Reconcile.Deadlines.{IsDated}
use nodedeploy_controller.Reconcile.History.{
  History, created, sent, here, there, History-IsDated, under_way_ends, Rests,
}
use nodedeploy_controller.Reconcile.Diagram.{writes}
use nodedeploy_controller.Reconcile.Installed.{as_work, IsInstalled, reconcile_installs}
use nodedeploy_controller.Reconcile.Success.{finished, reconcile_activates, reconcile_deactivates}
use nodedeploy_controller.Tests.World.{
  World, test_env, test_cluster, store, a_deploy, a_world, started,
}
use nodedeploy_controller.Env.Laws.{as_kept}
use nodedeploy_controller.Tests.Laws.{calm, conflict_law, faithful, retry_law}

abbrev new_object : NodeDeploy
new_object = a_deploy active init none

abbrev from_new : State World
from_new = started (a_world new_object)

abbrev old_object : NodeDeploy
old_object = a_deploy inactive active none

abbrev first_object : NodeDeploy
first_object = a_deploy active unknown none

abbrev from_first : State World
from_first = started (a_world first_object)

abbrev refusing : World
refusing = record (a_world new_object) { accepts = false }

abbrev launching_object : NodeDeploy
launching_object = a_deploy active launching (some 1810000000000)

-- The deadline as it was sent.
abbrev launching_status : NodeDeployStatus
launching_status = record { node_status = launching; deadline = some 1810000001000 }

-- The first call has sent `init`, and a second one, whose updates are refused, has sent `launching`.
a-History : History test_env launching_object
unfolding reconcile reconcile_object ignore_not_found ◌>>=◌ update_status NodeStatus-discrete
    preflight_check preflight_reason node_info launch_attempt prepare finalize to_uint
    get_secret_name
a-History =
    sent launching_object launching_status "d1" (started refusing) refusing refl refl refl
      (there (there here))
      (sent new_object new_object.status "d1" from_first (a_world first_object) refl refl refl here
        (created first_object refl))

History-IsDated_example : IsDated launching_object.status
History-IsDated_example = History-IsDated test_env faithful retry_law a-History

under_way_ends_example :
    (t : ℕ) × ((key : String) (s : State World) (w : World) (d' : NodeDeploy)
      → test_cluster.get_node_deploy key s.world ≡ (ok launching_object, w)
      → t < w.time
      → (test_cluster.update_status (fallen launching_object) w).0 ≡ ok d'
      → Rests launching (reconcile test_env key s).1.object.status.node_status
        × (writes (reconcile test_env key s).1.trace
            ≡ (reconcile test_env key s).1.object.status.node_status ∷ writes s.trace))
under_way_ends_example =
    under_way_ends test_env faithful retry_law launching_object a-History (inl refl) (inl refl)

-- A launch in the small world, up to the call of `launchNode` and behind it.
abbrev prepared : State World
prepared = (prepare test_env launching (record from_new { object = new_object })).1

abbrev launched : State World
launched = (launch test_env (node_info new_object) prepared).1

launch_prepared :
    prepare test_env launching (record from_new { object = new_object }) ≡ (ok tt, prepared)
unfolding prepare update_status ◌>>=◌
launch_prepared = refl

launch_worked :
    ((launch test_env (node_info new_object) prepared).0 ≡ ok true)
    × ((launch test_env (node_info new_object) prepared).1.world.accepts ≡ true)
unfolding launch ◌>>=◌ launch_by_cmd new_client prepare launch_steps stage log_message select_node
    node_info Work.check_arch run_unchecked exec_cmd parse_arch contains trim_space
    Work.check_node_version get_kubernetes_version_str Work.prepare_setup_pkg upload_file run_cmd
    Work.stop_firewalld Work.install_docker Work.set_docker_conf Work.set_host_name Work.load_image
    Work.set_node_components Work.join get_work_join_info watch_node find_node node_is_ready
    mark_node script get_cluster_from_kube_config annotate
launch_worked = (refl, refl)

fine_new : IsDeployable test_env new_object
fine_new = (refl, refl, (record { major = 1; minor = 21 }, refl))

stored :
    (b : Bool) (d : NodeDeploy) (w : World)
    → b ≡ true
    → (store b d w).0 ≡ ok (record d { status = as_kept d.status })
stored true d w accepting = refl
stored false d w accepting = cc

reconcile_activates_example :
    ((reconcile test_env "d1" from_new).0 ≡ ok done)
    × ((reconcile test_env "d1" from_new).1.object.status
        ≡ record { node_status = active; deadline = none })
reconcile_activates_example =
    reconcile_activates test_env retry_law faithful "d1" from_new new_object (a_world new_object)
      refl fine_new prepared launched (finished active launched.object) refl (inl refl)
      launch_prepared (ap (λ o. (o, launched)) launch_worked.0) (stored _ _ _ launch_worked.1)

abbrev cleared : State World
cleared =
    (prepare test_env deprecating (record (started (a_world old_object)) { object = old_object })).1

abbrev removed : State World
removed = (deprecate test_env (node_info old_object) cleared).1

removal_prepared :
    prepare test_env deprecating (record (started (a_world old_object)) { object = old_object })
    ≡ (ok tt, cleared)
unfolding prepare update_status ◌>>=◌
removal_prepared = refl

removal_worked :
    ((deprecate test_env (node_info old_object) cleared).0 ≡ ok true)
    × ((deprecate test_env (node_info old_object) cleared).1.world.accepts ≡ true)
unfolding deprecate ◌>>=◌ find_node drain_node deprecate_cmd prepare new_client log_message
    select_node node_info Work.dis_join run_cmd exec_cmd
removal_worked = (refl, refl)

fine_old : IsDeployable test_env old_object
fine_old = (refl, refl, (record { major = 1; minor = 21 }, refl))

reconcile_deactivates_example :
    ((reconcile test_env "d1" (started (a_world old_object))).0 ≡ ok done)
    × ((reconcile test_env "d1" (started (a_world old_object))).1.object.status
        ≡ record { node_status = inactive; deadline = none })
reconcile_deactivates_example =
    reconcile_deactivates test_env retry_law faithful "d1" (started (a_world old_object)) old_object
      (a_world old_object) refl fine_old cleared removed (finished inactive removed.object) refl
      (inl refl) removal_prepared (ap (λ o. (o, removed)) removal_worked.0)
      (stored _ _ _ removal_worked.1)

activated :
    ((reconcile test_env "d1" from_new).0 ≡ ok done)
    × ((reconcile test_env "d1" from_new).1.object.status
        ≡ record { node_status = active; deadline = none })
activated =
    reconcile_activates test_env retry_law faithful "d1" from_new new_object (a_world new_object)
      refl fine_new prepared launched (finished active launched.object) refl (inl refl)
      launch_prepared (ap (λ o. (o, launched)) launch_worked.0) (stored _ _ _ launch_worked.1)

reconcile_installs_example :
    (t : State World) × IsInstalled test_env as_work (node_info new_object) t
    × (reconcile test_env "d1" from_new
        ≡ (finalize test_env active >> pure done)
            (record (launch test_env (node_info new_object) t).1 { outcome = active }))
reconcile_installs_example =
    reconcile_installs test_env calm conflict_law (λ x. str_eq_refl x.key) faithful retry_law "d1"
      from_new new_object (a_world new_object) as_work refl fine_new (omega arith) (λ e. cc) refl
      (inl refl) refl activated.0 (ap (λ st. st.node_status) activated.1)
