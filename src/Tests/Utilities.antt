-- ===== src/Tests/Utilities.antt =====
-- The theorems on the text of a counter, on `ExecPipe` and on a secret with the node's information.
use nodedeploy_controller.Prelude.{◌≡◌, refl, none, some}
use nodedeploy_controller.Api.{active, init}
use nodedeploy_controller.Machine.{Outcome, ok, panic, State, ◌>>=◌}
use nodedeploy_controller.Progress.{Progress, string}
use nodedeploy_controller.Progress.Reading.{read_pair, read_pair-string}
use nodedeploy_controller.Ssh.{Client}
use nodedeploy_controller.Ssh.Pipe.{exec_pipe, exec_pipe_swallows}
use nodedeploy_controller.Phases.FromSecret.{get_node_info_form_secret}
use nodedeploy_controller.Tests.World.{World, test_env, no_info, a_deploy, a_world, started}

abbrev third : Progress
third = record { i = 3; sum = 10 }

read_pair-string_example : read_pair 0 (string third) ≡ (3, 10)
read_pair-string_example = read_pair-string third

abbrev idle : State World
idle = started (a_world (a_deploy active init none))

abbrev a_client : Client test_env
a_client = record { server = "10.0.0.7:22"; conn = tt; passwd = "secret" }

abbrev crashing : test_env.ssh.Pipe → test_env.ssh.Pipe → State World → Outcome Unit × State World
crashing out err_out s = (panic "boom", s)

exec_pipe_swallows_example :
    exec_pipe test_env (some a_client) "reboot" crashing idle ≡ (ok tt, idle)
exec_pipe_swallows_example =
    exec_pipe_swallows test_env a_client "reboot" crashing idle idle tt tt tt idle.world idle.world
      idle.world "boom" refl refl refl refl

-- The information is read from the entry.
node_info_read :
    (get_node_info_form_secret test_env (a_deploy active init none) idle).0 ≡ ok no_info
unfolding get_node_info_form_secret ◌>>=◌
node_info_read = refl
