-- ===== src/Ssh/Frames.antt =====
-- The SSH client keeps what remote effects do not disturb.
use nodedeploy_controller.Prelude.{String, Option, none, some}
use nodedeploy_controller.Machine.{Error, State, IsRemote}
use nodedeploy_controller.Machine.Keeps.{Keeps, IsRobust, keeps_rules}
use nodedeploy_controller.Env.{Env, RunResult, finished, cancelled}
use nodedeploy_controller.Ssh.{
  Client, new_client, exec_result, exec_body, exec_cmd, copy_result, upload_file,
}

module _ (E : Env) {P : State E.World → Type 0} (robust : IsRobust IsRemote P) where
  pub new_client-Keeps : (h p u w : String) → Keeps P (new_client E h p u w)
  unfolding new_client
  new_client-Keeps h p u w = search (keeps_rules, robust)

  exec_result-Keeps : (r : RunResult) → Keeps P (exec_result E r)
  unfolding exec_result
  exec_result-Keeps (finished none out err_out) = search keeps_rules
  exec_result-Keeps (finished (some e) out err_out) = search keeps_rules
  exec_result-Keeps (cancelled e) = search keeps_rules

  exec_body-Keeps : (c : Option (Client E)) (cmd : String) → Keeps P (exec_body E c cmd)
  unfolding exec_body
  exec_body-Keeps none cmd = search keeps_rules
  exec_body-Keeps (some c) cmd = search (keeps_rules, robust, exec_result-Keeps)

  pub exec_cmd-Keeps : (c : Option (Client E)) (cmd : String) → Keeps P (exec_cmd E c cmd)
  unfolding exec_cmd
  exec_cmd-Keeps c cmd = search (keeps_rules, exec_body-Keeps)

  copy_result-Keeps : (src dest : String) (e : Option Error) → Keeps P (copy_result E src dest e)
  unfolding copy_result
  copy_result-Keeps src dest none = search keeps_rules
  copy_result-Keeps src dest (some e) = search keeps_rules

  pub upload_file-Keeps :
      (c : Option (Client E)) (src dest : String) → Keeps P (upload_file E c src dest)
  unfolding upload_file
  upload_file-Keeps none src dest = search keeps_rules
  upload_file-Keeps (some c) src dest =
      search (keeps_rules, robust, copy_result-Keeps, exec_cmd-Keeps) depth 16

pub ruleset ssh_keeps = (keeps_rules, new_client-Keeps, exec_cmd-Keeps, upload_file-Keeps)
