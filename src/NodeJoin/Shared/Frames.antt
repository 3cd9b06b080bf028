-- ===== src/NodeJoin/Shared/Frames.antt =====
-- Running a script keeps what remote effects do not disturb.
use nodedeploy_controller.Prelude.{String, Option}
use nodedeploy_controller.Machine.{State, IsRemote}
use nodedeploy_controller.Machine.Keeps.{Keeps, IsRobust, keeps_rules}
use nodedeploy_controller.Env.{Env}
use nodedeploy_controller.Ssh.{Client}
use nodedeploy_controller.Ssh.Frames.{exec_cmd-Keeps}
use nodedeploy_controller.NodeJoin.Shared.{run_cmd, run_unchecked}

module _ (E : Env) {P : State E.World → Type 0} (robust : IsRobust IsRemote P) where
  pub run_cmd-Keeps :
      (c : Option (Client E)) (cmd : String) (message : String → String)
      → Keeps P (run_cmd E c cmd message)
  unfolding run_cmd
  run_cmd-Keeps c cmd message = search (keeps_rules, robust, exec_cmd-Keeps)

  pub run_unchecked-Keeps : (c : Option (Client E)) (cmd : String) → Keeps P (run_unchecked E c cmd)
  unfolding run_unchecked
  run_unchecked-Keeps c cmd = search (keeps_rules, robust, exec_cmd-Keeps)
