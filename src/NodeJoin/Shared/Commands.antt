-- ===== src/NodeJoin/Shared/Commands.antt =====
-- The steps of join.go that run a command, as steps of a plan.
use nodedeploy_controller.Prelude.{String, ◌<>◌, refl, [], ◌∷◌, some}
use nodedeploy_controller.Machine.{Effect, exec}
use nodedeploy_controller.Machine.Plans.{must, may, Performs}
use nodedeploy_controller.Machine.Plans.Rules.{Performs-pure, Performs-bind}
use nodedeploy_controller.Machine.Plans.Errors.{Performs-catch, Performs-ignored, Quits-fail}
use nodedeploy_controller.Env.{Env}
use nodedeploy_controller.Env.Laws.{IsCalm}
use nodedeploy_controller.Ssh.{Client}
use nodedeploy_controller.Ssh.Commands.{Command, exec_cmd-Performs}
use nodedeploy_controller.NodeJoin.Shared.{run_cmd, run_unchecked}

module _ (E : Env) (calm : IsCalm E.ssh) (c : Client E) where
  pub run_cmd-Performs-some :
      (K : Effect → Type 0) (cmd : String) (message : String → String)
      → K (exec ("sudo -S " <> cmd))
      → Performs (must K ∷ []) (run_cmd E (some c) cmd message)
  unfolding run_cmd
  run_cmd-Performs-some K cmd message k =
      Performs-catch _ _
        (Performs-bind _ _ (exec_cmd-Performs E calm c K cmd k) λ _. Performs-pure tt)
        λ e. Quits-fail _

  pub run_cmd-Performs :
      (cmd : String) (message : String → String)
      → Performs (must (Command cmd) ∷ []) (run_cmd E (some c) cmd message)
  run_cmd-Performs cmd message = run_cmd-Performs-some (Command cmd) cmd message refl

  pub run_unchecked-Performs :
      (cmd : String) → Performs (may (Command cmd) ∷ []) (run_unchecked E (some c) cmd)
  unfolding run_unchecked
  run_unchecked-Performs cmd =
      Performs-ignored _ tt (
        Performs-bind _ _ (exec_cmd-Performs E calm c (Command cmd) cmd refl) λ _. Performs-pure tt)
