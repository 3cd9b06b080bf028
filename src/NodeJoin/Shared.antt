-- ===== src/NodeJoin/Shared.antt =====
-- pkg/nodemanager/join.go: its constants, and the steps in which its methods run a script.
pub mod Frames
pub mod Commands
use nodedeploy_controller.Prelude.{String, ◌<>◌, Option, none}
use nodedeploy_controller.Text.{to_lower}
use nodedeploy_controller.Machine.{Error, State, Outcome, errorf, pure, fail, catch, ◌>>=◌, ◌>>◌}
use nodedeploy_controller.Env.{Env}
use nodedeploy_controller.Ssh.{Client, exec_cmd}

abbrev pub pkg_path_prefix : String
pkg_path_prefix = "/pkg/nodedeploy"

abbrev pub file_path_prefix : String
file_path_prefix = "/path/to/nodedeploy"

abbrev pub check_arch_cmd : String
check_arch_cmd = "uname -m"

abbrev pub mktemp_cmd : String
mktemp_cmd = "mktemp -d"

-- `bash <prefix>/<type>/<rest>`, with the type in lower case
unfoldable pub script : String → String → String
script node_type rest = "bash " <> file_path_prefix <> "/" <> to_lower node_type <> "/" <> rest

module _ (E : Env) where
  -- `_, err := sshclient.Exec(ctx, cmd); if err != nil { return fmt.Errorf(…) }; return nil`
  unfoldable pub run_cmd :
      Option (Client E) → String → (String → String) → State E.World → Outcome Unit × State E.World
  run_cmd c cmd message = catch (exec_cmd E c cmd >> pure tt) λ e. fail (errorf (message e.message))

  -- `_, err = sshclient.Exec(ctx, cmd)` where the error is overwritten unread.
  unfoldable pub run_unchecked :
      Option (Client E) → String → State E.World → Outcome Unit × State E.World
  run_unchecked c cmd = catch (exec_cmd E c cmd >> pure tt) λ _. pure tt
