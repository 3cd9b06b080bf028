-- ===== src/NodeJoin/Work.antt =====
-- pkg/nodemanager/join.go and disjoin.go: the methods of `WorkNode`.
pub mod Frames
pub mod Steps
use nodedeploy_controller.Prelude.{
  String, ◌<>◌, Bool, ◌||◌, List, [], ◌∷◌, Option, none, some, str_eq, if◌then◌else◌,
}
use nodedeploy_controller.Text.{to_lower}
use nodedeploy_controller.Arch.{get_kubernetes_version_str, parse_arch}
use nodedeploy_controller.Api.{node_work}
use nodedeploy_controller.Machine.{
  Error, Outcome, State, errorf, ok, err, panic, pure, fail, crash, catch, from_outcome, ◌>>=◌,
  ◌>>◌,
}
use nodedeploy_controller.Env.{Env}
use nodedeploy_controller.Ssh.{Client, exec_cmd, upload_file}
use nodedeploy_controller.JoinInfo.{WorkJoinInfo, get_work_join_info}
use nodedeploy_controller.NodeJoin.Shared.{
  pkg_path_prefix, file_path_prefix, check_arch_cmd, mktemp_cmd, script, run_cmd, run_unchecked,
}

module _ (E : Env) where
  -- The name of the temporary directory and the architecture read are only logged.
  unfoldable pub check_arch : Option (Client E) → State E.World → Outcome String × State E.World
  check_arch c = do
    run_unchecked E c mktemp_cmd
    arch ←
        catch (exec_cmd E c check_arch_cmd) λ e. fail (errorf ("系统架构异常，请检查当前系统架构, " <> e.message))
    from_outcome (parse_arch arch)

  invalid_version : Outcome String → Outcome String
  invalid_version (ok v) = ok v
  invalid_version (err e) = err (errorf ("invalid kubernetes version, err: " <> e.message))
  invalid_version (panic m) = panic m

  unfoldable pub check_node_version : String → Outcome String
  unfolding invalid_version
  check_node_version version =
      invalid_version (get_kubernetes_version_str E.library.new_version version)

  unfoldable pub prepare_setup_pkg :
      Option (Client E) → String → String → State E.World → Outcome Unit × State E.World
  prepare_setup_pkg c arch version = do
    let file = arch <> "-" <> version <> ".tar.gz"
    let src = pkg_path_prefix <> "/" <> to_lower node_work <> "/" <> file
    let dest = "/tmp/nodedeploy-" <> file
    catch (upload_file E c src dest) λ e. fail (errorf ("Upload failed, err: " <> e.message))
    let dir = file_path_prefix <> "/" <> to_lower node_work
    run_unchecked E c ("mkdir -p " <> dir)
    run_cmd E c ("tar -xzvf " <> dest <> " -C " <> dir)
        λ e. "Failed to extract the zip file, err: " <> e

  unfoldable pub stop_firewalld : Option (Client E) → State E.World → Outcome Unit × State E.World
  stop_firewalld c =
      run_cmd E c (script node_work "01-stopwalld.sh")
        λ e. "Failed to turn off the system firewall setting, " <> e

  unfoldable pub install_docker :
      Option (Client E) → String → State E.World → Outcome Unit × State E.World
  install_docker c arch =
      run_cmd E c (script node_work ("02-docker_install.sh " <> arch <> " "))
        λ e. "docker doesn't exist, " <> e

  -- Without the three values of Harbor the step is passed over.
  unfoldable pub set_docker_conf :
      Option (Client E) → String → String → String → State E.World → Outcome Unit × State E.World
  set_docker_conf c user pwd endpoint =
      if str_eq user "" || str_eq pwd "" || str_eq endpoint ""
      then pure tt
      else run_cmd E c
          (script node_work ("03-docker_config.sh " <> user <> " " <> pwd <> " " <> endpoint))
          (λ e. "docker config.json doesn't exist, " <> e)

  unfoldable pub set_host_name :
      Option (Client E) → String → State E.World → Outcome Unit × State E.World
  set_host_name c hostname =
      run_cmd E c (script node_work ("04-homename_setup.sh " <> hostname))
        λ e. "The node has already been set up, " <> e

  unfoldable pub load_image : Option (Client E) → State E.World → Outcome Unit × State E.World
  load_image c =
      run_cmd E c (script node_work "05-load-image.sh images/work ")
        λ e. "the image file does not exist, " <> e

  unfoldable pub set_node_components :
      Option (Client E) → State E.World → Outcome Unit × State E.World
  set_node_components c =
      run_cmd E c (script node_work "06-k8s-setup.sh") λ e. "workerNode doesn't exist, " <> e

  -- An error of `GetWorkJoinInfo` is logged, and its results are empty texts.
  unfoldable pub join : Option (Client E) → State E.World → Outcome Unit × State E.World
  join c = do
    info ←
        catch (get_work_join_info E) λ _. pure (record { master = ""; token = ""; cert_hash = "" })
    run_cmd E c
        (script node_work
          ("07-work-join.sh " <> info.master <> " " <> info.token <> " " <> info.cert_hash))
        λ e. "workerNode start failed,err:" <> e

  unfoldable pub dis_join : Option (Client E) → State E.World → Outcome Unit × State E.World
  dis_join c =
      run_cmd E c ("bash " <> file_path_prefix <> "/" <> node_work <> "/08-work-disjoin.sh ")
        λ e. "fail to deprecate, err: " <> e
