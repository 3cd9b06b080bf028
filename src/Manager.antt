-- ===== src/Manager.antt =====
-- pkg/nodemanager/manager.go: bringing a node up and taking it down over SSH.
pub mod Frames
pub mod Offline
pub mod Plan
use nodedeploy_controller.Prelude.{
  ℕ, zero, suc, String, ◌<>◌, Option, none, some, str_eq, if◌then◌else◌,
}
use nodedeploy_controller.Api.{
  NodeInfo, node_work, node_kubeedge, normal, status_message, deprecate,
}
use nodedeploy_controller.Machine.{
  Error, Outcome, State, errorf, ok, err, panic, event, pure, fail, crash, gets, catch,
  from_outcome, emit, ◌>>=◌, ◌>>◌,
}
use nodedeploy_controller.Env.{Env}
use nodedeploy_controller.Progress.{Progress, new_progress, steps, string}
use nodedeploy_controller.Ssh.{Client, new_client}
use nodedeploy_controller.NodeJoin.{NodeJoin}
use nodedeploy_controller.NodeJoin.Work
use nodedeploy_controller.NodeJoin.KubeEdge

module _ (E : Env) where
  -- A method of a nil interface panics.
  nil_join : NodeJoin E
  nil_join = record {
    check_arch = λ c. crash "nil interface";
    check_node_version = λ v. panic "nil interface";
    prepare_setup_pkg = λ c a v. crash "nil interface";
    stop_firewalld = λ c. crash "nil interface";
    install_docker = λ c a. crash "nil interface";
    set_docker_conf = λ c u p e. crash "nil interface";
    set_host_name = λ c h. crash "nil interface";
    load_image = λ c. crash "nil interface";
    set_node_components = λ c. crash "nil interface";
    join = λ c. crash "nil interface";
    dis_join = λ c. crash "nil interface";
  }

  abbrev pub work_node : NodeJoin E
  work_node = record {
    check_arch = Work.check_arch E;
    check_node_version = Work.check_node_version E;
    prepare_setup_pkg = Work.prepare_setup_pkg E;
    stop_firewalld = Work.stop_firewalld E;
    install_docker = Work.install_docker E;
    set_docker_conf = Work.set_docker_conf E;
    set_host_name = Work.set_host_name E;
    load_image = Work.load_image E;
    set_node_components = Work.set_node_components E;
    join = Work.join E;
    dis_join = Work.dis_join E;
  }

  abbrev pub kube_edge_node : NodeJoin E
  kube_edge_node = record {
    check_arch = KubeEdge.check_arch E;
    check_node_version = KubeEdge.check_node_version E;
    prepare_setup_pkg = KubeEdge.prepare_setup_pkg E;
    stop_firewalld = KubeEdge.stop_firewalld E;
    install_docker = KubeEdge.install_docker E;
    set_docker_conf = KubeEdge.set_docker_conf E;
    set_host_name = KubeEdge.set_host_name E;
    load_image = KubeEdge.load_image E;
    set_node_components = KubeEdge.set_node_components E;
    join = KubeEdge.join E;
    dis_join = KubeEdge.dis_join E;
  }

  -- The `switch` over the node's type, which has no default.
  unfoldable pub select_node : String → NodeJoin E
  unfolding nil_join
  select_node node_type =
      if str_eq node_type node_work
      then work_node
      else if str_eq node_type node_kubeedge
      then kube_edge_node
      else nil_join

  -- `StatusMessage.String`
  unfoldable pub message_string : String → String → String → String
  message_string phase message progress = elim (E.library.marshal phase message progress) [
    | some text ↦ text
    | none ↦ "{}"
  ]

  -- `logMessage`
  unfoldable pub log_message :
      String → String → Progress → State E.World → Outcome Unit × State E.World
  unfolding message_string string
  log_message phase message p =
      emit (event normal status_message (message_string phase message (string p)))

  -- One step of `LaunchByCmd`: log, call, and on an error log again and return it.
  unfoldable pub stage :
      {A : Type 0}
      → Progress
      → String
      → String
      → String
      → (String → String)
      → (State E.World → Outcome A × State E.World)
      → State E.World
      → Outcome A × State E.World
  stage p phase message failed_phase failed_message m = do
    log_message phase message p
    catch m λ e. log_message failed_phase (failed_message e.message) p >> fail e

  -- The steps of `LaunchByCmd` behind the SSH connection.
  unfoldable pub launch_steps :
      NodeJoin E → NodeInfo → Option (Client E) → State E.World → Outcome Unit × State E.World
  launch_steps n info c = do
    let p = new_progress 10
    arch ←
        stage (steps 1 p) "Check architecture" "Check architecture" "Check architecture"
          (λ _. "Check architecture") (n.check_arch c)
    wanted ← gets (λ s. s.object.spec.node_version)
    version ←
        stage (steps 2 p) "Check Kubernetes Version" "Check Kubernetes Version" "Kubernetes Install"
          (λ _. "invalid kubernetes version") (from_outcome (n.check_node_version wanted))
    stage (steps 3 p) "Prepare Package" "Prepare the offline installation package" "Prepare Package"
        (λ _. "Prepare the offline installation package failed")
        (n.prepare_setup_pkg c arch version)
    stage (steps 4 p) "Stop Firewalld" "Turn off the system firewall settings" "Stop Firewalld"
        (λ e. "Failed to turn off the system firewall setting, " <> e) (n.stop_firewalld c)
    stage (steps 5 p) "Docker Install" "Installing docker" "Docker Install"
        (λ e. "docker doesn't exist, " <> e) (n.install_docker c arch)
    stage (steps 6 p) "Docker Config" "Configure the docker configuration file\n" "Docker Config"
        (λ e. "docker config.json doesn't exist, " <> e)
        (n.set_docker_conf c info.harbor_user info.harbor_pwd info.harbor_endpoint)
    stage (steps 7 p) "SetUp Hostname" "Setup hostname" "SetUp Hostname "
        (λ e. " The node has already been set up, " <> e) (n.set_host_name c info.node_name)
    stage (steps 8 p) "Load  Images" "Loading Images" "Load  Images"
        (λ e. " the image file does not exist, " <> e) (n.load_image c)
    stage (steps 9 p) " Node Setup" "Setup workerNode" "Node Setup "
        (λ e. "workerNode doesn't exist, " <> e) (n.set_node_components c)
    stage (steps 10 p) "Node Join" "start workerNode" "Node start" (λ _. "workerNode Join failed")
        (n.join c)
    log_message "Launch Success" "Nodes are added to the cluster" (steps 10 p)

  -- `LaunchByCmd`
  unfoldable pub launch_by_cmd : NodeInfo → State E.World → Outcome Unit × State E.World
  launch_by_cmd info = do
    c ←
        catch (new_client E info.node_ip info.node_port info.node_user info.node_pwd)
          λ _. fail (errorf "Create ssh client failed")
    launch_steps (select_node info.node_type) info (some c)

  -- The client of `Deprecate`: where it cannot be made the error is logged and the pointer is nil.
  unfoldable pub client_or_nil :
      NodeInfo → State E.World → Outcome (Option (Client E)) × State E.World
  client_or_nil info =
      catch
        (do
          c ← new_client E info.node_ip info.node_port info.node_user info.node_pwd
          pure (some c))
        λ _. pure none

  -- `Deprecate`
  unfoldable pub deprecate_cmd : NodeInfo → State E.World → Outcome Unit × State E.World
  unfolding client_or_nil
  deprecate_cmd info = do
    let n = select_node info.node_type
    let p = steps 1 (new_progress 1)
    c ← client_or_nil info
    log_message "Deprecate Node" "shutdown workerNode" p
    catch (n.dis_join c) λ e. log_message "Deprecate Node" "fail to deprecate" p >> fail e
    emit (event normal deprecate "deprecate success")
    log_message "Deprecate Node" "deprecate success" p
