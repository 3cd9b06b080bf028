-- ===== src/NodeJoin/Work/Steps.antt =====
-- What the methods of `WorkNode` do to a node, as the parts of a plan.
use nodedeploy_controller.Prelude.{String, ◌<>◌, refl, ◌||◌, [], ◌∷◌, some, str_eq, if◌then◌else◌}
use nodedeploy_controller.Text.{to_lower}
use nodedeploy_controller.Api.{node_work}
use nodedeploy_controller.Machine.{Effect}
use nodedeploy_controller.Machine.Keeps.{Keeps-catch, Keeps-pure}
use nodedeploy_controller.Machine.Plans.{Plan, must, may, Performs, Performs-quiet, secret-quiet}
use nodedeploy_controller.Machine.Plans.Rules.{
  Performs-pure, Performs-from_outcome, Performs-bind, Performs-bind_last, Performs-if,
}
use nodedeploy_controller.Machine.Plans.Errors.{Performs-catch, Quits-fail}
use nodedeploy_controller.Env.{Env}
use nodedeploy_controller.Env.Laws.{IsCalm}
use nodedeploy_controller.Ssh.{Client}
use nodedeploy_controller.Ssh.Commands.{
  Command, Copy, Chmod, exec_cmd-Performs, upload_file-Performs,
}
use nodedeploy_controller.JoinInfo.Frames.{get_work_join_info-Keeps}
use nodedeploy_controller.NodeJoin.Steps.{Steps, Implements}
use nodedeploy_controller.NodeJoin.Shared.{
  pkg_path_prefix, file_path_prefix, check_arch_cmd, mktemp_cmd, script,
}
use nodedeploy_controller.NodeJoin.Shared.Commands.{
  run_cmd-Performs, run_cmd-Performs-some, run_unchecked-Performs,
}
use nodedeploy_controller.NodeJoin.Work.{
  check_arch, prepare_setup_pkg, stop_firewalld, install_docker, set_docker_conf, set_host_name,
  load_image, set_node_components, join, check_node_version, dis_join,
}

-- The script of a step, with its arguments.
abbrev Script : String → Effect → Type 0
Script text = Command (script node_work text)

-- The join script, with three arguments read from the cluster.
abbrev pub JoinScript : Effect → Type 0
JoinScript e = (a b c : String) × Script ("07-work-join.sh " <> a <> " " <> b <> " " <> c) e

abbrev pub archive : String → String → String
archive arch version = arch <> "-" <> version <> ".tar.gz"

abbrev pub target : String → String → String
target arch version = "/tmp/nodedeploy-" <> archive arch version

abbrev node_dir : String
node_dir = file_path_prefix <> "/" <> to_lower node_work

-- Docker is configured where all three values are given.
abbrev configuring_plan : String → String → String → Plan
configuring_plan user pwd endpoint =
    if str_eq user "" || str_eq pwd "" || str_eq endpoint ""
    then []
    else must (Script ("03-docker_config.sh " <> user <> " " <> pwd <> " " <> endpoint)) ∷ []

abbrev pub steps : Steps
steps = record {
  probing = may (Command mktemp_cmd) ∷ must (Command check_arch_cmd) ∷ [];
  packing = λ arch version.
      must (
        Copy (pkg_path_prefix <> "/" <> to_lower node_work <> "/" <> archive arch version)
          (target arch version))
      ∷ must (Chmod (target arch version))
      ∷ may (Command ("mkdir -p " <> node_dir))
      ∷ must (Command ("tar -xzvf " <> target arch version <> " -C " <> node_dir))
      ∷ [];
  firewall = must (Script "01-stopwalld.sh") ∷ [];
  docker = λ arch. must (Script ("02-docker_install.sh " <> arch <> " ")) ∷ [];
  configuring = configuring_plan;
  naming = λ name. must (Script ("04-homename_setup.sh " <> name)) ∷ [];
  images = must (Script "05-load-image.sh images/work ") ∷ [];
  components = must (Script "06-k8s-setup.sh") ∷ [];
  joining = must JoinScript ∷ [];
}

module _ (E : Env) (calm : IsCalm E.ssh) (c : Client E) where
  check_arch-Performs : Performs steps.probing (check_arch E (some c))
  unfolding check_arch
  check_arch-Performs = Performs-bind _ _ (run_unchecked-Performs E calm c mktemp_cmd) λ _.
      Performs-bind_last _ _
        (Performs-catch _ _
          (exec_cmd-Performs E calm c (Command check_arch_cmd) check_arch_cmd refl)
          λ e. Quits-fail _)
        λ arch. Performs-from_outcome _

  prepare_setup_pkg-Performs :
      (arch version : String)
      → Performs (steps.packing arch version) (prepare_setup_pkg E (some c) arch version)
  unfolding prepare_setup_pkg
  prepare_setup_pkg-Performs arch version =
      Performs-bind _ _ (Performs-catch _ _ (upload_file-Performs E calm c _ _) λ e. Quits-fail _)
        λ _.
          Performs-bind _ _ (run_unchecked-Performs E calm c _) λ _. run_cmd-Performs E calm c _ _

  join-Performs : Performs steps.joining (join E (some c))
  unfolding join
  join-Performs =
      Performs-bind _ _
        (Performs-quiet _
          λ es. Keeps-catch _ _ (get_work_join_info-Keeps E (secret-quiet es)) λ e. Keeps-pure _)
        λ info.
          run_cmd-Performs-some E calm c JoinScript _ _
            (info.master, info.token, info.cert_hash, refl)

  -- The methods carry out the steps, where the SSH library does not panic.
  pub steps-Implements : Implements E steps (some c) (record {
    check_arch = check_arch E;
    check_node_version = check_node_version E;
    prepare_setup_pkg = prepare_setup_pkg E;
    stop_firewalld = stop_firewalld E;
    install_docker = install_docker E;
    set_docker_conf = set_docker_conf E;
    set_host_name = set_host_name E;
    load_image = load_image E;
    set_node_components = set_node_components E;
    join = join E;
    dis_join = dis_join E;
  })
  unfolding stop_firewalld install_docker set_docker_conf set_host_name load_image
      set_node_components
  steps-Implements = record {
    probes = check_arch-Performs;
    packs = prepare_setup_pkg-Performs;
    stops_firewall = run_cmd-Performs E calm c _ _;
    installs_docker = λ arch. run_cmd-Performs E calm c _ _;
    configures =
        λ user pwd endpoint. Performs-if _ _ _ (Performs-pure tt) (run_cmd-Performs E calm c _ _);
    names_host = λ name. run_cmd-Performs E calm c _ _;
    loads_images = run_cmd-Performs E calm c _ _;
    sets_components = run_cmd-Performs E calm c _ _;
    joins = join-Performs;
  }
