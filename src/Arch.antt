-- ===== src/Arch.antt =====
-- pkg/nodemanager/utils.go: the version and the architecture of a node.
use nodedeploy_controller.Prelude.{String, ◌<>◌, ◌||◌, if◌then◌else◌}
use nodedeploy_controller.Text.{contains, decimal}
use nodedeploy_controller.Machine.{Error, Outcome, ok, err, panic, errorf}
use nodedeploy_controller.Env.{Version}

minor_version : Outcome Version → Outcome String
minor_version (ok v) = ok (decimal v.major <> "." <> decimal v.minor)
minor_version (err e) = err e
minor_version (panic m) = panic m

-- `getKubernetesVersionStr`, over `semver.NewVersion`
unfoldable pub get_kubernetes_version_str : (String → Outcome Version) → String → Outcome String
unfolding minor_version
get_kubernetes_version_str new_version version = minor_version (new_version version)

abbrev pub bad_arch : Error
bad_arch = errorf "系统架构异常，请检查当前系统架构"

-- `ParseArch`. Where it fails, its caller does not use the text that it returns.
unfoldable pub parse_arch : String → Outcome String
parse_arch system_arch =
    if contains system_arch "aarch64" || contains system_arch "arm64"
    then ok "arm64"
    else if contains system_arch "x86_64" || contains system_arch "amd64"
    then ok "amd64"
    else err bad_arch
