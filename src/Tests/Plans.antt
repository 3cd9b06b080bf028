-- ===== src/Tests/Plans.antt =====
-- The theorems on plans at concrete inputs.
use nodedeploy_controller.Prelude.{refl, none, String}
use nodedeploy_controller.Api.{NodeDeploy, NodeInfo, init, inactive, active, node_kubeedge}
use nodedeploy_controller.Machine.{State}
use nodedeploy_controller.Machine.Plans.{Does, is_ok}
use nodedeploy_controller.NodeJoin.Work.Steps as WorkSteps
use nodedeploy_controller.NodeJoin.KubeEdge.Steps as KubeEdgeSteps
use nodedeploy_controller.Manager.{launch_by_cmd}
use nodedeploy_controller.Manager.Plan.{launch_plan, launch_work_plan, launch_kube_edge_plan}
use nodedeploy_controller.Phases.{node_info}
use nodedeploy_controller.Tests.World.{World, test_env, a_deploy, a_world, started}
use nodedeploy_controller.Tests.Laws.{calm}

abbrev new_object : NodeDeploy
new_object = a_deploy active init none

abbrev from_new : State World
from_new = started (a_world new_object)

launch_work_plan_example :
    (x : String × String) × Does
      (launch_plan WorkSteps.steps (node_info new_object) x)
      (is_ok (launch_by_cmd test_env (node_info new_object) from_new).0)
      from_new
      (launch_by_cmd test_env (node_info new_object) from_new).1
unfolding node_info
launch_work_plan_example = launch_work_plan test_env calm (node_info new_object) from_new refl

abbrev edge_info : NodeInfo
edge_info = record {
  node_name = "n2";
  node_ip = "10.0.0.8";
  node_type = node_kubeedge;
  node_port = "22";
  node_user = "root";
  node_pwd = "secret";
  harbor_endpoint = "";
  harbor_user = "";
  harbor_pwd = "";
}

launch_kube_edge_plan_example :
    (x : String × String) × Does
      (launch_plan KubeEdgeSteps.steps edge_info x)
      (is_ok (launch_by_cmd test_env edge_info from_new).0)
      from_new
      (launch_by_cmd test_env edge_info from_new).1
launch_kube_edge_plan_example = launch_kube_edge_plan test_env calm edge_info from_new refl

abbrev old_object : NodeDeploy
old_object = a_deploy inactive active none

abbrev from_old : State World
from_old = record (started (a_world old_object)) { object = old_object }
