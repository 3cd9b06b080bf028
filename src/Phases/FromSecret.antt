-- ===== src/Phases/FromSecret.antt =====
-- controllers/nodedeploy_controller.go: `getNodeInfoFormSecret`, which reads the information on a node
-- from a secret. `Reconcile` has its call in a comment.
use nodedeploy_controller.Prelude.{◌<>◌, ◌≡◌, ◌↔◌, arith}
use nodedeploy_controller.Api.{NodeDeploy, NodeInfo, StringMap}
use nodedeploy_controller.Machine.{Outcome, ok, State, call, from_outcome, ◌>>=◌}
use nodedeploy_controller.Env.{Env}
use nodedeploy_controller.Node.{get_secret_name}
use nodedeploy_controller.Token.{get_or_empty}

module _ (E : Env) where
  unfoldable pub get_node_info_form_secret :
      NodeDeploy → State E.World → Outcome NodeInfo × State E.World
  get_node_info_form_secret d = do
    entries ← call (E.cluster.get_secret_data d.namespace (get_secret_name d))
    from_outcome (E.library.unmarshal_node_info (get_or_empty "nodeInfo" entries))

  -- The information is returned exactly if the server has the secret of the object's name and the entry
  -- `nodeInfo`, empty where it is missing, can be parsed.
  pub get_node_info_iff :
      (d : NodeDeploy) (info : NodeInfo) (s : State E.World)
      → ((get_node_info_form_secret d s).0 ≡ ok info) ↔ (
          (entries : StringMap) × ((E.cluster.get_secret_data d.namespace
              ("nodedeploy-" <> d.name)
              s.world).0
            ≡ ok entries)
          × (E.library.unmarshal_node_info (get_or_empty "nodeInfo" entries) ≡ ok info))
  unfolding get_node_info_form_secret ◌>>=◌ get_secret_name
  get_node_info_iff d info s = ground arith
