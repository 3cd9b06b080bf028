-- ===== src/JoinInfo/Frames.antt =====
-- Reading the join information keeps what remote effects do not disturb.
use nodedeploy_controller.Prelude.{
  String, Option, none, some, List, [], ◌∷◌, inl, inr, Option-cases,
}
use nodedeploy_controller.Machine.{State, IsSecretWrite}
use nodedeploy_controller.Machine.Keeps.{Keeps, IsRobust, keeps_rules}
use nodedeploy_controller.Env.{Env, KubeCluster}
use nodedeploy_controller.Token.Frames.{get_token-Keeps}
use nodedeploy_controller.JoinInfo.{
  in_cluster_client, get_kube_edge_join_info, cluster_or_fail, load_certs, first_pin,
  get_work_join_info,
}

module _ (E : Env) {P : State E.World → Type 0} (robust : IsRobust IsSecretWrite P) where
  in_cluster_client-Keeps : Keeps P (in_cluster_client E)
  unfolding in_cluster_client
  in_cluster_client-Keeps = search (keeps_rules, robust)

  pub get_kube_edge_join_info-Keeps : Keeps P (get_kube_edge_join_info E)
  unfolding get_kube_edge_join_info
  get_kube_edge_join_info-Keeps = search (keeps_rules, robust, in_cluster_client-Keeps) depth 16

  cluster_or_fail-Keeps : (c : Option KubeCluster) → Keeps P (cluster_or_fail E c)
  unfolding cluster_or_fail
  cluster_or_fail-Keeps none = search keeps_rules
  cluster_or_fail-Keeps (some c) = search keeps_rules

  load_certs-Keeps : (c : KubeCluster) → Keeps P (load_certs E c)
  unfolding load_certs
  load_certs-Keeps c = elim (Option-cases c.authority_data) [
    | inl e ↦ rw e (search (keeps_rules, robust))
    | inr (pem, e) ↦ rw e (search keeps_rules)
  ]

  first_pin-Keeps : (pins : List String) → Keeps P (first_pin E pins)
  unfolding first_pin
  first_pin-Keeps [] = search keeps_rules
  first_pin-Keeps (pin ∷ _) = search keeps_rules

  pub get_work_join_info-Keeps : Keeps P (get_work_join_info E)
  unfolding get_work_join_info
  get_work_join_info-Keeps =
      search
        (
          keeps_rules, robust, in_cluster_client-Keeps, cluster_or_fail-Keeps, load_certs-Keeps,
          first_pin-Keeps, get_token-Keeps,
        )
        depth 30
