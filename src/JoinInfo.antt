-- ===== src/JoinInfo.antt =====
-- pkg/nodemanager/token.go: what a node needs to join, read from the cluster.
pub mod Frames
use nodedeploy_controller.Prelude.{
  String, ◌<>◌, Bool, true, false, List, [], ◌∷◌, map, Option, none, some, str_eq, if◌then◌else◌,
}
use nodedeploy_controller.Text.{remove_all, to_lower}
use nodedeploy_controller.Machine.{
  Error, Outcome, State, errorf, pure, fail, crash, call, catch, from_outcome, ◌>>=◌, ◌>>◌,
}
use nodedeploy_controller.Env.{Env, Kube, KubeCluster, KubeConfig}
use nodedeploy_controller.Token.{get_or_empty, wrap, get_token}

pub record WorkJoinInfo : Type 0 where
  pub master : String
  pub token : String
  pub cert_hash : String

pub record KubeEdgeJoinInfo : Type 0 where
  pub cloud_hosts : List String
  pub port : String
  pub token : String

-- A read of a map whose missing keys give nil.
unfoldable pub find_entry : {A : Type 0} → String → List (String × A) → Option A
find_entry k [] = none
find_entry k ((j, a) ∷ m) = if str_eq j k then some a else find_entry k m

-- `GetClusterFromKubeConfig`; of its results the callers use the cluster.
unfoldable pub get_cluster_from_kube_config : KubeConfig → Option KubeCluster
unfolding find_entry
get_cluster_from_kube_config config = elim (find_entry "" config.clusters) [
  | some unnamed ↦ some unnamed
  | none ↦ elim (find_entry config.current_context config.contexts) [
    | some cluster ↦ find_entry cluster config.clusters
    | none ↦ none
  ]
]

-- `Hash`
unfoldable pub hash : (String → String) → String → String
hash sha256_hex certificate = "sha256" <> ":" <> to_lower (sha256_hex certificate)

module _ (E : Env) where
  in_cluster_client : State E.World → Outcome Unit × State E.World
  in_cluster_client = do
    catch (call E.kube.in_cluster_config)
        λ e. fail (errorf ("Get InClusterConfig Failed,err:" <> e.message <> " "))
    catch (call E.kube.new_for_config)
        λ e. fail (errorf ("Create ClientSet  By InClusterConfig Failed,err:" <> e.message <> " "))

  -- `GetKubeEdgeJoinInfo`
  unfoldable pub get_kube_edge_join_info : State E.World → Outcome KubeEdgeJoinInfo × State E.World
  unfolding in_cluster_client
  get_kube_edge_join_info = do
    in_cluster_client
    entries ← call (E.kube.get_config_map "kubeedge" "cloudcore")
    config ← from_outcome (E.kube.unmarshal_cloud_core (get_or_empty "cloudcore.yaml" entries))
    secret ← call (E.kube.get_secret "kubeedge" "tokensecret")
    pure (record {
      cloud_hosts = config.advertise_address;
      port = config.websocket_port;
      token = get_or_empty "tokendata" secret;
    })

  -- `GetClusterFromInClusterConfig`: what it writes back into the maps of the loaded configuration is
  -- what it read, and a nil map reads like the empty map that it puts in its place.
  abbrev pub get_cluster_from_in_cluster_config : String → Outcome KubeConfig
  get_cluster_from_in_cluster_config text = E.kube.load_kube_config text

  cluster_or_fail : Option KubeCluster → State E.World → Outcome KubeCluster × State E.World
  cluster_or_fail none = fail (errorf "failed to get default cluster config")
  cluster_or_fail (some c) = pure c

  -- The certificates, from PEM data or else from a file.
  load_certs : KubeCluster → State E.World → Outcome (List String) × State E.World
  load_certs c = elim c.authority_data [
    | some pem ↦
        catch (from_outcome (E.kube.parse_certs_pem pem))
          λ e. fail (wrap e "failed to parse CA certificate from kubeconfig")
    | none ↦
        if str_eq c.authority_file ""
        then fail (errorf "no CA certificates found in kubeconfig")
        else catch (call (E.kube.certs_from_file c.authority_file))
            (λ e. fail (wrap e "failed to load CA certificate referenced by kubeconfig"))
  ]

  -- `publicKeyPins[0]`
  first_pin : List String → State E.World → Outcome String × State E.World
  first_pin [] = crash "index out of range"
  first_pin (pin ∷ _) = pure pin

  -- `GetWorkJoinInfo`
  unfoldable pub get_work_join_info : State E.World → Outcome WorkJoinInfo × State E.World
  unfolding in_cluster_client cluster_or_fail load_certs first_pin
  get_work_join_info = do
    in_cluster_client
    entries ←
        catch (call (E.kube.get_config_map "kube-public" "cluster-info"))
          λ e. fail (errorf ("Get K8sConfigMap Failed,err:" <> e.message <> " "))
    config ←
        catch
          (from_outcome (get_cluster_from_in_cluster_config (get_or_empty "kubeconfig" entries)))
          λ e. fail (errorf ("Get GetClusterFromInClusterConfig Failed,err:" <> e.message <> " "))
    cluster ← cluster_or_fail (get_cluster_from_kube_config config)
    let master = remove_all cluster.server "https://"
    certs ← load_certs cluster
    let pins = map (hash E.kube.sha256_hex) certs
    token ← catch (get_token E) λ e. fail (wrap e "get Token failed")
    pin ← first_pin pins
    pure (record { master = master; token = token; cert_hash = pin })
