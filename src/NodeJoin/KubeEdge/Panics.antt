-- ===== src/NodeJoin/KubeEdge/Panics.antt =====
-- When `KubEdgeNode.Join` panics.
use nodedeploy_controller.Prelude.{String, ◌<>◌, List, [], ◌∷◌, ◌≡◌, refl, ◌≢◌, ◌↔◌, Option}
use nodedeploy_controller.Machine.{Outcome, ok, err, panic, State, ◌>>=◌}
use nodedeploy_controller.Api.{node_kubeedge}
use nodedeploy_controller.Env.{Env}
use nodedeploy_controller.Ssh.{Client, exec_cmd}
use nodedeploy_controller.Ssh.Recovery.{exec_total}
use nodedeploy_controller.JoinInfo.{KubeEdgeJoinInfo, get_kube_edge_join_info}
use nodedeploy_controller.NodeJoin.Shared.{script, run_cmd}
use nodedeploy_controller.NodeJoin.KubeEdge.{join, first_host}

-- No host of the cloud side is known.
abbrev pub IsUninformed : Outcome KubeEdgeJoinInfo → Type 0
IsUninformed (ok info) = info.cloud_hosts ≡ []
IsUninformed (err e) = Unit
IsUninformed (panic m) = Unit

module _ (E : Env) (c : Option (Client E)) where
  run_total_at :
      (cmd : String) (f : String → String) (s : State E.World) (r : Outcome String)
      (t : State E.World)
      → exec_cmd E c cmd s ≡ (r, t)
      → (m : String) → (run_cmd E c cmd f s).0 ≢ panic m
  unfolding run_cmd ◌>>=◌
  run_total_at cmd f s (ok x) t e m = rw e (λ p. cc)
  run_total_at cmd f s (err x) t e m = rw e (λ p. cc)
  run_total_at cmd f s (panic x) t e m = absurd (exec_total E c cmd s x (rw e refl))

  run_total :
      (cmd : String) (f : String → String) (s : State E.World) (m : String)
      → (run_cmd E c cmd f s).0 ≢ panic m
  run_total cmd f s m = run_total_at cmd f s (exec_cmd E c cmd s).0 (exec_cmd E c cmd s).1 refl m

  -- What `Join` does once it has the information.
  informed : KubeEdgeJoinInfo → State E.World → Outcome Unit × State E.World
  informed info = do
    host ← first_host E info.cloud_hosts
    run_cmd E c
        (script node_kubeedge
          ("07-edgecore_join.sh " <> host <> " " <> info.port <> " " <> info.token))
        λ e. "EdgeNode start failed,err:" <> e

  joins_informed :
      (s t : State E.World) (info : KubeEdgeJoinInfo)
      → get_kube_edge_join_info E s ≡ (ok info, t)
      → join E c s ≡ informed info t
  unfolding join informed ◌>>=◌
  joins_informed s t info got = rw got

  from_hosts :
      (t : State E.World) (info : KubeEdgeJoinInfo) (hosts : List String)
      → info.cloud_hosts ≡ hosts
      → ((m : String) × ((informed info t).0 ≡ panic m)) ↔ (info.cloud_hosts ≡ [])
  unfolding informed first_host ◌>>=◌
  from_hosts t info [] same = rw same (λ p. refl, λ p. ("index out of range", refl))
  from_hosts t info (h ∷ hs) same = rw same (λ (m, p). absurd (run_total _ _ t m p), λ e. cc)

  joins :
      (s t : State E.World) (r : Outcome KubeEdgeJoinInfo)
      → get_kube_edge_join_info E s ≡ (r, t)
      → ((m : String) × ((join E c s).0 ≡ panic m)) ↔ IsUninformed r
  unfolding join first_host ◌>>=◌
  joins s t (err e) got = rw got (λ p. tt, λ p. ("index out of range", refl))
  joins s t (panic m) got = rw got (λ p. tt, λ p. (m, refl))
  joins s t (ok info) got =
      rw (joins_informed s t info got) (from_hosts t info info.cloud_hosts refl)

  -- `Join` panics exactly if the information for joining cannot be had or names no host: an error of
  -- `GetKubeEdgeJoinInfo` is not returned to the caller.
  pub join_panics_iff :
      (s : State E.World)
      → ((m : String) × ((join E c s).0 ≡ panic m)) ↔ IsUninformed (get_kube_edge_join_info E s).0
  join_panics_iff s = joins s (get_kube_edge_join_info E s).1 (get_kube_edge_join_info E s).0 refl
