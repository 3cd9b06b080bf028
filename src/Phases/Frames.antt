-- ===== src/Phases/Frames.antt =====
-- What the phases of `Reconcile` that write no status keep.
use nodedeploy_controller.Prelude.{String, Bool, true, false, Option, none, some}
use nodedeploy_controller.Api.{Node, NodeInfo, NodeStatus}
use nodedeploy_controller.Machine.{
  Effect, event, write_status, update_node, delete_node, cordon_node, evict_pods, dial, exec,
  upload, write_secret, IsRemote, State,
}
use nodedeploy_controller.Machine.Keeps.{
  Keeps, IsRobust, keeps_rules, Keeps-bind, Keeps-gets, Keeps-pure, Keeps-catch, Keeps-if,
}
use nodedeploy_controller.Env.{Env}
use nodedeploy_controller.Env.Laws.{IsRetry}
use nodedeploy_controller.Manager.Frames.{launch_by_cmd-Keeps, deprecate_cmd-Keeps}
use nodedeploy_controller.Node.{mark_node}
use nodedeploy_controller.Node.Frames.{
  find_node-Keeps, drain_node-Keeps, watch_node-Keeps, mark_node-Keeps,
}
use nodedeploy_controller.Phases.{
  now, announce, refuse, preflight_check, finish_launch, launch, or_missing, evict, remove,
  deprecate,
}

-- The effects of bringing a node up, of taking it down, and of both.
abbrev pub IsLaunch : Effect → Type 0
IsLaunch (update_node n) = Unit
IsLaunch e = IsRemote e

abbrev pub IsDeprecation : Effect → Type 0
IsDeprecation (delete_node n) = Unit
IsDeprecation (cordon_node n) = Unit
IsDeprecation (evict_pods ps) = Unit
IsDeprecation e = IsRemote e

module _ {W : Type 0} {P : State W → Type 0} where
  launch_to_remote : IsRobust IsLaunch P → IsRobust IsRemote P
  launch_to_remote r = record { world = r.world; effect = λ s e q. r.effect s e (widen e q) }
    where
      widen : (e : Effect) → IsRemote e → IsLaunch e
      widen (event t r m) q = q
      widen (dial s) q = q
      widen (exec c) q = q
      widen (upload a b) q = q
      widen (write_secret n) q = q
      widen (write_status x) q = q
      widen (update_node n) q = tt
      widen (delete_node n) q = q
      widen (cordon_node n) q = q
      widen (evict_pods ps) q = q

  deprecation_to_remote : IsRobust IsDeprecation P → IsRobust IsRemote P
  deprecation_to_remote r = record { world = r.world; effect = λ s e q. r.effect s e (widen e q) }
    where
      widen : (e : Effect) → IsRemote e → IsDeprecation e
      widen (event t r m) q = q
      widen (dial s) q = q
      widen (exec c) q = q
      widen (upload a b) q = q
      widen (write_secret n) q = q
      widen (write_status x) q = q
      widen (update_node n) q = q
      widen (delete_node n) q = tt
      widen (cordon_node n) q = tt
      widen (evict_pods ps) q = tt

module _ (E : Env) {Q : Effect → Type 0} {P : State E.World → Type 0} (robust : IsRobust Q P)
    (events : (t : _) (r : _) (m : String) → Q (event t r m)) where
  pub now-Keeps : Keeps P (now E)
  unfolding now
  now-Keeps = search (keeps_rules, robust)

  pub announce-Keeps : (x : NodeStatus) → Keeps P (announce E x)
  unfolding announce
  announce-Keeps x = search (keeps_rules, robust, events) depth 8

  refuse-Keeps : (r : Option String) → Keeps P (refuse E r)
  unfolding refuse
  refuse-Keeps none = search keeps_rules
  refuse-Keeps (some reason) = search (keeps_rules, robust, events) depth 8

  pub preflight_check-Keeps : (info : NodeInfo) → Keeps P (preflight_check E info)
  unfolding preflight_check
  preflight_check-Keeps info = search (keeps_rules, refuse-Keeps) depth 8

module _ (E : Env) (law : IsRetry E.retry) {P : State E.World → Type 0}
    (robust : IsRobust IsLaunch P) where
  finish_launch-Keeps : (b : Bool) → Keeps P (finish_launch E b)
  unfolding finish_launch
  finish_launch-Keeps false = search keeps_rules
  finish_launch-Keeps true = Keeps-bind _ _ (Keeps-gets _) λ d.
      Keeps-bind _ _
        (record {
          at =
              law.only_calls_on_conflict P (mark_node E d.spec) robust.world
                (mark_node-Keeps E robust (λ n. tt) d.spec).at;
        })
        λ _. Keeps-pure true

  pub launch-Keeps : (info : NodeInfo) → Keeps P (launch E info)
  unfolding launch
  launch-Keeps info = Keeps-bind _ _ (launch_by_cmd-Keeps E (launch_to_remote robust) info) λ _.
      Keeps-bind _ _ (Keeps-gets _) λ d.
        Keeps-bind _ _
          (Keeps-catch _ _ (watch_node-Keeps E robust (λ t r m. tt) d.spec.node_name true)
            (λ e. search (keeps_rules, robust)))
          finish_launch-Keeps

module _ (E : Env) {P : State E.World → Type 0} (robust : IsRobust IsDeprecation P) where
  or_missing-Keeps : (o : Option Node) → Keeps P (or_missing E o)
  unfolding or_missing
  or_missing-Keeps none = search keeps_rules
  or_missing-Keeps (some node) = search keeps_rules

  evict-Keeps : (b : Bool) (node : Node) → Keeps P (evict E b node)
  unfolding evict
  evict-Keeps false node = search keeps_rules
  evict-Keeps true node =
      Keeps-catch _ _
        (Keeps-bind _ _ (drain_node-Keeps E robust (λ n. tt) (λ ps. tt) node) λ _. Keeps-pure true)
        λ e. search (keeps_rules, robust)

  remove-Keeps : (info : NodeInfo) (node : Node) → Keeps P (remove E info node)
  unfolding remove
  remove-Keeps info node =
      Keeps-bind _ _ (deprecate_cmd-Keeps E (deprecation_to_remote robust) info)
        λ _. search (keeps_rules, robust) depth 10

  pub deprecate-Keeps : (info : NodeInfo) → Keeps P (deprecate E info)
  unfolding deprecate
  deprecate-Keeps info = Keeps-bind _ _ (find_node-Keeps E robust info.node_name) λ found.
      Keeps-bind _ _ (or_missing-Keeps found) λ node. Keeps-bind _ _ (Keeps-gets _) λ d.
        Keeps-bind _ _ (evict-Keeps d.spec.is_evicted node)
          λ drained. Keeps-if drained _ _ (remove-Keeps info node) (Keeps-pure false)
