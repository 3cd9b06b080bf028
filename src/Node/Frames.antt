-- ===== src/Node/Frames.antt =====
-- Watching and marking a node keep what events and updates of the node do not disturb, and draining
-- keeps what cordoning and evicting do not disturb.
use nodedeploy_controller.Prelude.{String, Bool, true, List, [], ◌∷◌, Option, none, some}
use nodedeploy_controller.Api.{Node, NodeDeploySpec}
use nodedeploy_controller.Machine.{
  Error, Effect, event, update_node, cordon_node, evict_pods, State, pure, ◌>>◌,
}
use nodedeploy_controller.Machine.Keeps.{Keeps, IsRobust, keeps_rules, Keeps-if}
use nodedeploy_controller.Env.{Env, Signal, context_done, closed, received}
use nodedeploy_controller.Node.{
  error_or_done, delete_pods, drain_node, is_awaited, ready_event, watch_loop, find_node,
  watch_node, mark_node,
}

module _ (E : Env) {Q : Effect → Type 0} {P : State E.World → Type 0} (robust : IsRobust Q P) where
  pub find_node-Keeps : (name : String) → Keeps P (find_node E name)
  unfolding find_node
  find_node-Keeps name = search (keeps_rules, robust)

  error_or_done-Keeps : (e : Option Error) → Keeps P (error_or_done E e)
  unfolding error_or_done
  error_or_done-Keeps none = search keeps_rules
  error_or_done-Keeps (some e) = search keeps_rules

  module _ (cordons : (n : String) → Q (cordon_node n))
      (evicts : (ps : List String) → Q (evict_pods ps)) where
    delete_pods-Keeps :
        (pods : List String) (errs : Option (List Error)) → Keeps P (delete_pods E pods errs)
    unfolding delete_pods
    delete_pods-Keeps pods none = search (keeps_rules, robust, evicts)
    delete_pods-Keeps pods (some errs) = error_or_done-Keeps (E.library.aggregate errs)

    pub drain_node-Keeps : (node : Node) → Keeps P (drain_node E node)
    unfolding drain_node
    drain_node-Keeps node =
        search (keeps_rules, robust, cordons, error_or_done-Keeps, delete_pods-Keeps) depth 12

  module _ (events : (t : _) (r : _) (m : String) → Q (event t r m)) where
    watch_loop-Keeps :
        (name : String) (ready : Bool) (signals : List Signal)
        → Keeps P (watch_loop E name ready signals)
    unfolding watch_loop
    watch_loop-Keeps name ready [] = search keeps_rules
    watch_loop-Keeps name ready (context_done ∷ rest) = search keeps_rules
    watch_loop-Keeps name ready (closed ∷ rest) = watch_loop-Keeps name ready rest
    watch_loop-Keeps name ready (received t o ∷ rest) =
        Keeps-if (is_awaited E name ready (received t o)) (ready_event E name ready >> pure true) _
          (search (keeps_rules, robust, events)) (watch_loop-Keeps name ready rest)

    pub watch_node-Keeps : (name : String) (ready : Bool) → Keeps P (watch_node E name ready)
    unfolding watch_node
    watch_node-Keeps name ready =
        search (keeps_rules, robust, events, find_node-Keeps, watch_loop-Keeps) depth 10

  pub mark_node-Keeps :
      ((n : Node) → Q (update_node n)) → (spec : NodeDeploySpec) → Keeps P (mark_node E spec)
  unfolding mark_node
  mark_node-Keeps updates spec = search (keeps_rules, robust, updates) depth 10
