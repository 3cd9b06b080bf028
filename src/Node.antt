-- ===== src/Node.antt =====
-- controllers/utils.go and the parts of controllers/nodedeploy_controller.go that look at a node:
-- draining, readiness, the watch, and the labels, taints and annotations of a new node.
pub mod Draining
pub mod Frames
pub mod Taints
pub mod Watch
use nodedeploy_controller.Prelude.{
  String, ◌<>◌, Bool, true, false, ◌||◌, List, [], ◌∷◌, ◌++◌, Option, none, some, str_eq,
  if◌then◌else◌,
}
use nodedeploy_controller.Api.{
  StringMap, Taint, Node, NodeCondition, NodeDeploy, NodeDeploySpec, NodeStatus, unknown, init,
  inactive, active, launching, launch_fail, deprecating, deprecate_fail, normal, launch_node,
}
use nodedeploy_controller.Machine.{
  Cause, not_found, already_exists, conflict, other, Error, Outcome, State, ok, err, panic, event,
  update_node, cordon_node, evict_pods, pure, fail, crash, gets, call, perform, from_outcome, emit,
  ◌>>=◌, ◌>>◌,
}
use nodedeploy_controller.Env.{
  Env, Signal, context_done, closed, received, WatchType, added, modified, deleted, bookmark, error,
}
use nodedeploy_controller.Token.{insert}

-- `nodeIsReady` and its loop over the conditions
unfoldable pub has_ready_condition : List NodeCondition → Bool
has_ready_condition [] = false
has_ready_condition (c ∷ cs) = if str_eq c.type_name "Ready" then true else has_ready_condition cs

unfoldable pub node_is_ready : Node → Bool
unfolding has_ready_condition
node_is_ready node = has_ready_condition node.conditions

-- `getBeforeStatus`
unfoldable pub get_before_status : NodeStatus → NodeStatus
get_before_status launching = inactive
get_before_status deprecating = active
get_before_status _ = unknown

-- `getSecretName`
unfoldable pub get_secret_name : NodeDeploy → String
get_secret_name d = "nodedeploy-" <> d.name

module _ (match_taint : Taint → Taint → Bool) where
  unfoldable pub has_taint : Taint → List Taint → Bool
  has_taint t1 [] = false
  has_taint t1 (t2 ∷ ts) = if match_taint t1 t2 then true else has_taint t1 ts

  -- The loop over `Spec.Taints` in `launchNode`: the taints of the node grow.
  unfoldable pub add_taints : List Taint → List Taint → List Taint
  unfolding has_taint
  add_taints [] node_taints = node_taints
  add_taints (t1 ∷ ts) node_taints =
      add_taints ts (if has_taint t1 node_taints then node_taints else node_taints ++ (t1 ∷ []))

unfoldable pub insert_all : StringMap → StringMap → StringMap
insert_all [] m = m
insert_all ((k, v) ∷ kvs) m = insert_all kvs (insert k v m)

-- The loop over `Spec.Annotations`: an assignment to a nil map panics.
unfoldable pub annotate : StringMap → Option StringMap → Outcome (Option StringMap)
unfolding insert_all
annotate [] m = ok m
annotate (kv ∷ kvs) none = panic "assignment to entry in nil map"
annotate (kv ∷ kvs) (some m) = ok (some (insert_all (kv ∷ kvs) m))

abbrev pub bool_string : Bool → String
bool_string true = "true"
bool_string false = "false"

abbrev pub same_bool : Bool → Bool → Bool
same_bool true b = b
same_bool false b = if b then false else true

module _ (E : Env) where
  error_or_done : Option Error → State E.World → Outcome Unit × State E.World
  error_or_done none = pure tt
  error_or_done (some e) = fail e

  delete_pods : List String → Option (List Error) → State E.World → Outcome Unit × State E.World
  unfolding error_or_done
  delete_pods pods none = perform (evict_pods pods) (E.cluster.delete_or_evict_pods pods)
  delete_pods pods (some errs) = error_or_done (E.library.aggregate errs)

  -- `drainNode`
  unfoldable pub drain_node : Node → State E.World → Outcome Unit × State E.World
  unfolding error_or_done delete_pods
  drain_node node = do
    patched ← perform (cordon_node node.name) (E.cluster.patch_or_replace node)
    error_or_done patched.1
    error_or_done patched.0
    listed ← call (E.cluster.get_pods_for_deletion node.name)
    delete_pods listed.0 listed.1

  abbrev ready_event : String → Bool → State E.World → Outcome Unit × State E.World
  ready_event name ready =
      emit (event normal launch_node ("node " <> name <> " ready: " <> bool_string ready))

  -- Whether an event of the watch ends it: it shows the node by its name, in the state wanted.
  unfoldable pub is_awaited : String → Bool → Signal → Bool
  is_awaited name ready (received added (some node)) =
      if str_eq node.name name then same_bool (node_is_ready node) ready else false
  is_awaited name ready (received modified (some node)) =
      if str_eq node.name name then same_bool (node_is_ready node) ready else false
  is_awaited name ready _ = false

  -- The `for` and `select` in `watchNode`, over what it receives. Where nothing is left the timer
  -- fires. A receive from the closed channel is passed over.
  unfoldable pub watch_loop :
      String → Bool → List Signal → State E.World → Outcome Bool × State E.World
  unfolding is_awaited
  watch_loop name ready [] = pure false
  watch_loop name ready (context_done ∷ rest) = pure false
  watch_loop name ready (closed ∷ rest) = watch_loop name ready rest
  watch_loop name ready (received t o ∷ rest) =
      let more = watch_loop name ready rest in
      if is_awaited name ready (received t o) then ready_event name ready >> pure true else more

  -- The node if the server has it: that it is missing is no error.
  unfoldable pub present : Outcome Node → Outcome (Option Node)
  present (ok node) = ok (some node)
  present (err e) = elim e.cause [ not_found ↦ ok none | _ ↦ err e ]
  present (panic m) = panic m

  unfoldable pub find_node : String → State E.World → Outcome (Option Node) × State E.World
  unfolding present
  find_node name = call (λ w. let (r, w') = E.cluster.get_node name w in (present r, w'))

  abbrev shows_ready : Bool → Option Node → Bool
  shows_ready ready none = false
  shows_ready ready (some node) = same_bool (node_is_ready node) ready

  -- `watchNode`
  unfoldable pub watch_node : String → Bool → State E.World → Outcome Bool × State E.World
  unfolding node_is_ready
  watch_node name ready = do
    seen ← find_node name
    if shows_ready ready seen
        then ready_event name ready >> pure true
        else do signals ← call E.cluster.watch_nodes; watch_loop name ready signals

  abbrev labelled : NodeDeploySpec → Node → Node
  labelled spec node = record node {
    labels = E.library.merge node.labels spec.labels;
    taints = add_taints E.library.match_taint spec.taints node.taints;
  }

  -- The function given to `RetryOnConflict` in `launchNode`.
  unfoldable pub mark_node : NodeDeploySpec → State E.World → Outcome Unit × State E.World
  mark_node spec = do
    node ← call (E.cluster.get_node spec.node_name)
    annotations ← from_outcome (annotate spec.annotations node.annotations)
    let marked = record (labelled spec node) { annotations = annotations }
    perform (update_node marked) (E.cluster.update_node marked)
