-- ===== src/Phases.antt =====
-- controllers/nodedeploy_controller.go: the functions that `Reconcile` is made of.
pub mod Frames
pub mod Preflight
pub mod Takedown
pub mod Marking
pub mod FromSecret
use nodedeploy_controller.Prelude.{
  ℕ, ◌+◌, ◌-◌, ◌*◌, ◌^◌, String, ◌<>◌, Bool, true, false, not, ◌&&◌, ◌||◌, Option, none, some, ltb,
  str_eq, if◌then◌else◌,
}
use nodedeploy_controller.Duration.{ℤ, pos, negsuc, sub_ℕ, minute}
use nodedeploy_controller.Api.{
  Node, NodeDeploy, NodeInfo, NodeStatus, unknown, init, inactive, active, launching, launch_fail,
  deprecating, deprecate_fail, same_status, status_string, normal, warning, status_message,
  change_status, invalid_status, preflight, launch_node, deprecate_node,
}
use nodedeploy_controller.Machine.{
  Cause, not_found, already_exists, conflict, other, Error, Outcome, State, ok, err, panic, errorf,
  event, write_status, delete_node, pure, fail, crash, gets, call, perform, catch, from_outcome,
  emit, assign, set_outcome, ◌>>=◌, ◌>>◌,
}
use nodedeploy_controller.Env.{Env, Version}
use nodedeploy_controller.Manager.{message_string, launch_by_cmd, deprecate_cmd}
use nodedeploy_controller.Node.{
  get_before_status, get_secret_name, drain_node, find_node, watch_node, mark_node,
}

-- `ctrl.Result`, whose field `Requeue` is never set
pub record Result : Type 0 where
  pub requeue_after : ℤ

abbrev pub done : Result
done = record { requeue_after = pos 0 }

-- `uint` of an int32, on 64 bits
unfoldable pub to_uint : ℤ → ℕ
to_uint (pos n) = n
to_uint (negsuc n) = 2 ^ 64 - (n + 1)

-- `DeadlineDuration`
abbrev pub deadline_duration : ℕ
deadline_duration = 30 * minute

-- `5 * time.Second`
abbrev pub retry_delay : ℕ
retry_delay = 5000000000

unfoldable pub node_info : NodeDeploy → NodeInfo
node_info d = record {
  node_name = d.spec.node_name;
  node_ip = d.spec.node_ip;
  node_type = d.spec.node_type;
  node_port = d.spec.node_port;
  node_user = d.spec.node_user;
  node_pwd = d.spec.node_pwd;
  harbor_endpoint = d.spec.harbor_endpoint;
  harbor_user = d.spec.harbor_user;
  harbor_pwd = d.spec.harbor_pwd;
}

module _ {W : Type 0} where
  -- `nodeDeploy.Status.NodeStatus = x`
  abbrev pub set_status : NodeStatus → State W → Outcome Unit × State W
  set_status x = assign (λ d. record d { status = record d.status { node_status = x } })

  -- `nodeDeploy.Status.Deadline = t`
  abbrev pub set_deadline : Option ℕ → State W → Outcome Unit × State W
  set_deadline t = assign (λ d. record d { status = record d.status { deadline = t } })

-- The function literals of `launchNode` and `Reconcile` are definitions of their own.
module _ (E : Env) where
  -- `time.Now`
  unfoldable pub now : State E.World → Outcome ℕ × State E.World
  now = call (λ w. let (t, w') = E.cluster.now w in (ok t, w'))

  -- `r.Status().Update(ctx, nodeDeploy)`: the object becomes the one that the server returns.
  unfoldable pub update_status : State E.World → Outcome Unit × State E.World
  update_status = do
    d ← gets (λ s. s.object)
    stored ← perform (write_status d.status) (E.cluster.update_status d)
    assign (λ _. stored)

  -- The event for a change of the status.
  unfoldable pub announce : NodeStatus → State E.World → Outcome Unit × State E.World
  unfolding status_string
  announce x = do
    d ← gets (λ s. s.object)
    emit (
        event normal change_status
          (status_string d.status.node_status <> " -> " <> status_string x))

  unfoldable pub prepare : NodeStatus → State E.World → Outcome Unit × State E.World
  unfolding now update_status announce
  prepare x = do
    t ← now
    set_deadline (some (t + deadline_duration))
    announce x
    set_status x
    update_status

  unfoldable pub finalize : NodeStatus → State E.World → Outcome Unit × State E.World
  unfolding update_status announce
  finalize x = do announce x; set_status x; set_deadline none; update_status

  version_reason : Outcome Version → Outcome (Option String)
  version_reason (ok v) = ok none
  version_reason (err e) = ok (some ("invalid NodeVersion, err: " <> e.message))
  version_reason (panic m) = panic m

  label_reason : Option Error → Option String
  label_reason none = none
  label_reason (some e) = some ("invalid nodeLabels, err: " <> e.message)

  -- Why `preflight` refuses, or `none` where it succeeds.
  unfoldable pub preflight_reason : NodeDeploy → NodeInfo → Outcome (Option String)
  unfolding version_reason label_reason
  preflight_reason d info =
      if not (str_eq d.spec.node_name info.node_name) || not (str_eq d.spec.node_ip info.node_ip)
      then ok (
          some (
            "nodeName or nodeIP does not match the config in secret "
            <> d.namespace
            <> "/"
            <> get_secret_name d))
      else elim (label_reason (E.library.validate_labels d.spec.labels)) [
        | some reason ↦ ok (some reason)
        | none ↦
            if E.library.parse_ip d.spec.node_ip
            then version_reason (E.library.new_version d.spec.node_version)
            else ok (some "nodeIP is an invalid ip address")
      ]

  refuse : Option String → State E.World → Outcome Bool × State E.World
  refuse none = pure true
  refuse (some reason) = do
    emit (event warning status_message (message_string E "Parameter validate" reason "1/1"))
    pure false

  -- `preflight`, whose error is always nil
  unfoldable pub preflight_check : NodeInfo → State E.World → Outcome Bool × State E.World
  unfolding refuse
  preflight_check info = do
    d ← gets (λ s. s.object)
    reason ← from_outcome (preflight_reason d info)
    refuse reason

  -- What `launchNode` does once the node is ready.
  finish_launch : Bool → State E.World → Outcome Bool × State E.World
  finish_launch false = pure false
  finish_launch true = do
    d ← gets (λ s. s.object)
    E.retry.retry_on_conflict (mark_node E d.spec)
    pure true

  -- `launchNode`: an error comes with `false`
  unfoldable pub launch : NodeInfo → State E.World → Outcome Bool × State E.World
  unfolding finish_launch
  launch info = do
    launch_by_cmd E info
    d ← gets (λ s. s.object)
    success ←
        catch (watch_node E d.spec.node_name true)
          λ e. emit (event warning launch_node "node status is not as expected") >> fail e
    finish_launch success

  or_missing : Option Node → State E.World → Outcome Node × State E.World
  or_missing none = fail (errorf "try to deprecate a non-existent node")
  or_missing (some node) = pure node

  -- Whether the pods have left, or need not.
  evict : Bool → Node → State E.World → Outcome Bool × State E.World
  evict false node = pure true
  evict true node = catch (drain_node E node >> pure true) λ e. do
    emit (event warning deprecate_node ("failed to drain node, err: " <> e.message))
    pure false

  -- `deprecateNode` behind the draining.
  remove : NodeInfo → Node → State E.World → Outcome Bool × State E.World
  remove info node = do
    deprecate_cmd E info
    catch (perform (delete_node node.name) (E.cluster.delete_node node))
        λ e. emit (event warning deprecate_node "failed to delete node") >> fail e
    emit (event normal deprecate_node "node deleted successfully")
    pure true

  -- `deprecateNode`: an error comes with `false`
  unfoldable pub deprecate : NodeInfo → State E.World → Outcome Bool × State E.World
  unfolding or_missing evict remove
  deprecate info = do
    found ← find_node E info.node_name
    node ← or_missing found
    d ← gets (λ s. s.object)
    drained ← evict d.spec.is_evicted node
    if drained then remove info node else pure false
