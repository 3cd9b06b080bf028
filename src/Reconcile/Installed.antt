-- ===== src/Reconcile/Installed.antt =====
-- What has been done to a node whose object has become active.
use nodedeploy_controller.Prelude.{String, true, ◌≡◌, refl, ◌≢◌, ◌⊎◌, sym, ap, subst, ◌∙◌, arith}
use nodedeploy_controller.Duration.{pos}
use nodedeploy_controller.Api.{
  NodeDeploy, NodeInfo, NodeStatus, Taint, node_work, node_kubeedge, unknown, active, launching,
  launch_fail,
}
use nodedeploy_controller.Machine.{Outcome, ok, err, panic, State, pure, ◌>>=◌, ◌>>◌}
use nodedeploy_controller.Machine.Plans.{Does, is_ok}
use nodedeploy_controller.Machine.Success.{bind_ok, both}
use nodedeploy_controller.Env.{Env}
use nodedeploy_controller.Env.Laws.{IsFaithful, IsRetry, IsConflictRetry, IsCalm}
use nodedeploy_controller.NodeJoin.Steps.{Steps}
use nodedeploy_controller.NodeJoin.Work.Steps as WorkSteps
use nodedeploy_controller.NodeJoin.KubeEdge.Steps as KubeEdgeSteps
use nodedeploy_controller.Manager.{launch_by_cmd}
use nodedeploy_controller.Manager.Plan.{launch_plan, launch_work_plan, launch_kube_edge_plan}
use nodedeploy_controller.Phases.{Result, done, node_info, finalize, launch, update_status}
use nodedeploy_controller.Phases.Marking.{IsMarked, launch_marks}
use nodedeploy_controller.Phases.Preflight.{IsDeployable}
use nodedeploy_controller.Reconcile.{reconcile}
use nodedeploy_controller.Reconcile.Branches.{IsInt32}
use nodedeploy_controller.Reconcile.Outcomes.{Ended, reached, missed, crashed}
use nodedeploy_controller.Reconcile.Success.{finished}
use nodedeploy_controller.Reconcile.Endings.{IsDown, reconcile_launches}

-- The two types of node, as the specification names them, and their plans.
pub data Kind : Type 0 where
  as_work as_kube_edge : Kind

abbrev pub type_of : Kind → String
type_of as_work = node_work
type_of as_kube_edge = node_kubeedge

abbrev pub steps_of : Kind → Steps
steps_of as_work = WorkSteps.steps
steps_of as_kube_edge = KubeEdgeSteps.steps

-- A successful `LaunchByCmd` from `t`, with the whole plan behind it, and a node marked at last.
pub record IsInstalled (E : Env) (k : Kind) (info : NodeInfo) (t : State E.World) : Type 1 where
  pub chosen : String × String
  pub installed : Does (launch_plan (steps_of k) info chosen) true t (launch_by_cmd E info t).1
  pub marked_from : State E.World
  pub marked : IsMarked E t.object.spec marked_from (launch E info t).1

module _ (E : Env) (faithful : IsFaithful E.cluster) where
  finalize_ends :
      (x : NodeStatus) (u : State E.World) (o : Outcome NodeDeploy)
      → (E.cluster.update_status (finished x u.object) u.world).0 ≡ o
      → ((finalize E x >> pure done) u).0 ≡ ok done
      → ((finalize E x >> pure done) u).1.object.status.node_status ≡ x
  unfolding finalize update_status ◌>>=◌
  finalize_ends x u (ok d') stored e =
      rw stored
        (ap (λ st. st.node_status) (faithful.keeps_status (finished x u.object) d' u.world stored))
  finalize_ends x u (err y) stored e = absurd (cc (rw stored at e))
  finalize_ends x u (panic m) stored e = absurd (cc (rw stored at e))

module _ (E : Env) (calm : IsCalm E.ssh) (conflicts : IsConflictRetry E.retry)
    (m_refl : (x : Taint) → E.library.match_taint x x ≡ true) (k : Kind) (info : NodeInfo) where
  planned :
      (j : Kind)
      → info.node_type ≡ type_of j
      → (t : State E.World)
      → (x : String × String) × Does
          (launch_plan (steps_of j) info x)
          (is_ok (launch_by_cmd E info t).0)
          t
          (launch_by_cmd E info t).1
  planned as_work work t = launch_work_plan E calm info t work
  planned as_kube_edge edge t = launch_kube_edge_plan E calm info t edge

  -- What `launchNode` has done where it returns true: the whole plan, and then an accepted update.
  pub launch_installs :
      info.node_type ≡ type_of k
      → (t : State E.World) → (launch E info t).0 ≡ ok true
      → IsInstalled E k info t
  unfolding launch
  launch_installs plan t worked =
      let whole = both {o = launch E info t} worked refl in
      let (x, does) = planned k plan t in
      let (_, brought_up, _) = bind_ok (launch_by_cmd E info) _ t (launch E info t).1 true whole in
      let (u, marked) = launch_marks E m_refl conflicts info t (launch E info t).1 whole in
      record {
        chosen = x;
        installed =
            subst (λ b. Does (launch_plan (steps_of k) info x) b t (launch_by_cmd E info t).1)
              (ap is_ok brought_up) does;
        marked_from = u;
        marked = marked;
      }

  module _ (faithful : IsFaithful E.cluster) (law : IsRetry E.retry) where
    ended :
        info.node_type ≡ type_of k
        → {r : Outcome Result × State E.World}
        → Ended E law launching "LaunchNode" active launch_fail (launch E info) r
        → r.0 ≡ ok done
        → r.1.object.status.node_status ≡ active
        → (t : State E.World) × IsInstalled E k info t
          × (r ≡ (finalize E active >> pure done) (record (launch E info t).1 { outcome = active }))
    ended plan (reached t worked) fine is_active = (t, launch_installs plan t worked, refl)
    ended plan (missed x u other) fine is_active =
        absurd (not_active x other (sym (finalize_ends E faithful x u _ refl fine) ∙ is_active))
      where
        not_active : (x : NodeStatus) → (x ≡ unknown) ⊎ (x ≡ launch_fail) → x ≢ active
        not_active x other e = ground arith
    ended plan (crashed m u) fine is_active = absurd (cc fine)

module _ (E : Env) (calm : IsCalm E.ssh) (conflicts : IsConflictRetry E.retry)
    (m_refl : (x : Taint) → E.library.match_taint x x ≡ true) (faithful : IsFaithful E.cluster)
    (law : IsRetry E.retry) where
  -- A call for a valid object that is to be active, and is new, inactive or left by a failed removal,
  -- succeeds with an active object only behind a launch that has carried out the whole plan for its type
  -- of node and then marked the node: the call ends with `finalize` in the state that this launch left.
  -- The session calls of the SSH library do not panic, a taint matches itself, a success of
  -- `RetryOnConflict` is one of its last call, the server keeps what it is sent, `retry.Do` is as
  -- documented, and the number of attempts is not 0.
  pub reconcile_installs :
      (key : String) (s : State E.World) (d : NodeDeploy) (w : E.World) (k : Kind)
      → E.cluster.get_node_deploy key s.world ≡ (ok d, w)
      → IsDeployable E d
      → IsInt32 d.spec.max_retry
      → d.spec.max_retry ≢ pos 0
      → d.spec.node_status ≡ active
      → IsDown d.status.node_status
      → d.spec.node_type ≡ type_of k
      → (reconcile E key s).0 ≡ ok done
      → (reconcile E key s).1.object.status.node_status ≡ active
      → (t : State E.World) × IsInstalled E k (node_info d) t
        × (reconcile E key s
            ≡ (finalize E active >> pure done)
                (record (launch E (node_info d) t).1 { outcome = active }))
  unfolding node_info
  reconcile_installs key s d w k got fine int32 nonzero goal down plan succeeded is_active =
      ended E calm conflicts m_refl k (node_info d) faithful law plan
        (reconcile_launches E law key s d w got fine int32 nonzero goal down) succeeded is_active
