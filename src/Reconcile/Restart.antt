-- ===== src/Reconcile/Restart.antt =====
-- What the next call does where the deadline has ended the work under way.
use nodedeploy_controller.Prelude.{ℕ, ◌<◌, String, ◌≡◌, ◌≢◌, ◌∙◌, ap, inl, inr, some}
use nodedeploy_controller.Duration.{pos}
use nodedeploy_controller.Api.{
  NodeDeploy, inactive, active, launching, launch_fail, deprecating, deprecate_fail,
}
use nodedeploy_controller.Machine.{ok, State}
use nodedeploy_controller.Env.{Env}
use nodedeploy_controller.Env.Laws.{IsFaithful, IsRetry}
use nodedeploy_controller.Node.{get_before_status}
use nodedeploy_controller.Phases.{node_info, launch, deprecate}
use nodedeploy_controller.Phases.Preflight.{IsDeployable}
use nodedeploy_controller.Reconcile.{reconcile}
use nodedeploy_controller.Reconcile.Branches.{IsInt32}
use nodedeploy_controller.Reconcile.Gates.{fallen, reconcile_expired}
use nodedeploy_controller.Reconcile.Endings.{reconcile_launches, reconcile_deprecates}
use nodedeploy_controller.Reconcile.Outcomes.{Ended}

-- A call that reads an object with a deadline that has passed, and whose update the server accepts.
module _ (E : Env) (faithful : IsFaithful E.cluster) (law : IsRetry E.retry) (key : String)
    (s : State E.World) (d : NodeDeploy) (w : E.World)
    (got : E.cluster.get_node_deploy key s.world ≡ (ok d, w)) (t : ℕ)
    (dated : d.status.deadline ≡ some t) (late : t < (E.cluster.now w).0) (d' : NodeDeploy)
    (stored : (E.cluster.update_status (fallen d) (E.cluster.now w).1).0 ≡ ok d') where
  -- A later call that reads the object with the status that the first call has left it with.
  module _ (s' : State E.World) (d'' : NodeDeploy) (w' : E.World)
      (got' : E.cluster.get_node_deploy key s'.world ≡ (ok d'', w')) (same_spec : d''.spec ≡ d.spec)
      (same_status : d''.status ≡ (reconcile E key s).1.object.status) (fine : IsDeployable E d'')
      (int32 : IsInt32 d''.spec.max_retry) (nonzero : d''.spec.max_retry ≢ pos 0) where
    -- Where the deadline of a launch has passed, a call that reads it and whose update is accepted leaves
    -- the object so that the next call launches again: it asks for the active status at the end only
    -- behind a successful `launchNode`, and else for the failed launch or the unknown status, or an
    -- attempt panicked. The object is valid, the server keeps what it is sent, `retry.Do` is as
    -- documented, and the number of attempts is not 0.
    pub timed_out_launch_starts_over :
        d.spec.node_status ≡ active
        → d.status.node_status ≡ launching
        → Ended E law launching "LaunchNode" active launch_fail
            (launch E (node_info d''))
            (reconcile E key s')
    unfolding get_before_status
    timed_out_launch_starts_over goal under_way =
        let (status, _) =
          reconcile_expired E key s d w got t d' faithful (inl under_way)
            (λ e. absurd (cc (e, goal, under_way))) dated late stored in
        reconcile_launches E law key s' d'' w' got' fine int32 nonzero
          (ap (λ x. x.node_status) same_spec ∙ goal)
          (inr
            (inl (ap (λ x. x.node_status) same_status ∙ status ∙ ap get_before_status under_way)))

    -- Where the deadline of a removal has passed, a call that reads it and whose update is accepted leaves
    -- the object so that the next call removes the node again: it asks for the inactive status at the end
    -- only behind a successful `deprecateNode`, and else for the failed removal
    -- or the unknown status, or an attempt panicked. The object is valid, the server keeps what it is
    -- sent, `retry.Do` is as documented, and the number of attempts is not 0.
    pub timed_out_removal_starts_over :
        d.spec.node_status ≡ inactive
        → d.status.node_status ≡ deprecating
        → Ended E law deprecating "DeprecateNode" inactive deprecate_fail
            (deprecate E (node_info d''))
            (reconcile E key s')
    unfolding get_before_status
    timed_out_removal_starts_over goal under_way =
        let (status, _) =
          reconcile_expired E key s d w got t d' faithful (inr under_way)
            (λ e. absurd (cc (e, goal, under_way))) dated late stored in
        reconcile_deprecates E law key s' d'' w' got' fine int32 nonzero
          (ap (λ x. x.node_status) same_spec ∙ goal)
          (inl (ap (λ x. x.node_status) same_status ∙ status ∙ ap get_before_status under_way))
