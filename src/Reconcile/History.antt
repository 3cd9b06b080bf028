-- ===== src/Reconcile/History.antt =====
-- The versions of an object over any number of calls of `Reconcile`.
use nodedeploy_controller.Prelude.{
  ℕ, ◌<◌, String, List, [], ◌∷◌, ◌≡◌, ◌≢◌, sym, ap, subst, inl, inr, arith,
}
use nodedeploy_controller.Api.{
  NodeDeploy, NodeDeployStatus, NodeStatus, unknown, launching, deprecating, active, inactive,
}
use nodedeploy_controller.Machine.{ok, Effect, write_status, State}
use nodedeploy_controller.Env.{Env}
use nodedeploy_controller.Env.Laws.{IsFaithful, IsRetry, as_kept}
use nodedeploy_controller.Node.{get_before_status}
use nodedeploy_controller.Reconcile.{reconcile}
use nodedeploy_controller.Reconcile.Gates.{IsUnderWay, fallen, reconcile_expired}
use nodedeploy_controller.Reconcile.Diagram.{writes}
use nodedeploy_controller.Reconcile.Diagram.Ready.{IsTarget}
use nodedeploy_controller.Reconcile.Deadlines.{IsDated, AllSent, kept-IsDated}
use nodedeploy_controller.Reconcile.Deadlines.Calls.{reconcile_dates}

-- A status that a trace has sent.
pub data Sends : NodeDeployStatus → List Effect → Type 0 where
  here : {st : NodeDeployStatus} {es : List Effect} → Sends st (write_status st ∷ es)
  there : {st : NodeDeployStatus} {e : Effect} {es : List Effect} → Sends st es → Sends st (e ∷ es)

-- The versions that the server may hold: an object is created without a status, its spec is edited,
-- and a call of `Reconcile` that has read any version, also an old one, sends a status.
pub data History (E : Env) : NodeDeploy → Type 0 where
  created : (d : NodeDeploy) → d.status.node_status ≡ unknown → History E d
  edited : {d : NodeDeploy} (d' : NodeDeploy) → d'.status ≡ d.status → History E d → History E d'
  sent :
      {d : NodeDeploy} (d' : NodeDeploy) (st : NodeDeployStatus) (key : String) (s : State E.World)
      (w : E.World)
      → d'.status ≡ as_kept st
      → s.trace ≡ []
      → E.cluster.get_node_deploy key s.world ≡ (ok d, w)
      → Sends st (reconcile E key s).1.trace
      → History E d
      → History E d'

AllSent-tail :
    (P : NodeDeployStatus → Type 0) (e : Effect) (es : List Effect)
    → AllSent P (e ∷ es)
    → AllSent P es
AllSent-tail P (write_status st) es h = h.1
AllSent-tail P _ es h = h

AllSent-member :
    (P : NodeDeployStatus → Type 0) (st : NodeDeployStatus) (es : List Effect)
    → AllSent P es
    → Sends st es
    → P st
AllSent-member P st _ h here = h.0
AllSent-member P st (e ∷ es) h (there m) = AllSent-member P st es (AllSent-tail P e es h) m

differs :
    (d : NodeDeploy)
    → IsTarget d.spec.node_status
    → IsUnderWay d.status.node_status
    → d.spec.node_status ≢ d.status.node_status
differs d target under_way = ground arith

-- The status to which the work under way goes back.
pub data Rests : NodeStatus → NodeStatus → Type 0 where
  launch_rests : Rests launching inactive
  removal_rests : Rests deprecating active

before-Rests : (x : NodeStatus) → IsUnderWay x → Rests x (get_before_status x)
unfolding get_before_status
before-Rests x (inl e) = rw e launch_rests
before-Rests x (inr e) = rw e removal_rests

module _ (E : Env) (faithful : IsFaithful E.cluster) (law : IsRetry E.retry) where
  -- In every version of an object that can come about, over any number of calls that read the versions
  -- in any order and of edits of the spec, a status under way has a deadline, if the server keeps what it is sent and
  -- `retry.Do` is as documented.
  pub History-IsDated : {d : NodeDeploy} → History E d → IsDated d.status
  History-IsDated (created d new) = λ u. ground arith
  History-IsDated (edited d' same h) = rw same (History-IsDated h)
  History-IsDated (sent d' st key s w kept fresh got m h) = rw kept (
      kept-IsDated st (
        AllSent-member IsDated st _
          (reconcile_dates E faithful law key s _ w fresh got (History-IsDated h)) m))

  -- Every version that can come about, wants one of the two statuses of the schema and is under way can be
  -- taken back: there is a time after which any call that reads it, if one is made and the server accepts
  -- its update, leaves a launch inactive and a removal active, and has sent this status and no other. The
  -- server keeps what it is sent, and `retry.Do` is as documented.
  pub under_way_ends :
      (d : NodeDeploy)
      → History E d
      → IsTarget d.spec.node_status
      → IsUnderWay d.status.node_status
      → (t : ℕ) × ((key : String) (s : State E.World) (w : E.World) (d' : NodeDeploy)
          → E.cluster.get_node_deploy key s.world ≡ (ok d, w)
          → t < (E.cluster.now w).0
          → (E.cluster.update_status (fallen d) (E.cluster.now w).1).0 ≡ ok d'
          → Rests d.status.node_status (reconcile E key s).1.object.status.node_status
            × (writes (reconcile E key s).1.trace
                ≡ (reconcile E key s).1.object.status.node_status ∷ writes s.trace))
  unfolding get_before_status
  under_way_ends d h target under_way =
      let (t, dated) = History-IsDated h under_way in
      (
        t,
        λ key s w d' got late stored.
            let (status, trace) =
              reconcile_expired E key s d w got t d' faithful under_way (differs d target under_way)
                dated late stored in
            (
              subst (Rests d.status.node_status) (sym status)
                  (before-Rests d.status.node_status under_way),
              rw trace (ap (λ x. x ∷ writes s.trace) (sym status)),
            ),
      )
