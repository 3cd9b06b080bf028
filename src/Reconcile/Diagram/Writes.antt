-- ===== src/Reconcile/Diagram/Writes.antt =====
-- Writing a status from a state that has followed the diagram so far.
use nodedeploy_controller.Prelude.{ℕ, ◌≡◌, refl, ap, ◌∙◌, Option}
use nodedeploy_controller.Api.{NodeDeploy, NodeStatus}
use nodedeploy_controller.Machine.{Outcome, ok, err, panic, State, assign, ◌>>=◌}
use nodedeploy_controller.Machine.Keeps.{Keeps, IsRobust}
use nodedeploy_controller.Env.{Env}
use nodedeploy_controller.Env.Laws.{IsFaithful}
use nodedeploy_controller.Phases.{update_status, set_status, set_deadline}
use nodedeploy_controller.Reconcile.Diagram.{Edge, writes, latest, Chain, IsSilent, writes-silent}

-- The writes since `d` was read form a chain, and the object has the last status written. `Is` holds
-- of that status and `Out` of the variable `status` of `Reconcile`.
pub record At {W : Type 0} (d : NodeDeploy) (Is Out : NodeStatus → Type 0) (s : State W)
    : Type 0 where
  pub chain : Chain d.spec.node_status d.status.node_status (writes s.trace)
  pub current : s.object.status.node_status ≡ latest d.status.node_status (writes s.trace)
  pub status_is : Is s.object.status.node_status
  pub out : Out s.outcome
  pub spec : s.object.spec ≡ d.spec

-- The writes form a chain, and the object has the last status written.
abbrev pub Follows : {W : Type 0} → NodeDeploy → State W → Type 0
Follows d = At d (λ x. Unit) (λ x. Unit)

pub At-Follows :
    {W : Type 0} (d : NodeDeploy) {Is Out : NodeStatus → Type 0} {s : State W}
    → At d Is Out s
    → Follows d s
At-Follows d h = record {
  chain = h.chain;
  current = h.current;
  status_is = tt;
  out = tt;
  spec = h.spec;
}

-- The object has a status `x` that is not yet written and that the diagram admits.
pub record IsPending {W : Type 0} (d : NodeDeploy) (x : NodeStatus) (Out : NodeStatus → Type 0)
    (s : State W) : Type 0 where
  pub chain : Chain d.spec.node_status d.status.node_status (writes s.trace)
  pub edge : Edge d.spec.node_status (latest d.status.node_status (writes s.trace)) x
  pub set : s.object.status.node_status ≡ x
  pub out : Out s.outcome
  pub spec : s.object.spec ≡ d.spec

module _ {W : Type 0} (d : NodeDeploy) (Is Out : NodeStatus → Type 0) where
  pub At-IsRobust : IsRobust IsSilent (At {W = W} d Is Out)
  At-IsRobust = record {
    world = λ s w h. record {
      chain = h.chain;
      current = h.current;
      status_is = h.status_is;
      out = h.out;
      spec = h.spec;
    };
    effect = λ s e q h. record {
      chain = rw (writes-silent e s.trace q) h.chain;
      current = rw (writes-silent e s.trace q) h.current;
      status_is = h.status_is;
      out = h.out;
      spec = h.spec;
    };
  }

  pub set_deadline-At : (t : Option ℕ) → Keeps (At {W = W} d Is Out) (set_deadline t)
  unfolding assign
  set_deadline-At t = record {
    at = λ s h. record {
      chain = h.chain;
      current = h.current;
      status_is = h.status_is;
      out = h.out;
      spec = h.spec;
    };
  }

  -- An assignment of a status that the diagram admits.
  pub set_status_leads :
      (x : NodeStatus)
      → ((y : NodeStatus) → Is y → Edge d.spec.node_status y x)
      → (s : State W) → At d Is Out s
      → IsPending d x Out (set_status x s).1
  unfolding assign
  set_status_leads x admits s h = record {
    chain = h.chain;
    edge = rw (← h.current) (admits s.object.status.node_status h.status_is);
    set = refl;
    out = h.out;
    spec = h.spec;
  }

module _ {W : Type 0} (d : NodeDeploy) (x : NodeStatus) (Out : NodeStatus → Type 0) where
  pub set_deadline-IsPending : (t : Option ℕ) → Keeps (IsPending {W = W} d x Out) (set_deadline t)
  unfolding assign
  set_deadline-IsPending t = record {
    at = λ s h. record { chain = h.chain; edge = h.edge; set = h.set; out = h.out; spec = h.spec };
  }

module _ (E : Env) (faithful : IsFaithful E.cluster) (d : NodeDeploy) (x : NodeStatus)
    (Out : NodeStatus → Type 0) where
  update_leads-At :
      (s : State E.World) (o : Outcome NodeDeploy)
      → (E.cluster.update_status s.object s.world).0 ≡ o
      → IsPending d x Out s
      → At d (λ y. y ≡ x) Out (update_status E s).1
  unfolding update_status ◌>>=◌
  update_leads-At s (ok d') stored h = rw stored (record {
    chain = rw h.set (h.edge, h.chain);
    current = ap (λ st. st.node_status) (faithful.keeps_status s.object d' s.world stored);
    status_is =
        ap (λ st. st.node_status) (faithful.keeps_status s.object d' s.world stored) ∙ h.set;
    out = h.out;
    spec = faithful.keeps_spec s.object d' s.world stored ∙ h.spec;
  })
  update_leads-At s (err e) stored h = rw stored (record {
    chain = rw h.set (h.edge, h.chain);
    current = refl;
    status_is = h.set;
    out = h.out;
    spec = h.spec;
  })
  update_leads-At s (panic m) stored h = rw stored (record {
    chain = rw h.set (h.edge, h.chain);
    current = refl;
    status_is = h.set;
    out = h.out;
    spec = h.spec;
  })

  -- Whether the server accepts the update or not, the status has been sent.
  pub update_leads :
      (s : State E.World) → IsPending d x Out s → At d (λ y. y ≡ x) Out (update_status E s).1
  update_leads s h = update_leads-At s _ refl h
