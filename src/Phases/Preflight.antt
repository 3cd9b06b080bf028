-- ===== src/Phases/Preflight.antt =====
-- What `preflight` accepts.
use nodedeploy_controller.Prelude.{
  String, false, ◌∷◌, String, true, ◌≡◌, ◌↔◌, Option, none, some, arith, str_eq_refl, if◌then◌else◌,
}
use nodedeploy_controller.Api.{warning, status_message, NodeInfo, NodeDeploy}
use nodedeploy_controller.Manager.{message_string}
use nodedeploy_controller.Machine.{State, event, ◌>>=◌, Outcome, ok}
use nodedeploy_controller.Env.{Env, Version}
use nodedeploy_controller.Phases.{
  preflight_check, refuse, preflight_reason, version_reason, label_reason, node_info,
}

module _ (E : Env) where
  -- The three checks of the specification.
  abbrev pub IsDeployable : NodeDeploy → Type 0
  IsDeployable d =
      (E.library.validate_labels d.spec.labels ≡ none)
      × (E.library.parse_ip d.spec.node_ip ≡ true)
      × ((v : Version) × (E.library.new_version d.spec.node_version ≡ ok v))

  -- Behind the comparison of the two copies of the name and the address.
  checked : (d : NodeDeploy) → Outcome (Option String)
  checked d = elim (label_reason E (E.library.validate_labels d.spec.labels)) [
    | some reason ↦ ok (some reason)
    | none ↦
        if E.library.parse_ip d.spec.node_ip
        then version_reason E (E.library.new_version d.spec.node_version)
        else ok (some "nodeIP is an invalid ip address")
  ]

  copies_agree : (d : NodeDeploy) → preflight_reason E d (node_info d) ≡ checked d
  unfolding preflight_reason node_info checked
  copies_agree d = rw (str_eq_refl d.spec.node_name, str_eq_refl d.spec.node_ip)

  -- `Reconcile`'s call of `preflight` succeeds exactly where the labels are valid, the address is an IP
  -- address and the version can be parsed.
  pub preflight_iff :
      (d : NodeDeploy) → (preflight_reason E d (node_info d) ≡ ok none) ↔ IsDeployable d
  unfolding checked version_reason label_reason
  preflight_iff d = rw (copies_agree d) (ground arith)

  pub check-accepts :
      (info : NodeInfo) (s : State E.World)
      → preflight_reason E s.object info ≡ ok none
      → preflight_check E info s ≡ (ok true, s)
  unfolding preflight_check refuse ◌>>=◌
  check-accepts info s e = rw e

  pub check-refuses :
      (info : NodeInfo) (s : State E.World) (reason : String)
      → preflight_reason E s.object info ≡ ok (some reason)
      → preflight_check E info s ≡ (
        ok false,
        record s {
          trace =
              event warning status_message (message_string E "Parameter validate" reason "1/1")
              ∷ s.trace;
        },
      )
  unfolding preflight_check refuse ◌>>=◌
  check-refuses info s reason e = rw e
