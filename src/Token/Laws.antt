-- ===== src/Token/Laws.antt =====
-- When the secret of a bootstrap token is written.
use nodedeploy_controller.Prelude.{true, ◌≡◌, ◌⊎◌, arith, ◌↔◌}
use nodedeploy_controller.Machine.{Error, ok, err, State, ◌>>=◌}
use nodedeploy_controller.Env.{Env, Secret}
use nodedeploy_controller.Token.{create_or_update_secret, update_after, is_already_exists}

module _ (E : Env) where
  -- `CreateOrUpdateSecret` succeeds exactly where the secret is created, or exists already and is updated.
  pub create_or_update_iff :
      (secret : Secret) (s : State E.World)
      → ((create_or_update_secret E secret s).0 ≡ ok tt) ↔ (
          ((E.kube.create_secret secret s.world).0 ≡ ok tt)
          ⊎ ((e : Error) × ((E.kube.create_secret secret s.world).0 ≡ err e)
              × (is_already_exists e ≡ true)
              × ((E.kube.update_secret secret (E.kube.create_secret secret s.world).1).0 ≡ ok tt)))
  unfolding create_or_update_secret update_after ◌>>=◌
  create_or_update_iff secret s = ground arith
