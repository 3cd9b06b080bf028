-- ===== src/Token/Frames.antt =====
-- Reading the join information keeps what remote effects do not disturb.
use nodedeploy_controller.Machine.{State, IsSecretWrite, Error}
use nodedeploy_controller.Machine.Keeps.{Keeps, IsRobust, keeps_rules}
use nodedeploy_controller.Env.{Env, Secret}
use nodedeploy_controller.Token.{update_after, create_or_update_secret, get_token}

module _ (E : Env) {P : State E.World → Type 0} (robust : IsRobust IsSecretWrite P) where
  update_after-Keeps : (secret : Secret) (e : Error) → Keeps P (update_after E secret e)
  unfolding update_after
  update_after-Keeps secret e = search (keeps_rules, robust)

  create_or_update_secret-Keeps : (secret : Secret) → Keeps P (create_or_update_secret E secret)
  unfolding create_or_update_secret
  create_or_update_secret-Keeps secret = search (keeps_rules, robust, update_after-Keeps)

  pub get_token-Keeps : Keeps P (get_token E)
  unfolding get_token
  get_token-Keeps = search (keeps_rules, robust, create_or_update_secret-Keeps) depth 20
