-- ===== src/Token/Issue.antt =====
-- The token that `GetToken` hands out is the one whose secret it has written.
use nodedeploy_controller.Prelude.{
  ℕ, String, ◌<>◌, Bool, true, false, ◌≡◌, ◌≢◌, refl, ap, ◌∙◌, if◌then◌else◌,
}
use nodedeploy_controller.Machine.{Error, Outcome, ok, State, fail, pure, ◌>>=◌, ◌>>◌}
use nodedeploy_controller.Machine.Success.{bind_ok, both}
use nodedeploy_controller.Env.{Env, Kube, Secret}
use nodedeploy_controller.Token.{
  BootstrapToken, get_or_empty, get_token, bootstrap_token_to_secret, create_or_update_secret, now,
}
use nodedeploy_controller.Token.Encoding.{IsKept, IsKeptLast, encode_token_reads}

-- The keys that cluster-bootstrap defines differ from one another.
pub record IsKeyed {W : Type 0} (K : Kube W) : Type 0 where
  pub id_kept : IsKept K K.token_api.id_key
  pub secret_kept : IsKept K K.token_api.secret_key
  pub id_secret : K.token_api.id_key ≢ K.token_api.secret_key
  pub expiration_kept : IsKeptLast K K.token_api.expiration_key
  pub description_expiration : K.token_api.description_key ≢ K.token_api.expiration_key
  pub id_expiration : K.token_api.id_key ≢ K.token_api.expiration_key
  pub secret_expiration : K.token_api.secret_key ≢ K.token_api.expiration_key

-- The text of the token that a secret holds.
abbrev pub token_of : {W : Type 0} → Kube W → Secret → String
token_of K secret =
    get_or_empty K.token_api.id_key secret.entries
    <> "."
    <> get_or_empty K.token_api.secret_key secret.entries

module _ (E : Env) (keyed : IsKeyed E.kube) where
  reads :
      (token : BootstrapToken) (t : ℕ)
      → token.id <> "." <> token.secret ≡ token_of E.kube (bootstrap_token_to_secret E.kube token t)
  unfolding bootstrap_token_to_secret
  reads token t =
      let (id, secret, _) =
        encode_token_reads E.kube token t keyed.id_kept keyed.secret_kept keyed.id_secret
          keyed.expiration_kept keyed.description_expiration keyed.id_expiration
          keyed.secret_expiration in
      rw (id, secret) refl

  abbrev Issued : String → State E.World → Type 0
  Issued text t =
      (secret : Secret) × (u : State E.World) × (create_or_update_secret E secret u ≡ (ok tt, t))
      × (text ≡ token_of E.kube secret)

  -- `GetToken` behind the look at the secret.
  abbrev store : BootstrapToken → State E.World → Outcome String × State E.World
  store token = do
    n ← now E
    create_or_update_secret E (bootstrap_token_to_secret E.kube token n)
    pure (token.id <> "." <> token.secret)

  stored :
      (token : BootstrapToken) (text : String) (x t : State E.World)
      → store token x ≡ (ok text, t)
      → Issued text t
  unfolding pure
  stored token text x t e =
      let (n, _, rest) = bind_ok _ _ x t text e in
      let (done, written, ended) = bind_ok _ _ _ t text rest in
      (
        bootstrap_token_to_secret E.kube token n,
        _,
        both written (ap (λ o. o.1) ended),
        given (ap (λ o. o.0) ended) ∙ reads token n,
      )
    where
      given : {a b : String} → ok a ≡ ok b → b ≡ a
      given same = cc

  unless_taken :
      (taken : Bool) (e : Error) (token : BootstrapToken) (text : String) (x t : State E.World)
      → (if taken then fail e else store token) x ≡ (ok text, t)
      → Issued text t
  unfolding fail
  unless_taken true e token text x t p = absurd (cc (ap (λ o. o.0) p))
  unless_taken false e token text x t p = stored token text x t p

  -- The text that `GetToken` returns is read back from the secret that it has written last, by a call of
  -- `CreateOrUpdateSecret` that succeeded: its two parts are the id and the secret under their keys. The
  -- keys of the token API differ.
  pub get_token_issues :
      (text : String) (s t : State E.World) → get_token E s ≡ (ok text, t) → Issued text t
  unfolding get_token
  get_token_issues text s t e =
      let (generated, _, rest) = bind_ok _ _ s t text e in
      let (token, _, rest') = bind_ok _ _ _ t text rest in
      let (taken, _, rest'') = bind_ok _ _ _ t text rest' in unless_taken taken _ _ text _ t rest''
