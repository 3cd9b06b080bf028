-- ===== src/Token.antt =====
-- pkg/nodemanager/token.go: bootstrap tokens and their secrets. Values of type []byte are texts.
pub mod Frames
pub mod Laws
pub mod Encoding
pub mod Issue
use nodedeploy_controller.Prelude.{
  ℕ, ◌+◌, ◌*◌, ◌<◌, String, ◌<>◌, Bool, true, false, List, [], ◌∷◌, Option, none, some, ltb, str_eq,
  if◌then◌else◌, not,
}
use nodedeploy_controller.Text.{join, to_lower}
use nodedeploy_controller.Duration.{ℤ, pos, negsuc, minute}
use nodedeploy_controller.Api.{StringMap}
use nodedeploy_controller.Machine.{
  Cause, not_found, already_exists, conflict, other, Error, Outcome, ok, err, panic, State, errorf,
  write_secret, pure, fail, call, perform, catch, from_outcome, ◌>>=◌, ◌>>◌,
}
use nodedeploy_controller.Env.{Env, Kube, Secret}

-- `m[k]`, with the zero value where the key is missing
unfoldable pub get_or_empty : String → StringMap → String
get_or_empty k [] = ""
get_or_empty k ((j, v) ∷ m) = if str_eq j k then v else get_or_empty k m

-- `m[k] = v`
unfoldable pub insert : String → String → StringMap → StringMap
insert k v [] = (k, v) ∷ []
insert k v ((j, w) ∷ m) = if str_eq j k then (k, v) ∷ m else (j, w) ∷ insert k v m

-- The fields of `Token`, which is never nil, stand in the record itself.
pub record BootstrapToken : Type 0 where
  pub id : String
  pub secret : String
  pub description : String
  pub ttl : Option ℤ
  pub expires : Option ℕ
  pub usages : List String
  pub groups : List String

abbrev some_text : String → Bool
some_text t = not (str_eq t "")

-- The expiration that `encodeTokenSecretData` writes: `Expires` wins over a positive `TTL`.
unfoldable pub expiration : BootstrapToken → ℕ → Option ℕ
expiration token now = elim token.expires [
  | some t ↦ some t
  | none ↦ elim token.ttl [
    | some (pos d) ↦ if ltb 0 d then some (now + d) else none
    | some (negsuc d) ↦ none
    | none ↦ none
  ]
]

module _ {W : Type 0} (K : Kube W) where
  open K.token_api use {
    id_key, secret_key, description_key, expiration_key, usage_prefix, extra_groups_key,
    secret_type, pattern, namespace_system,
  }

  -- `NewBootstrapToken`
  unfoldable pub new_bootstrap_token : String → Outcome BootstrapToken
  new_bootstrap_token token = elim (K.find_submatch token) [
    | whole ∷ id ∷ secret ∷ [] ↦ ok (record {
      id = id;
      secret = secret;
      description = "";
      ttl = none;
      expires = none;
      usages = [];
      groups = [];
    })
    | _ ↦ err (
        errorf
          ("the bootstrap token " <> K.quote token <> " was not of the form " <> K.quote pattern))
  ]

  put_description : String → StringMap → StringMap
  put_description text m = if some_text text then insert description_key text m else m

  put_expiration : Option ℕ → StringMap → StringMap
  put_expiration none m = m
  put_expiration (some t) m = insert expiration_key (K.format_time t) m

  put_usages : List String → StringMap → StringMap
  put_usages [] m = m
  put_usages (u ∷ us) m = put_usages us (insert (usage_prefix <> u) "true" m)

  put_groups : List String → StringMap → StringMap
  put_groups [] m = m
  put_groups (g ∷ gs) m = insert extra_groups_key (join (g ∷ gs) ",") m

  -- `encodeTokenSecretData`
  unfoldable pub encode_token_secret_data : BootstrapToken → ℕ → StringMap
  unfolding put_description put_expiration put_usages put_groups expiration
  encode_token_secret_data token now = put_groups token.groups (
      put_usages token.usages (
        put_expiration (expiration token now) (
          put_description token.description
            ((id_key, token.id) ∷ (secret_key, token.secret) ∷ []))))

  -- `BootstrapTokenToSecret`, at the time `now`
  unfoldable pub bootstrap_token_to_secret : BootstrapToken → ℕ → Secret
  bootstrap_token_to_secret token now = record {
    name = K.token_secret_name token.id;
    namespace = namespace_system;
    kind = secret_type;
    entries = encode_token_secret_data token now;
  }

abbrev pub is_already_exists : Error → Bool
is_already_exists e = elim e.cause [ already_exists ↦ true | _ ↦ false ]

-- `errors.Wrap(err, text)`
abbrev pub wrap : Error → String → Error
wrap e text = record e { message = text <> ": " <> e.message }

-- `24 * time.Hour`
abbrev pub day : ℕ
day = 24 * 60 * minute

module _ (E : Env) where
  update_after : Secret → Error → State E.World → Outcome Unit × State E.World
  update_after secret e =
      if is_already_exists e
      then catch (perform (write_secret secret.name) (E.kube.update_secret secret))
          (λ e'. fail (wrap e' "unable to update secret"))
      else fail (wrap e "unable to create secret")

  -- `CreateOrUpdateSecret`
  unfoldable pub create_or_update_secret : Secret → State E.World → Outcome Unit × State E.World
  unfolding update_after
  create_or_update_secret secret =
      catch (perform (write_secret secret.name) (E.kube.create_secret secret)) (update_after secret)

  abbrev found : {A : Type 0} → Outcome A → Outcome Bool
  found (ok a) = ok true
  found (err e) = ok false
  found (panic m) = panic m

  -- Whether a `Get` of a secret finds it: any error counts as its absence.
  secret_found : String → String → State E.World → Outcome Bool × State E.World
  secret_found namespace name =
      call (λ w. let (r, w') = E.kube.get_secret namespace name w in (found r, w'))

  now : State E.World → Outcome ℕ × State E.World
  now = call (λ w. let (t, w') = E.cluster.now w in (ok t, w'))

  -- `GetToken`
  unfoldable pub get_token : State E.World → Outcome String × State E.World
  unfolding secret_found now
  get_token = do
    text ← catch (call E.kube.generate_token) λ e. fail (wrap e "couldn't generate random token")
    token ← from_outcome (new_bootstrap_token E.kube text)
    let name = E.kube.token_secret_name token.id
    taken ← secret_found E.kube.token_api.namespace_system name
    if taken
        then fail (errorf ("a token with id " <> E.kube.quote token.id <> " already exists"))
        else do
          let full = record token {
            ttl = some (pos day);
            usages = "signing" ∷ "authentication" ∷ [];
            groups = "system:bootstrappers:kubeadm:default-node-token" ∷ [];
          }
          t ← now
          create_or_update_secret (bootstrap_token_to_secret E.kube full t)
          pure (token.id <> "." <> token.secret)
