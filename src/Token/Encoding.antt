-- ===== src/Token/Encoding.antt =====
-- What the secret of a bootstrap token holds.
use nodedeploy_controller.Prelude.{
  ℕ, zero, suc, ◌+◌, ◌<◌, String, ◌<>◌, false, ◌≡◌, refl, sym, subst, ◌≢◌, inl, inr, ◌∷◌, [], List,
  Option, none, some, str_eq, str_eq_refl, eq_iff, Bool-cases, ◌∙◌, arith,
}
use nodedeploy_controller.Duration.{ℤ, pos, negsuc}
use nodedeploy_controller.Api.{StringMap}
use nodedeploy_controller.Env.{Kube}
use nodedeploy_controller.Token.{
  get_or_empty, insert, BootstrapToken, expiration, encode_token_secret_data, put_description,
  put_expiration, put_usages, put_groups,
}

differs : (s t : String) → s ≢ t → str_eq s t ≡ false
differs s t apart = elim (Bool-cases (str_eq s t)) [
  | inl same ↦ absurd (apart ((eq_iff s t).0 same))
  | inr e ↦ e
]

get-insert : (k v : String) (m : StringMap) → get_or_empty k (insert k v m) ≡ v
unfolding get_or_empty insert
get-insert k v [] = rw (str_eq_refl k)
get-insert k v ((j, w) ∷ m) = ground (arith, str_eq_refl k, get-insert k v m)

get-insert_other :
    (k j v : String) (m : StringMap) → k ≢ j → get_or_empty j (insert k v m) ≡ get_or_empty j m
unfolding get_or_empty insert
get-insert_other k j v [] apart = rw (differs k j apart)
get-insert_other k j v ((i, w) ∷ m) apart = elim (Bool-cases (str_eq i k)) [
  | inl same ↦ rw ((eq_iff i k).0 same, str_eq_refl k, differs k j apart)
  | inr other ↦ rw (other, get-insert_other k j v m apart)
]

-- When a token expires that is written at the time `now`: at its date, where it has one, else after its
-- life, where that is positive, and else never.
pub data ExpiresAt (token : BootstrapToken) (now : ℕ) : Option ℕ → Type 0 where
  at_date : (t : ℕ) → token.expires ≡ some t → ExpiresAt token now (some t)
  after_life :
      (d : ℕ)
      → token.expires ≡ none
      → token.ttl ≡ some (pos d)
      → 0 < d
      → ExpiresAt token now (some (now + d))
  without_life : token.expires ≡ none → token.ttl ≡ none → ExpiresAt token now none
  with_none_left : token.expires ≡ none → token.ttl ≡ some (pos 0) → ExpiresAt token now none
  with_negative_life :
      (d : ℕ) → token.expires ≡ none → token.ttl ≡ some (negsuc d) → ExpiresAt token now none

expiration-ExpiresAt :
    (token : BootstrapToken) (now : ℕ) → ExpiresAt token now (expiration token now)
unfolding expiration
expiration-ExpiresAt token now = by_date token.expires refl
  where
    found :
        (o : Option ℕ)
        → expiration token now ≡ o
        → ExpiresAt token now o
        → ExpiresAt token now (expiration token now)
    found o e h = subst (ExpiresAt token now) (sym e) h

    by_life :
        (o : Option ℤ)
        → token.expires ≡ none
        → token.ttl ≡ o
        → ExpiresAt token now (expiration token now)
    by_life none e l = found none (rw (e, l) refl) (without_life e l)
    by_life (some (pos zero)) e l = found none (rw (e, l) (ground arith)) (with_none_left e l)
    by_life (some (pos (suc d))) e l =
        found (some (now + suc d)) (rw (e, l) (ground arith)) (after_life (suc d) e l (omega arith))
    by_life (some (negsuc d)) e l = found none (rw (e, l) refl) (with_negative_life d e l)

    by_date : (o : Option ℕ) → token.expires ≡ o → ExpiresAt token now (expiration token now)
    by_date none e = by_life token.ttl e refl
    by_date (some t) e = found (some t) (rw e refl) (at_date t e)

module _ {W : Type 0} (K : Kube W) where
  open K.token_api use {
    id_key, secret_key, description_key, expiration_key, usage_prefix, extra_groups_key,
  }

  -- The keys that are written after the expiration.
  abbrev pub IsKeptLast : String → Type 0
  IsKeptLast k = (extra_groups_key ≢ k) × ((u : String) → (usage_prefix <> u) ≢ k)

  -- A key that only the first two entries can have.
  abbrev pub IsKept : String → Type 0
  IsKept k = (description_key ≢ k) × (expiration_key ≢ k) × IsKeptLast k

  get-usages :
      (k : String) (us : List String) (m : StringMap)
      → IsKeptLast k
      → get_or_empty k (put_usages K us m) ≡ get_or_empty k m
  unfolding put_usages
  get-usages k [] m apart = refl
  get-usages k (u ∷ us) m apart =
      get-usages k us _ apart ∙ get-insert_other (usage_prefix <> u) k "true" m (apart.1 u)

  get-groups :
      (k : String) (gs : List String) (m : StringMap)
      → IsKeptLast k
      → get_or_empty k (put_groups K gs m) ≡ get_or_empty k m
  unfolding put_groups
  get-groups k [] m apart = refl
  get-groups k (g ∷ gs) m apart = get-insert_other extra_groups_key k _ m apart.0

  get-description :
      (k text : String) (m : StringMap)
      → description_key ≢ k
      → get_or_empty k (put_description K text m) ≡ get_or_empty k m
  unfolding put_description
  get-description k text m apart = elim (Bool-cases (str_eq text "")) [
    | inl e ↦ rw e refl
    | inr e ↦ rw e (get-insert_other description_key k text m apart)
  ]

  get-expiration :
      (k : String) (o : Option ℕ) (m : StringMap)
      → expiration_key ≢ k
      → get_or_empty k (put_expiration K o m) ≡ get_or_empty k m
  unfolding put_expiration
  get-expiration k none m apart = refl
  get-expiration k (some t) m apart = get-insert_other expiration_key k _ m apart

  -- Behind the first two entries.
  get-encoded :
      (k : String) (token : BootstrapToken) (now : ℕ)
      → IsKept k
      → get_or_empty k (encode_token_secret_data K token now)
        ≡ get_or_empty k ((id_key, token.id) ∷ (secret_key, token.secret) ∷ [])
  unfolding encode_token_secret_data
  get-encoded k token now (description, expires, last) =
      get-groups k token.groups _ last
      ∙ get-usages k token.usages _ last
      ∙ get-expiration k (expiration token now) _ expires
      ∙ get-description k token.description _ description

  -- The text of an expiration, empty where there is none.
  abbrev pub expiration_text : Option ℕ → String
  expiration_text none = ""
  expiration_text (some t) = K.format_time t

  get-written :
      (o : Option ℕ) (m : StringMap)
      → get_or_empty expiration_key m ≡ ""
      → get_or_empty expiration_key (put_expiration K o m) ≡ expiration_text o
  unfolding put_expiration
  get-written none m empty = empty
  get-written (some t) m empty = get-insert expiration_key _ m

  -- Where the keys of the token API differ, the secret of a token gives back the token's id and secret,
  -- and under the key of the expiration the token's date of expiry, or without one the time of the
  -- encoding and the token's life, where that is positive, or else nothing.
  pub encode_token_reads :
      (token : BootstrapToken) (now : ℕ)
      → IsKept id_key
      → IsKept secret_key
      → id_key ≢ secret_key
      → IsKeptLast expiration_key
      → description_key ≢ expiration_key
      → id_key ≢ expiration_key
      → secret_key ≢ expiration_key
      → (get_or_empty id_key (encode_token_secret_data K token now) ≡ token.id)
        × (get_or_empty secret_key (encode_token_secret_data K token now) ≡ token.secret)
        × ((o : Option ℕ) × ExpiresAt token now o
            × (get_or_empty expiration_key (encode_token_secret_data K token now)
                ≡ expiration_text o))
  unfolding encode_token_secret_data get_or_empty
  encode_token_reads token now id secret apart last description first second = (
    get-encoded id_key token now id ∙ rw (str_eq_refl id_key),
    get-encoded secret_key token now secret
        ∙ rw (differs id_key secret_key apart, str_eq_refl secret_key),
    (
      expiration token now,
      expiration-ExpiresAt token now,
      get-groups expiration_key token.groups _ last
          ∙ get-usages expiration_key token.usages _ last
          ∙ get-written (expiration token now) _ (
              get-description expiration_key token.description _ description
              ∙ rw (differs id_key expiration_key first, differs secret_key expiration_key second)),
    ),
  )
