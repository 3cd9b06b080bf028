-- ===== src/Tests/Secrets.antt =====
-- The theorem on the secret of a bootstrap token at a concrete input.
use nodedeploy_controller.Prelude.{
  ℕ, refl, ap, sym, ◌∙◌, String, ◌<>◌, ◌≡◌, ◌≢◌, none, some, [], ◌∷◌, arith, Option,
}
use Prim.Native.Char.{code}
use text.Mathlib.TextLemmas.{cons-append}
use nodedeploy_controller.Duration.{pos}
use nodedeploy_controller.Token.{
  get_token, new_bootstrap_token, create_or_update_secret, get_or_empty, BootstrapToken,
  encode_token_secret_data,
}
use nodedeploy_controller.Token.Encoding.{
  encode_token_reads, expiration_text, ExpiresAt, IsKept, IsKeptLast,
}
use nodedeploy_controller.Tests.World.{World, test_kube, test_env, a_deploy, a_world, started}
use nodedeploy_controller.Api.{active, init}
use nodedeploy_controller.Machine.{ok, State, ◌>>=◌}
use nodedeploy_controller.Env.{Secret}
use nodedeploy_controller.Token.Issue.{IsKeyed, token_of, get_token_issues}

abbrev a_token : BootstrapToken
a_token = record {
  id = "abcdef";
  secret = "0123456789abcdef";
  description = "";
  ttl = some (pos 10);
  expires = none;
  usages = "signing" ∷ [];
  groups = "system:bootstrappers" ∷ [];
}

abbrev first_code : String → ℕ
first_code String.[] = 0
first_code (String.◌∷◌ c s) = code c

starts_usage : (u t : String) → ("usage-bootstrap-" <> u) ≡ t → first_code t ≡ 117
starts_usage u t e = ap first_code (sym e ∙ cons-append "u" "sage-bootstrap-" u)

id_usage : (u : String) → ("usage-bootstrap-" <> u) ≢ "token-id"
id_usage u e = let same = starts_usage u _ e in omega arith

id-IsKept : IsKept test_kube "token-id"
id-IsKept = ((λ e. cc), (λ e. cc), ((λ e. cc), id_usage))

secret_usage : (u : String) → ("usage-bootstrap-" <> u) ≢ "token-secret"
secret_usage u e = let same = starts_usage u _ e in omega arith

secret-IsKept : IsKept test_kube "token-secret"
secret-IsKept = ((λ e. cc), (λ e. cc), ((λ e. cc), secret_usage))

expiration_usage : (u : String) → ("usage-bootstrap-" <> u) ≢ "expiration"
expiration_usage u e = let same = starts_usage u _ e in omega arith

expiration_kept : IsKeptLast test_kube "expiration"
expiration_kept = ((λ e. cc), expiration_usage)

encode_token_reads_example :
    (get_or_empty "token-id" (encode_token_secret_data test_kube a_token 7) ≡ "abcdef")
    × (get_or_empty "token-secret" (encode_token_secret_data test_kube a_token 7)
        ≡ "0123456789abcdef")
    × ((o : Option ℕ) × ExpiresAt a_token 7 o
        × (get_or_empty "expiration" (encode_token_secret_data test_kube a_token 7)
            ≡ expiration_text test_kube o))
encode_token_reads_example =
    encode_token_reads test_kube a_token 7 id-IsKept secret-IsKept (λ e. cc) expiration_kept
      (λ e. cc) (λ e. cc) (λ e. cc)

keyed : IsKeyed test_kube
keyed = record {
  id_kept = id-IsKept;
  secret_kept = secret-IsKept;
  id_secret = λ e. cc;
  expiration_kept = expiration_kept;
  description_expiration = λ e. cc;
  id_expiration = λ e. cc;
  secret_expiration = λ e. cc;
}

abbrev from_idle : State World
from_idle = started (a_world (a_deploy active init none))

abbrev handed_out : State World
handed_out = (get_token test_env from_idle).1

get_token_given : get_token test_env from_idle ≡ (ok "abcdef.0123456789abcdef", handed_out)
unfolding get_token ◌>>=◌ new_bootstrap_token create_or_update_secret
get_token_given = refl

get_token_issues_example :
    (secret : Secret) × (u : State World) × (create_or_update_secret test_env secret u
      ≡ (ok tt, handed_out))
    × ("abcdef.0123456789abcdef" ≡ token_of test_kube secret)
get_token_issues_example =
    get_token_issues test_env keyed "abcdef.0123456789abcdef" from_idle handed_out get_token_given
