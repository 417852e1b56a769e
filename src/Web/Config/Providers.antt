-- ===== src/Web/Config/Providers.antt =====
-- crates/web/src/config.rs: the OIDC providers that the environment declares.
use duck_voyage.Prelude.{
  Bool, Option, none, some, List, [], ◌∷◌, ◌++◌, ◌==◌, ◌||◌, if◌then◌else◌, map_option, and_then,
}
use duck_voyage.Prelude.Results.{Res, ok, ◌>>=◌, ok_or}
use duck_voyage.Prelude.Text.{Text, text_eq, codes}
use duck_voyage.Auth.Providers.{OidcProviderConfig, static, apple}
use duck_voyage.Web.Config.{ConfigError, invalid, Platform, Vars, optional, or_default}

-- `Option::zip`
abbrev pub zip {ℓ κ} : {A : Type ℓ} {B : Type κ} → Option A → Option B → Option (A × B)
zip (some a) (some b) = some (a, b)
zip _ _ = none

unfoldable pub google : Vars → Option OidcProviderConfig
google vars =
    map_option
      (λ (p : Text × Text). record {
        slug = codes "google";
        display_name = codes "Google";
        issuer_url = codes "https://accounts.google.com";
        client_id = p.0;
        secret = static p.1;
      })
      (zip (optional (codes "OIDC_GOOGLE_CLIENT_ID") vars)
        (optional (codes "OIDC_GOOGLE_SECRET") vars))

unfoldable pub entra : Vars → Option OidcProviderConfig
entra vars =
    map_option
      (λ (p : (Text × Text) × Text). record {
        slug = codes "entra";
        display_name = codes "Microsoft";
        issuer_url = codes "https://login.microsoftonline.com/" ++ p.1 ++ codes "/v2.0";
        client_id = p.0.0;
        secret = static p.0.1;
      })
      (zip
        (zip (optional (codes "OIDC_ENTRA_CLIENT_ID") vars)
          (optional (codes "OIDC_ENTRA_SECRET") vars))
        (optional (codes "OIDC_ENTRA_TENANT") vars))

unfoldable pub apple_config : Vars → Option OidcProviderConfig
apple_config vars =
    map_option
      (λ (p : (Text × Text) × (Text × Text)). record {
        slug = codes "apple";
        display_name = codes "Apple";
        issuer_url = codes "https://appleid.apple.com";
        client_id = p.0.0;
        secret = apple (record { team_id = p.0.1; key_id = p.1.0; private_key_pem = p.1.1 });
      })
      (zip
        (zip (optional (codes "OIDC_APPLE_CLIENT_ID") vars)
          (optional (codes "OIDC_APPLE_TEAM_ID") vars))
        (zip (optional (codes "OIDC_APPLE_KEY_ID") vars)
          (optional (codes "OIDC_APPLE_PRIVATE_KEY") vars)))

-- `str::strip_prefix` and `str::strip_suffix`
abbrev pub strip_prefix : Text → Text → Option Text
strip_prefix [] s = some s
strip_prefix (p ∷ ps) [] = none
strip_prefix (p ∷ ps) (c ∷ s) = let rest = strip_prefix ps s in if c == p then rest else none

abbrev pub strip_suffix : Text → Text → Option Text
strip_suffix suffix [] = if text_eq suffix [] then some [] else none
strip_suffix suffix (c ∷ s) =
    let rest = strip_suffix suffix s in
    if text_eq (c ∷ s) suffix then some [] else map_option (λ r. c ∷ r) rest

-- RESERVED
abbrev pub is_reserved : Text → Bool
is_reserved slug =
    text_eq slug (codes "GOOGLE") || (text_eq slug (codes "ENTRA") || text_eq slug (codes "APPLE"))

-- The slug that a variable declares: OIDC_<SLUG>_ISSUER.
unfoldable pub declared : Text → Option Text
declared key = and_then (strip_prefix (codes "OIDC_") key) (λ rest.
    and_then (strip_suffix (codes "_ISSUER") rest)
      (λ slug. if is_reserved slug then none else some slug))

abbrev pub slug_var : Text → Text → Text
slug_var slug suffix = codes "OIDC_" ++ slug ++ codes "_" ++ suffix

-- The closure `require`.
unfoldable pub require : Text → Text → Vars → Res ConfigError Text
require slug suffix vars =
    ok_or (optional (slug_var slug suffix) vars) (invalid (slug_var slug suffix))

-- The lowered slug with its first letter raised.
abbrev pub capitalized : Platform → Text → Text
capitalized platform [] = []
capitalized platform (c ∷ s) = platform.to_uppercase c ++ s

unfoldable pub generic_provider : Platform → Vars → Text → Res ConfigError OidcProviderConfig
unfolding require
generic_provider platform vars slug = do
  issuer ← require slug (codes "ISSUER") vars
  client_id ← require slug (codes "CLIENT_ID") vars
  secret ← require slug (codes "SECRET") vars
  ok (record {
    slug = platform.to_lowercase slug;
    display_name =
        or_default (optional (slug_var slug (codes "DISPLAY_NAME")) vars)
          (capitalized platform (platform.to_lowercase slug));
    issuer_url = issuer;
    client_id = client_id;
    secret = static secret;
  })

-- The generic providers, of the variables in their order; the first error decides.
unfoldable pub generic : Platform → Vars → Vars → Res ConfigError (List OidcProviderConfig)
unfolding generic_provider
generic platform vars [] = ok []
generic platform vars ((key, value) ∷ rest) = elim (declared key) [
  | none ↦ generic platform vars rest
  | some slug ↦
      generic_provider platform vars slug >>= λ p. generic platform vars rest >>= λ ps. ok (p ∷ ps)
]

abbrev pub listed : Option OidcProviderConfig → List OidcProviderConfig → List OidcProviderConfig
listed none rest = rest
listed (some p) rest = p ∷ rest

-- `AppConfig::oidc_from_env`
unfoldable pub oidc_from_env : Platform → Vars → Res ConfigError (List OidcProviderConfig)
unfolding google entra apple_config generic declared
oidc_from_env platform vars = generic platform vars vars >>= λ others.
    ok (listed (google vars) (listed (entra vars) (listed (apple_config vars) others)))
