-- ===== src/Auth/Providers.antt =====
-- crates/auth/src/providers.rs: the providers discovered at boot, and the two halves of a login. What the
-- code takes of the crates openidconnect, jsonwebtoken and serde_json is an interface.
pub mod Payload
use duck_voyage.Prelude.{
  ℕ, Bool, true, false, Option, none, some, List, [], ◌∷◌, ◌++◌, map, map_option, and_then,
  if◌then◌else◌,
}
use duck_voyage.Prelude.Results.{Res, ok, err, panic, ◌>>=◌, ◌>>◌, ok_or, guard}
use duck_voyage.Prelude.Text.{Text, text_eq, codes, trim_end_matches}
use duck_voyage.Prelude.Tables.{find}
use duck_voyage.Domain.BoundedText.{OidcSubject}
use duck_voyage.Domain.Entities.{Timestamp}
use duck_voyage.Auth.Error.{
  AuthError, unknown_provider, discovery, state_mismatch, token_exchange, id_token, config,
}
use duck_voyage.Auth.Apple.{
  AppleClaims, AppleSecret, AppleCallbackUser, mint, apple_display_name, apple_email,
}

pub data SecretSource : Type 0 where
  static : Text → SecretSource
  apple : AppleSecret → SecretSource

pub record OidcProviderConfig : Type 0 where
  pub slug : Text
  pub display_name : Text
  pub issuer_url : Text
  pub client_id : Text
  pub secret : SecretSource

-- The claims of a verified id_token that the program reads.
pub record Claims : Type 0 where
  pub issuer : Text
  pub subject : Text
  pub name : Option Text
  pub preferred_username : Option Text
  pub email : Option Text

-- `Metadata` is what discovery finds, and a `Token` what a token endpoint answers. `issuer_url` and
-- `redirect_url` say whether a text is a URL, `discover` is none when discovery fails, and so for the
-- exchange of a code by a client under a PKCE verifier; `verify` gives the claims of an id_token that is
-- there and valid under the nonce.
pub record Oidc : Type 1 where
  pub Metadata : Type 0
  pub Token : Type 0
  pub builds : Bool
  pub issuer_url : Text → Bool
  pub redirect_url : Text → Bool
  pub discover : Text → Option Metadata
  pub sign : Text → Text → AppleClaims → Option Text
  pub parse_user : Text → Option AppleCallbackUser
  pub exchange : Metadata → Text → Text → Text → Bool → Text → Text → Option Token
  pub verify : Metadata → Text → Token → Text → Option Claims

pub record ProviderSummary : Type 0 where
  pub slug : Text
  pub display_name : Text

-- `OidcIdentity`
pub record Identity : Type 0 where
  pub subject : OidcSubject
  pub display_name : Option Text
  pub email : Option Text

pub record LoginFlow : Type 0 where
  pub state : Text
  pub provider : Text
  pub pkce_verifier : Text
  pub nonce : Text
  pub return_to : Option Text

abbrev pub is_apple : SecretSource → Bool
is_apple (static s) = false
is_apple (apple a) = true

-- `ProviderHandle::scopes`
unfoldable pub scopes : SecretSource → List Text
scopes secret =
    if is_apple secret
    then codes "name" ∷ codes "email" ∷ []
    else codes "profile" ∷ codes "email" ∷ []

module _ (oidc : Oidc) where
  open oidc use {Metadata, Token}

  pub record ProviderHandle : Type 0 where
    pub slug : Text
    pub display_name : Text
    pub metadata : Metadata
    pub client_id : Text
    pub secret : SecretSource

  pub record OidcProviders : Type 0 where
    pub providers : List ProviderHandle
    pub redirect_base : Text

  -- The loop of `discover`; the first failure decides.
  unfoldable pub discover_all : List OidcProviderConfig → Res AuthError (List ProviderHandle)
  discover_all [] = ok []
  discover_all (c ∷ configs) = do
    guard (oidc.issuer_url c.issuer_url) config
    metadata ← ok_or (oidc.discover c.issuer_url) discovery
    rest ← discover_all configs
    ok (
        record {
          slug = c.slug;
          display_name = c.display_name;
          metadata = metadata;
          client_id = c.client_id;
          secret = c.secret;
        }
        ∷ rest)

  -- `OidcProviders::discover`
  unfoldable pub discover : List OidcProviderConfig → Text → Res AuthError OidcProviders
  unfolding discover_all
  discover configs base_url = do
    guard oidc.builds config
    providers ← discover_all configs
    ok (record { providers = providers; redirect_base = trim_end_matches b'/' base_url })

  unfoldable pub summaries : OidcProviders → List ProviderSummary
  summaries all =
      map (λ (p : ProviderHandle). record { slug = p.slug; display_name = p.display_name })
        all.providers

  -- `OidcProviders::handle`: the first provider with the slug.
  unfoldable pub handle : OidcProviders → Text → Res AuthError ProviderHandle
  handle all slug = ok_or (find (λ p. text_eq p.slug slug) all.providers) unknown_provider

  -- The client of a provider: its secret, its redirect URI, and whether the secret travels in the body.
  pub record Client : Type 0 where
    pub metadata : Metadata
    pub client_id : Text
    pub secret : Text
    pub redirect : Text
    pub request_body : Bool

  unfoldable pub secret_of : Timestamp → ProviderHandle → Res AuthError Text
  secret_of now p = elim p.secret [ static s ↦ ok s | apple a ↦ mint oidc.sign now a p.client_id ]

  -- `OidcProviders::client`, at an instant.
  unfoldable pub client : OidcProviders → Timestamp → ProviderHandle → Res AuthError Client
  unfolding secret_of
  client all now p = do
    secret ← secret_of now p
    let redirect = all.redirect_base ++ codes "/auth/callback/" ++ p.slug
    guard (oidc.redirect_url redirect) config
    ok (record {
      metadata = p.metadata;
      client_id = p.client_id;
      secret = secret;
      redirect = redirect;
      request_body = is_apple p.secret;
    })

  -- What the authorization URL of `begin` carries; the challenge is one of the verifier.
  pub record Request : Type 0 where
    pub client : Client
    pub state : Text
    pub nonce : Text
    pub challenged : Text
    pub scopes : List Text
    pub form_post : Bool

  -- `OidcProviders::begin`, with the state, verifier and nonce that openidconnect draws.
  unfoldable pub begin :
      OidcProviders
      → Timestamp
      → Text
      → Option Text
      → Text
      → Text
      → Text
      → Res AuthError (Request × LoginFlow)
  unfolding handle client scopes
  begin all now slug return_to state verifier nonce = do
    p ← handle all slug
    c ← client all now p
    ok (
      record {
        client = c;
        state = state;
        nonce = nonce;
        challenged = verifier;
        scopes = scopes p.secret;
        form_post = is_apple p.secret;
      },
      record {
        state = state;
        provider = slug;
        pkce_verifier = verifier;
        nonce = nonce;
        return_to = return_to;
      },
    )

  abbrev pub or_else {ℓ} : {A : Type ℓ} → Option A → Option A → Option A
  or_else none other = other
  or_else (some a) other = some a

  -- `handle.is_apple().then(|| user_payload.and_then(AppleCallbackUser::parse)).flatten()`
  unfoldable pub apple_user : SecretSource → Option Text → Option AppleCallbackUser
  apple_user (static s) payload = none
  apple_user (apple a) payload = and_then payload oidc.parse_user

  -- The end of `complete`: what the claims and Apple's payload tell of the user.
  unfoldable pub identity : Claims → Option AppleCallbackUser → Identity
  identity claims user = record {
    subject = record { issuer = claims.issuer; subject = claims.subject };
    display_name =
        or_else claims.name (or_else (and_then user apple_display_name) claims.preferred_username);
    email = or_else claims.email (and_then user apple_email);
  }

  -- `OidcProviders::complete`
  unfoldable pub complete :
      OidcProviders → Timestamp → Text → LoginFlow → Text → Option Text → Res AuthError Identity
  unfolding handle client apple_user identity
  complete all now slug flow code payload = do
    guard (text_eq flow.provider slug) state_mismatch
    p ← handle all slug
    c ← client all now p
    token ←
        ok_or
          (oidc.exchange c.metadata c.client_id c.secret c.redirect c.request_body code
            flow.pkce_verifier)
          token_exchange
    claims ← ok_or (oidc.verify c.metadata c.client_id token flow.nonce) id_token
    ok (identity claims (apple_user p.secret payload))
