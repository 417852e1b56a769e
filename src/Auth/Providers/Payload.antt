-- ===== src/Auth/Providers/Payload.antt =====
-- What completing a login rests on (crates/auth/src/providers.rs).
use duck_voyage.Prelude.{◌≡◌, refl, false, Option, none, some, ap, sym, ◌∙◌, subst}
use duck_voyage.Prelude.Results.{
  ok, ok_injective, >>=-eq-ok, guard-eq-ok, ok_or-eq-ok, guard, ok_or,
}
use duck_voyage.Prelude.Text.{Text, text_eq, text_eq_sound}
use duck_voyage.Domain.Entities.{Timestamp}
use duck_voyage.Auth.Error.{state_mismatch, token_exchange, id_token}
use duck_voyage.Auth.Providers.{
  SecretSource, static, apple, is_apple, Claims, Identity, LoginFlow, Oidc, ProviderHandle,
  OidcProviders, Client, Request, handle, client, begin, complete, apple_user, identity,
}

module _ (oidc : Oidc) (all : OidcProviders oidc) where
  open oidc use {Metadata, Token}

  -- That an identity rests on claims verified for a client of the provider, under a verifier and a nonce.
  abbrev pub IsVerified : Timestamp → Text → Text → Text → Text → Identity → Type 0
  IsVerified now slug code verifier nonce id =
      (p : ProviderHandle oidc) × (c : Client oidc) × (token : Token) × (claims : Claims) × (handle
          oidc all slug
        ≡ ok p)
      × (client oidc all now p ≡ ok c)
      × (oidc.exchange c.metadata c.client_id c.secret c.redirect c.request_body code verifier
          ≡ some token)
      × (oidc.verify c.metadata c.client_id token nonce ≡ some claims)
      × (id.subject ≡ record { issuer = claims.issuer; subject = claims.subject })

  complete_sound :
      (now : Timestamp) (slug : Text) (flow : LoginFlow) (code : Text) (payload : Option Text)
      (id : Identity)
      → complete oidc all now slug flow code payload ≡ ok id
      → (flow.provider ≡ slug) × IsVerified now slug code flow.pkce_verifier flow.nonce id
  unfolding complete identity
  complete_sound now slug flow code payload id h =
      let (u, e0, h0) = >>=-eq-ok (guard (text_eq flow.provider slug) state_mismatch) _ h in
      let (p, e1, h1) = >>=-eq-ok (handle oidc all slug) _ h0 in
      let (c, e2, h2) = >>=-eq-ok (client oidc all now p) _ h1 in
      let (token, e3, h3) =
        >>=-eq-ok
          (ok_or
            (oidc.exchange c.metadata c.client_id c.secret c.redirect c.request_body code
              flow.pkce_verifier)
            token_exchange)
          _ h2 in
      let (claims, e4, h4) =
        >>=-eq-ok (ok_or (oidc.verify c.metadata c.client_id token flow.nonce) id_token) _ h3 in
      (
        text_eq_sound flow.provider slug (guard-eq-ok _ _ e0),
        (
          p,
          c,
          token,
          claims,
          e1,
          e2,
          ok_or-eq-ok _ _ e3,
          ok_or-eq-ok _ _ e4,
          ap (λ (i : Identity). i.subject) (sym (ok_injective h4)),
        ),
      )

  -- A login that was begun is completed only for the provider it was begun with, and only by a
  -- code exchanged under the verifier drawn then, for a token whose claims are verified under the
  -- nonce drawn then, which give the subject of the identity.
  pub complete-begin :
      (now later : Timestamp) (slug other : Text) (return_to : Option Text)
      (state verifier nonce code : Text) (payload : Option Text) (request : Request oidc)
      (flow : LoginFlow) (id : Identity)
      → begin oidc all now slug return_to state verifier nonce ≡ ok (request, flow)
      → complete oidc all later other flow code payload ≡ ok id
      → (other ≡ slug) × IsVerified later slug code verifier nonce id
  unfolding begin
  complete-begin now later slug other return_to state verifier nonce code payload request flow id hb
        hc =
      let (p, e1, h1) = >>=-eq-ok (handle oidc all slug) _ hb in
      let (c, e2, h2) = >>=-eq-ok (client oidc all now p) _ h1 in
      let same = ap (λ (x : Request oidc × LoginFlow). x.1) (ok_injective h2) in
      let (named, verified) = complete_sound later other flow code payload id hc in
      let here = sym (ap (λ (f : LoginFlow). f.provider) same ∙ named) in
      (
        here,
        subst (λ s. IsVerified later s code verifier nonce id) here
            (subst (λ v. IsVerified later other code v nonce id)
              (sym (ap (λ (f : LoginFlow). f.pkce_verifier) same))
              (subst (λ n. IsVerified later other code flow.pkce_verifier n id)
                (sym (ap (λ (f : LoginFlow). f.nonce) same)) verified)),
      )

  apple_user-static :
      (secret : SecretSource) (payload : Option Text)
      → is_apple secret ≡ false
      → apple_user oidc secret payload ≡ none
  unfolding apple_user
  apple_user-static (static s) payload h = refl
  apple_user-static (apple a) payload h = cc

  -- For a provider whose secret is not Apple's, the user payload of the callback makes no
  -- difference to the outcome of a login.
  pub complete-payload :
      (now : Timestamp) (slug : Text) (flow : LoginFlow) (code : Text) (payload : Option Text)
      (p : ProviderHandle oidc)
      → handle oidc all slug ≡ ok p
      → is_apple p.secret ≡ false
      → complete oidc all now slug flow code payload ≡ complete oidc all now slug flow code none
  unfolding complete
  complete-payload now slug flow code payload p h plain =
      rw (h, apple_user-static p.secret payload plain, apple_user-static p.secret none plain) refl
