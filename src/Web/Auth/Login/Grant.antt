-- ===== src/Web/Auth/Login/Grant.antt =====
-- What a callback of a login uses up and grants (crates/web/src/handlers/auth_routes.rs).
use duck_voyage.Prelude.{◌≡◌, refl, ◌∙◌, Bool, Option, none, Option-cases, inl, inr, map_option}
use duck_voyage.Prelude.Results.{Res, ok, err, panic, guard, ok_or}
use duck_voyage.Prelude.Text.{Text}
use duck_voyage.Prelude.Exec.{continue, lift, ◌>>=◌}
use duck_voyage.Prelude.Tables.{find, delete}
use duck_voyage.Prelude.Tables.Laws
use duck_voyage.Domain.Entities.{Timestamp}
use duck_voyage.Domain.BoundedText.{OidcSubject}
use duck_voyage.Storage.Users.{upsert, same_identity}
use duck_voyage.Storage.Social.{take_flow, fresh, stored_flow}
use duck_voyage.Auth.Error.{unknown_flow}
use duck_voyage.Auth.Providers.{Oidc, OidcProviders}
use duck_voyage.Web.State.{WebError, session, auth, Env, App, World, Handler, run}
use duck_voyage.Web.Auth.Login.{SessionWrites, CallbackParams, callback}

-- The login flows and the clock of the tables that requests change.
module _ (env : Env) where
  abbrev pub SameFlows : World env → World env → Type 0
  SameFlows a b = (b.db.flows ≡ a.db.flows) × (b.db.now ≡ a.db.now)

  abbrev KeepsFlows : {A : Type 0} → Handler env A → Type 0
  KeepsFlows m = (w : World env) → SameFlows w (m w).1

  keeps-continue :
      {A B : Type 0} (r : Res WebError A) (f : A → Handler env B) (w : World env)
      → ((a : A) → KeepsFlows (f a))
      → SameFlows w (continue r f w).1
  keeps-continue (ok a) f w h = h a w
  keeps-continue (err e) f w h = (refl, refl)
  keeps-continue panic f w h = (refl, refl)

  keeps-bind :
      {A B : Type 0} (m : Handler env A) (f : A → Handler env B)
      → KeepsFlows m
      → ((a : A) → KeepsFlows (f a))
      → KeepsFlows (m >>= f)
  keeps-bind m f hm hf w =
      let (flows, now) = hm w in
      let (flows', now') = keeps-continue (m w).0 f (m w).1 hf in (flows' ∙ flows, now' ∙ now)

  keeps-lift :
      {A B : Type 0} (r : Res WebError A) (f : A → Handler env B)
      → ((a : A) → KeepsFlows (f a))
      → KeepsFlows (lift r >>= f)
  keeps-lift r f h w = keeps-continue r f w h

  keeps-upsert :
      (oidc : OidcSubject) (name email : Option Text) (grant : Bool)
      → KeepsFlows (run env (upsert oidc name email grant))
  unfolding upsert
  keeps-upsert oidc name email grant w =
      elim (Option-cases (find (same_identity oidc) w.db.users)) [
        | inl e ↦ rw (e, upsert) (refl, refl)
        | inr (r, e) ↦ rw (e, upsert) (refl, refl)
      ]

  module _ (app : App env) (oidc : Oidc) (all : OidcProviders oidc) where
    -- The tables after a callback have its flow taken out, whatever the outcome.
    callback-takes :
        (now : Timestamp) (writes : SessionWrites) (provider : Text) (params : CallbackParams)
        (w : World env)
        → SameFlows
            (record w { db = (take_flow params.state w.db).1 })
            (callback env app oidc all now writes provider params w).1
    unfolding callback take_flow
    callback-takes now writes provider params w =
        keeps-lift
          (ok_or (map_option stored_flow (find (fresh params.state w.db.now) w.db.flows))
            (auth unknown_flow))
          _
          (λ stored. keeps-lift _ _ (λ identity.
            keeps-bind (run env (upsert identity.subject identity.display_name identity.email _)) _
              (keeps-upsert identity.subject identity.display_name identity.email _)
              (λ user.
                keeps-lift (guard writes.cycled session) _
                  (λ _. keeps-lift (guard writes.stored session) _ (λ _ v. (refl, refl))))))
          (record w { db = (take_flow params.state w.db).1 })

    callback-unknown :
        (now : Timestamp) (writes : SessionWrites) (provider : Text) (params : CallbackParams)
        (w : World env)
        → find (fresh params.state w.db.now) w.db.flows ≡ none
        → (callback env app oidc all now writes provider params w).0 ≡ err (auth unknown_flow)
    unfolding callback take_flow
    callback-unknown now writes provider params w h = rw h refl

    -- Right after a callback, whatever its outcome, a callback with the same state fails as one of
    -- an unknown login flow, for any provider, code and payload.
    pub callback_once :
        (now later : Timestamp) (writes writes' : SessionWrites) (provider other : Text)
        (params params' : CallbackParams) (w : World env)
        → params'.state ≡ params.state
        → (callback env app oidc all later writes' other params'
            (callback env app oidc all now writes provider params w).1).0
          ≡ err (auth unknown_flow)
    callback_once now later writes writes' provider other params params' w same =
        let after = (callback env app oidc all now writes provider params w).1 in
        let (flows, clock) = callback-takes now writes provider params w in
        let gone : find (fresh params.state w.db.now)
              (delete (fresh params.state w.db.now) w.db.flows)
            ≡ none =
          Laws.find-none (fresh params.state w.db.now) _
            (Laws.exists-delete_self (fresh params.state w.db.now) w.db.flows) in
        callback-unknown later writes' other params' after
          (unfold take_flow in rw (same, clock, flows) gone)
