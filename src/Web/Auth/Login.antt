-- ===== src/Web/Auth/Login.antt =====
-- crates/web/src/handlers/auth_routes.rs: the routes of a login.
pub mod Grant
use duck_voyage.Prelude.{ℕ, Bool, true, false, Option, none, some, List, [], ◌∷◌}
use duck_voyage.Prelude.Results.{Res, ok, err, panic, guard, ok_or, map_err}
use duck_voyage.Prelude.Text.{Text, codes}
use duck_voyage.Prelude.Exec.{Exec, pure, raise, lift, ◌>>=◌, ◌>>◌}
use duck_voyage.Domain.Entities.{Key, Timestamp, AppUser}
use duck_voyage.Storage.Users.{upsert}
use duck_voyage.Storage.Social.{StoredLoginFlow, put_flow, take_flow}
use duck_voyage.Storage.Db.{Db}
use duck_voyage.Auth.Error.{AuthError, unknown_flow}
use duck_voyage.Auth.Providers.{
  Oidc, OidcProviders, Request, LoginFlow, Identity, ProviderSummary, summaries,
}
use duck_voyage.Auth.Providers
use duck_voyage.Web.State.{
  WebError, session, auth, User, Env, App, World, Handler, run, is_admin_identity,
}
use duck_voyage.Web.Duck.Handlers.{Redirect}
use duck_voyage.Web.Duck.Pages.{Nav, nav}
use duck_voyage.Web.Auth.{safe_return_to}

-- What the session store made of the two writes of a login: a new session id, and the user.
pub record SessionWrites : Type 0 where
  pub cycled : Bool
  pub stored : Bool

pub record CallbackParams : Type 0 where
  pub code : Text
  pub state : Text
  pub user : Option Text

abbrev pub stored_of : LoginFlow → StoredLoginFlow
stored_of flow = record {
  state = flow.state;
  provider = flow.provider;
  pkce_verifier = flow.pkce_verifier;
  nonce = flow.nonce;
  return_to = flow.return_to;
}

abbrev pub flow_of : StoredLoginFlow → LoginFlow
flow_of stored = record {
  state = stored.state;
  provider = stored.provider;
  pkce_verifier = stored.pkce_verifier;
  nonce = stored.nonce;
  return_to = stored.return_to;
}

abbrev pub or_home : Option Text → Text
or_home none = codes "/"
or_home (some r) = r

-- The data of `Page::login`.
pub record LoginPage : Type 0 where
  pub chrome : Nav
  pub providers : List ProviderSummary
  pub return_to : Option Text

module _ (env : Env) (app : App env) (oidc : Oidc) (providers : OidcProviders oidc) where
  unfoldable pub login_page : Option User → Option Text → Db → Res WebError LoginPage
  login_page user return_to db = duck_voyage.Prelude.Results.◌>>=◌ (nav user db) (λ chrome.
      ok (record {
        chrome = chrome;
        providers = summaries oidc providers;
        return_to = safe_return_to return_to;
      }))

  -- `begin`, with the state, verifier and nonce that openidconnect draws; the browser is sent to the
  -- URL of the request.
  unfoldable pub begin :
      Timestamp → Text → Option Text → Text → Text → Text → Handler env (Request oidc)
  begin now provider return_to state verifier nonce = do
    begun ← lift (
        map_err auth (
          Providers.begin oidc providers now provider (safe_return_to return_to) state verifier
            nonce))
    run env (put_flow (stored_of begun.1))
    pure begun.0

  -- `callback`, which `callback_get` and `callback_post` share: the user that the session gets, and the
  -- redirect.
  unfoldable pub callback :
      Timestamp → SessionWrites → Text → CallbackParams → Handler env (User × Redirect)
  callback now writes provider params = do
    taken ← run env (take_flow params.state)
    stored ← lift (ok_or taken (auth unknown_flow))
    identity ← lift (
        map_err auth
          (Providers.complete oidc providers now provider (flow_of stored) params.code params.user))
    let grant_admin =
        is_admin_identity env app.admin_identities identity.subject.issuer identity.subject.subject
    user ← run env (upsert identity.subject identity.display_name identity.email grant_admin)
    lift (guard writes.cycled session)
    lift (guard writes.stored session)
    pure (
      record { id = user.id; display_name = user.display_name; is_admin = user.is_admin },
      record { to = or_home (safe_return_to stored.return_to) },
    )

  -- `logout`, and whether the session could be cleared.
  unfoldable pub logout : Bool → Handler env Redirect
  logout cleared = do lift (guard cleared session); pure (record { to = codes "/" })
