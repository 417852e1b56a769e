-- ===== src/Examples/Logins.antt =====
-- The theorems on logins, at one provider.
use duck_voyage.Prelude.{◌≡◌, refl, true, false, none, some, [], ◌∷◌}
use duck_voyage.Prelude.Results.{ok, err}
use duck_voyage.Prelude.Text.{Text, codes}
use duck_voyage.Auth.Error.{unknown_flow}
use duck_voyage.Auth.Providers.{
  Oidc, OidcProviders, ProviderHandle, Request, LoginFlow, Identity, static, handle, begin,
  complete, secret_of, client,
}
use duck_voyage.Auth.Providers.Payload.{IsVerified, complete-begin}
use duck_voyage.Web.State.{auth, World}
use duck_voyage.Web.Auth.Login.{CallbackParams, SessionWrites, callback}
use duck_voyage.Web.Auth.Login.Grant.{callback_once}
use duck_voyage.Storage.Social.{put_flow}
use duck_voyage.Examples.Data.{env, app, db, flow, world}

-- A provider whose tokens are the codes it was given.
abbrev oidc : Oidc
oidc = record {
  Metadata = Unit;
  Token = Text;
  builds = true;
  issuer_url = λ t. true;
  redirect_url = λ t. true;
  discover = λ t. some tt;
  sign = λ pem kid claims. some (codes "jwt");
  parse_user = λ raw. none;
  exchange = λ m id secret redirect body code verifier. some code;
  verify = λ m id token nonce. some (record {
    issuer = codes "i";
    subject = codes "b";
    name = none;
    preferred_username = none;
    email = none;
  });
}

abbrev google : ProviderHandle oidc
google = record {
  slug = codes "google";
  display_name = codes "Google";
  metadata = tt;
  client_id = codes "id";
  secret = static (codes "secret");
}

abbrev all : OidcProviders oidc
all = record { providers = google ∷ []; redirect_base = codes "https://duck.voyage" }

abbrev request : Request oidc
request = record {
  client = record {
    metadata = tt;
    client_id = codes "id";
    secret = codes "secret";
    redirect = codes "https://duck.voyage/auth/callback/google";
    request_body = false;
  };
  state = codes "s";
  nonce = codes "n";
  challenged = codes "v";
  scopes = codes "profile" ∷ codes "email" ∷ [];
  form_post = false;
}

abbrev login : LoginFlow
login = record {
  state = codes "s";
  provider = codes "google";
  pkce_verifier = codes "v";
  nonce = codes "n";
  return_to = none;
}

abbrev finder : Identity
finder = record {
  subject = record { issuer = codes "i"; subject = codes "b" };
  display_name = none;
  email = none;
}

begun :
    begin oidc all 500000000000 (codes "google") none (codes "s") (codes "v") (codes "n")
    ≡ ok (request, login)
unfolding begin handle client secret_of
begun = refl

completed : complete oidc all 500000000600 (codes "google") login (codes "c") none ≡ ok finder
unfolding complete handle client secret_of
completed = refl

complete-begin_example :
    (codes "google" ≡ codes "google")
    × IsVerified oidc all 500000000600 (codes "google") (codes "c") (codes "v") (codes "n") finder
complete-begin_example =
    complete-begin oidc all 500000000000 500000000600 (codes "google") (codes "google") none
      (codes "s") (codes "v") (codes "n") (codes "c") none request login finder begun completed

handled : handle oidc all (codes "google") ≡ ok google
unfolding handle
handled = refl

abbrev waiting : World env
waiting = record world { db = (put_flow flow db).1 }

abbrev params : CallbackParams
params = record { code = codes "c"; state = codes "s"; user = none }

abbrev writes : SessionWrites
writes = record { cycled = true; stored = true }

callback_once_example :
    (callback env app oidc all 500000000700 writes
      (codes "google")
      params
      (callback env app oidc all 500000000600 writes (codes "google") params waiting).1).0
    ≡ err (auth unknown_flow)
callback_once_example =
    callback_once env app oidc all 500000000600 500000000700 writes writes (codes "google")
      (codes "google") params params waiting refl
