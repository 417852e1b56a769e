-- ===== src/Web/Pages.antt =====
-- The pages of crates/web/src/handlers/public.rs, me.rs and admin.rs, each the data that its template in
-- crates/web/src/views.rs is given; and `IntoResponse for WebError` of crates/web/src/error.rs.
pub mod Badge
use duck_voyage.Prelude.{
  ℕ, ◌+◌, ◌-◌, ◌*◌, ◌^◌, Bool, true, false, Option, none, some, List, [], ◌∷◌, ltb, leb,
  if◌then◌else◌,
}
use duck_voyage.Prelude.Results.{Res, ok, err, panic, ◌>>=◌, map_err}
use duck_voyage.Prelude.Exec.{pure}
use duck_voyage.Prelude.Exec
use duck_voyage.Prelude.Int.{ℤ, pos, negsuc}
use duck_voyage.Prelude.Text.{Text, codes}
use duck_voyage.Domain.Entities.{Timestamp, Key, Flock}
use duck_voyage.Storage.Rows.{UserRow}
use duck_voyage.Storage.Db.{Db}
use duck_voyage.Storage.Flocks.{flocks_for_owner}
use duck_voyage.Storage.Social.{mark_all_read}
use duck_voyage.Storage.Views.{FlockDuckStatus, for_flock}
use duck_voyage.Storage.Boards.{
  DuckSummary, most_traveled, most_sighted, longest_since_sighting, missing_since,
}
use duck_voyage.Storage.Overviews.{
  RecentFind, MySighting, FollowedDuck, NotificationView, AdminUserOverview, AdminFlockOverview,
  recent, sightings_for_user, followed_ducks, feed, users_overview, flocks_overview,
}
use duck_voyage.Auth.Error.{AuthError, unknown_flow, state_mismatch}
use duck_voyage.Auth.Apple.{latest}
use duck_voyage.Auth.Providers.{Oidc, OidcProviders, ProviderSummary, summaries}
use duck_voyage.Web.State.{
  WebError, not_found, bad_request, photo_store, session, repo, auth, User, Env, App, Caps, Handler,
  run,
}
use duck_voyage.Web.Duck.Handlers.{Redirect}
use duck_voyage.Web.Duck.Pages.{Nav, nav}

pub data SitePage : Type 0 where
  front_page :
      Nav → List RecentFind → List DuckSummary → List DuckSummary → List DuckSummary → SitePage
  missing_page : Nav → List DuckSummary → SitePage
  me_page : Nav → List NotificationView → List MySighting → List FollowedDuck → SitePage
  flocks_page : Nav → Option Text → List (Flock × List FlockDuckStatus) → ℕ → SitePage
  admin_page :
      Nav
      → Option Text
      → List ProviderSummary
      → List AdminUserOverview
      → List AdminFlockOverview
      → SitePage

-- `i32::try_from(days).unwrap_or(365)`
abbrev pub days_of : ℤ → ℤ
days_of (pos n) = if ltb n (2 ^ 31) then pos n else pos 365
days_of (negsuc n) = if ltb n (2 ^ 31) then negsuc n else pos 365

-- `Timestamp::now() - hours.hours()`: a panic outside of jiff's range of instants, and, from
-- `hours`, outside of its range of spans, which is 175,307,616 hours.
abbrev pub hours_before : Timestamp → ℤ → Res WebError Timestamp
hours_before now (pos d) =
    if ltb 175307616 (d * 24)
    then panic
    else if ltb now (d * 24 * 3600)
    then panic
    else ok (now - d * 24 * 3600)
hours_before now (negsuc d) =
    if ltb 175307616 ((d + 1) * 24)
    then panic
    else if ltb latest (now + (d + 1) * 24 * 3600)
    then panic
    else ok (now + (d + 1) * 24 * 3600)

-- The loop of `my_flocks`.
unfoldable pub with_ducks : List Flock → Db → Res WebError (List (Flock × List FlockDuckStatus))
with_ducks [] db = ok []
with_ducks (flock ∷ flocks) db = do
  ducks ← map_err repo (for_flock flock.id db)
  rest ← with_ducks flocks db
  ok ((flock, ducks) ∷ rest)

module _ (env : Env) (app : App env) where
  -- `front`
  unfoldable pub front : Option User → Db → Res WebError SitePage
  front user db = do
    chrome ← nav user db
    let limit = app.caps.front_page_limit
    latest_finds ← map_err repo (recent limit db)
    traveled ← map_err repo (most_traveled limit db)
    seen ← map_err repo (most_sighted limit db)
    adrift ← map_err repo (longest_since_sighting limit db)
    ok (front_page chrome latest_finds traveled seen adrift)

  -- `missing`; `now` is the clock of the server.
  unfoldable pub missing : Timestamp → Option User → Db → Res WebError SitePage
  missing now user db = do
    chrome ← nav user db
    cutoff ← hours_before now (days_of app.caps.missing_after_days)
    ducks ← map_err repo (missing_since cutoff db)
    ok (missing_page chrome ducks)

  -- `me`
  unfoldable pub me : User → Db → Res WebError SitePage
  me user db = do
    chrome ← nav (some user) db
    notifications ← map_err repo (feed user.id (pos 50) db)
    sightings ← map_err repo (sightings_for_user user.id db)
    follows ← map_err repo (followed_ducks user.id db)
    ok (me_page chrome notifications sightings follows)

  -- `mark_notifications_read`
  unfoldable pub mark_notifications_read : User → Handler env Redirect
  mark_notifications_read user =
      Exec.◌>>=◌ (run env (mark_all_read user.id)) (λ _. pure (record { to = codes "/me" }))

  -- `my_flocks`
  unfoldable pub my_flocks : User → Option Text → Db → Res WebError SitePage
  unfolding with_ducks
  my_flocks user flash db = do
    chrome ← nav (some user) db
    flocks ← map_err repo (flocks_for_owner user.id db)
    listed ← with_ducks flocks db
    ok (flocks_page chrome flash listed app.caps.mint_batch_max)

  -- `overview`, of an administrator.
  unfoldable pub overview :
      (oidc : Oidc)
      → OidcProviders oidc
      → (UserRow → UserRow → Bool)
      → User
      → Option Text
      → Db
      → Res WebError SitePage
  overview oidc providers collation admin flash db = do
    chrome ← nav (some admin) db
    users ← map_err repo (users_overview collation db)
    flocks ← map_err repo (flocks_overview db)
    ok (admin_page chrome flash (summaries oidc providers) users flocks)

-- The answer to an error: its status, and whether its text reaches the client.
pub record ErrorResponse : Type 0 where
  pub status : ℕ
  pub detailed : Bool

abbrev pub internal : ErrorResponse
internal = record { status = 500; detailed = false }

-- `IntoResponse for WebError`
unfoldable pub into_response : WebError → ErrorResponse
into_response not_found = record { status = 404; detailed = false }
into_response bad_request = record { status = 400; detailed = true }
into_response (auth unknown_flow) = record { status = 400; detailed = false }
into_response (auth state_mismatch) = record { status = 400; detailed = false }
into_response (auth _) = internal
into_response (repo e) = internal
into_response photo_store = internal
into_response session = internal
