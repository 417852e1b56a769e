-- ===== src/Web/Duck/Pages.antt =====
-- The handlers of crates/web/src/handlers/duck.rs that only read. A page is the data that its
-- template in crates/web/src/views.rs is given.
use duck_voyage.Prelude.{
  ℕ, Bool, true, false, Option, none, some, List, ◌==◌, ◌||◌, if◌then◌else◌, map_option,
}
use duck_voyage.Prelude.Results.{Res, ok, err, ◌>>=◌, ◌>>◌, guard, ok_or, map_err}
use duck_voyage.Prelude.Text.{Text}
use duck_voyage.Domain.Codes.{DuckCode}
use duck_voyage.Domain.BoundedText.{DuckName, PhotoRef}
use duck_voyage.Domain.Entities.{
  Timestamp, Key, DuckLifecycle, allocated, staged, sailing, DuckDetails, Duck, Flock, Sighting,
  is_sailing, comments_locked, details,
}
use duck_voyage.Storage.Db.{Db}
use duck_voyage.Storage.Views.{
  SightingView, CommentView, VesselOption, sightings_for_duck, comments_for_duck, vessel_options,
}
use duck_voyage.Storage.Sightings.{sighting_by_id}
use duck_voyage.Storage.Social.{is_following, unread_count}
use duck_voyage.Web.State.{WebError, not_found, photo_store, repo, User, Env, App, World}
use duck_voyage.Web.Duck.{resolve, resolve_sailing, is_owner, can_moderate}

-- `Nav` and `nav` of crates/web/src/handlers/mod.rs
pub record Nav : Type 0 where
  pub display_name : Option Text
  pub logged_in : Bool
  pub is_admin : Bool
  pub unread : ℕ

unfoldable pub nav : Option User → Db → Res WebError Nav
nav none db = ok (record { display_name = none; logged_in = false; is_admin = false; unread = 0 })
nav (some user) db = do
  unread ← map_err repo (unread_count user.id db)
  ok (record {
    display_name = user.display_name;
    logged_in = true;
    is_admin = user.is_admin;
    unread = unread;
  })

-- `DuckView` of crates/web/src/views.rs
pub record DuckView : Type 0 where
  pub code : DuckCode
  pub name : Option Text
  pub description : Text
  pub since : Timestamp
  pub is_owner : Bool
  pub can_moderate : Bool
  pub is_following : Bool
  pub comments_locked : Bool
  pub sightings : List SightingView
  pub comments : List CommentView
  pub vessels : List VesselOption

pub data Page : Type 0 where
  origination_form : Nav → DuckCode → Page
  staged_page : Nav → DuckCode → DuckDetails → Page
  duck_page : Nav → Option Text → DuckView → Page

abbrev pub moderates : Option User → Flock → Bool
moderates none flock = false
moderates (some u) flock = can_moderate u flock

abbrev pub following_of : Option User → Key → Db → Res WebError Bool
following_of none duck db = ok false
following_of (some u) duck db = map_err repo (is_following u.id duck db)

module _ (env : Env) (app : App env) (collation : VesselOption → VesselOption → Bool) where
  open env use {fpe}

  -- The branch of `page` for a sailing duck.
  unfoldable pub sailing_page :
      Nav
      → Option User
      → Option Text
      → Duck
      → Flock
      → DuckDetails
      → Timestamp
      → Db
      → Res WebError Page
  sailing_page chrome user flash duck flock d since db = do
    sightings ← map_err repo (sightings_for_duck duck.id db)
    comments ← map_err repo (comments_for_duck duck.id db)
    vessels ← map_err repo (vessel_options collation db)
    following ← following_of user duck.id db
    ok (
        duck_page chrome flash (record {
          code = duck.code;
          name = map_option (λ (n : DuckName). n.as_str) d.name;
          description = d.description.as_str;
          since = since;
          is_owner = is_owner user flock;
          can_moderate = moderates user flock;
          is_following = following;
          comments_locked = comments_locked duck;
          sightings = sightings;
          comments = comments;
          vessels = vessels;
        }))

  -- The `match` on the lifecycle.
  unfoldable pub page_of :
      Nav → Option User → Option Text → Duck → Flock → DuckLifecycle → Db → Res WebError Page
  page_of chrome user flash duck flock allocated db =
      if is_owner user flock then ok (origination_form chrome duck.code) else err not_found
  page_of chrome user flash duck flock (staged d) db =
      if is_owner user flock then ok (staged_page chrome duck.code d) else err not_found
  page_of chrome user flash duck flock (sailing d since) db =
      sailing_page chrome user flash duck flock d since db

  -- `page`
  unfoldable pub page : Text → Option User → Option Text → Db → Res WebError Page
  page raw_code user flash db = do
    f ← resolve fpe app.codec raw_code db
    chrome ← nav user db
    page_of chrome user flash f.0 f.1 f.0.lifecycle db

  -- `qr_png`, up to the rendering of the code.
  unfoldable pub qr_png : Text → Option User → Db → Res WebError DuckCode
  qr_png raw_code user db = do
    f ← resolve fpe app.codec raw_code db
    guard (is_sailing f.0.lifecycle || is_owner user f.1) not_found
    ok f.0.code

  -- `serve_photo`: the bytes and their content type.
  unfoldable pub serve_photo : PhotoRef → World env → Res WebError (Text × List ℕ)
  serve_photo photo w = do
    bytes ← ok_or (env.store_get photo.key w.store) photo_store
    ok (photo.content_type, bytes)

  abbrev pub visible_details : Bool → Option DuckDetails → Res WebError DuckDetails
  visible_details true (some d) = ok d
  visible_details _ _ = err not_found

  -- `origin_photo`
  unfoldable pub origin_photo : Text → Option User → World env → Res WebError (Text × List ℕ)
  origin_photo raw_code user w = do
    f ← resolve fpe app.codec raw_code w.db
    d ← visible_details (is_sailing f.0.lifecycle || is_owner user f.1) (details f.0.lifecycle)
    serve_photo d.photo w

  abbrev pub of_this_duck : Key → Option Sighting → Res WebError Sighting
  of_this_duck duck none = err not_found
  of_this_duck duck (some s) = if s.duck_id == duck then ok s else err not_found

  -- `sighting_photo`
  unfoldable pub sighting_photo : Text → Key → World env → Res WebError (Text × List ℕ)
  sighting_photo raw_code sighting_id w = do
    f ← resolve_sailing fpe app.codec raw_code w.db
    row ← map_err repo (sighting_by_id sighting_id w.db)
    s ← of_this_duck f.0.id row
    photo ← ok_or s.photo not_found
    serve_photo photo w
