-- ===== src/Web/Duck/Handlers.antt =====
-- The handlers of crates/web/src/handlers/duck.rs that change state.
use duck_voyage.Prelude.{
  ℕ, ◌+◌, ◌*◌, Bool, true, false, not, Option, none, some, is_some, List, [], ◌++◌, ◌&&◌, leb,
  if◌then◌else◌, length,
}
use duck_voyage.Prelude.Results
use duck_voyage.Prelude.Results.{Res, ok, err, panic, guard, ok_or, map_err, traverse}
use duck_voyage.Prelude.Text.{Text, codes}
use duck_voyage.Prelude.Exec.{pure, lift, ◌>>=◌, ◌>>◌}
use duck_voyage.Prelude.Int.{ℤ, pos, negsuc, parse_i64}
use duck_voyage.Domain.Codes.{DuckCode}
use duck_voyage.Domain.BoundedText.{PhotoKey, PhotoRef, parse_bounded}
use duck_voyage.Domain.Coords.{Coordinates, new_coordinates}
use duck_voyage.Domain.Entities.{
  Timestamp, Key, DuckLifecycle, allocated, Duck, Flock, Vessel, comments_locked,
}
use duck_voyage.Storage.Ducks
use duck_voyage.Storage.Users.{vessel_by_id}
use duck_voyage.Storage.Sightings
use duck_voyage.Storage.Sightings.{NewSighting}
use duck_voyage.Storage.Social
use duck_voyage.Storage.Db.{Db}
use duck_voyage.Web.State.{
  WebError, not_found, bad_request, photo_store, repo, User, Env, App, Handler, run, read,
}
use duck_voyage.Web.Form.{Field, FormData, read_form, text, require_text, file}
use duck_voyage.Web.Duck.{resolve_any, resolve, resolve_sailing, is_owner}

-- `Redirect::to`, with its target.
pub record Redirect : Type 0 where
  pub to : Text

-- format!("/d/{}", code), and with a flash message behind it
abbrev pub duck_url : DuckCode → Text → Redirect
duck_url code message = record { to = codes "/d/" ++ (code.as_str ++ message) }

abbrev pub bad : {E A : Type 0} → Res E A → Res WebError A
bad r = map_err (λ _. bad_request) r

abbrev pub is_allocated : DuckLifecycle → Bool
is_allocated allocated = true
is_allocated _ = false

-- The window of `seen_at`: 60 days back, and 18 hours ahead of the clock.
abbrev pub in_window : Timestamp → Timestamp → Bool
in_window now parsed = leb now (parsed + 60 * 86400) && leb parsed (now + 18 * 3600)

-- `PhotoPipeline::MAX_UPLOAD_BYTES`
abbrev pub max_upload_bytes : ℕ
max_upload_bytes = 12 * 1024 * 1024

module _ (env : Env) (app : App env) where
  open env use {fpe, store_put, store_delete, reencode, parse_datetime, parse_f64}

  abbrev pub found_any : Text → Handler env (Duck × Flock)
  found_any raw_code = read env (resolve_any fpe app.codec raw_code)

  abbrev pub found : Text → Handler env (Duck × Flock)
  found raw_code = read env (resolve fpe app.codec raw_code)

  abbrev pub found_sailing : Text → Handler env (Duck × Flock)
  found_sailing raw_code = read env (resolve_sailing fpe app.codec raw_code)

  -- `PhotoPipeline::process` of crates/web/src/photo_pipeline.rs: the size, then the image crate.
  unfoldable pub process : List ℕ → Option (List ℕ)
  process input = if leb (length input) max_upload_bytes then reencode input else none

  -- `PhotoPipeline::process`, then `PhotoStore::put` under a fresh key.
  unfoldable pub store_photo : PhotoKey → List ℕ → Handler env PhotoRef
  store_photo key bytes w = elim (process bytes) [
    | none ↦ (err bad_request, w)
    | some processed ↦ elim (store_put key processed w.store) [
      | none ↦ (err photo_store, w)
      | some store ↦
          (ok (record { key = key; content_type = codes "image/jpeg" }), record w { store = store })
    ]
  ]

  abbrev pub require_file : FormData → Text → Res WebError (List ℕ)
  require_file form name = ok_or (file form name) bad_request

  -- The part of `originate` behind the guards; `key` is the key drawn for the photo.
  unfoldable pub define : PhotoKey → Duck → FormData → Handler env Redirect
  define key duck form = do
    raw ← lift (require_text form (codes "description"))
    description ← lift (bad (parse_bounded 2000 raw))
    name ← lift (traverse (λ n. bad (parse_bounded 80 n)) (text form (codes "name")))
    bytes ← lift (require_file form (codes "photo"))
    photo ← store_photo key bytes
    run env (Ducks.stage duck.id description name photo)
    let sail : Handler env Redirect = run env (Ducks.set_sail duck.id) >>= λ _.
        pure (duck_url duck.code (codes "?m=Duck+defined+and+set+sail.+Bon+voyage!"))
    if is_some (text form (codes "set_sail"))
        then sail
        else pure (
            duck_url duck.code
              (codes "?m=Duck+defined.+Scan+its+sticker+when+it%27s+in+place+to+set+sail."))

  -- `originate`
  unfoldable pub originate : PhotoKey → Text → User → List (Option Field) → Handler env Redirect
  unfolding define
  originate key raw_code user multipart = do
    f ← found raw_code
    lift (guard (is_owner (some user) f.1) not_found)
    if is_allocated f.0.lifecycle
        then (lift (read_form multipart) >>= define key f.0)
        else pure (duck_url f.0.code [])

  -- `set_sail`
  unfoldable pub set_sail : Text → User → Handler env Redirect
  set_sail raw_code user = do
    f ← found raw_code
    lift (guard (is_owner (some user) f.1) not_found)
    run env (Ducks.set_sail f.0.id)
    pure (duck_url f.0.code (codes "?m=Bon+voyage!"))

  abbrev pub valid_vessel : ℤ → Db → Res WebError (Option Vessel)
  valid_vessel (pos id) db = map_err repo (vessel_by_id id db)
  valid_vessel (negsuc n) db = ok none

  abbrev pub as_key : ℤ → Key
  as_key (pos id) = id
  as_key (negsuc n) = 0

  -- `seen_at`: blank means now; otherwise it must lie in the window around now.
  unfoldable pub seen_at_of : Timestamp → Option Text → Res WebError Timestamp
  seen_at_of now none = ok now
  seen_at_of now (some raw) =
      Results.◌>>=◌ (ok_or (parse_datetime raw) bad_request)
        (λ parsed. if in_window now parsed then ok parsed else err bad_request)

  -- Latitude and longitude come together or not at all.
  unfoldable pub coordinates_of : Option Text → Option Text → Res WebError (Option Coordinates)
  coordinates_of none none = ok none
  coordinates_of (some lat) (some lon) = Results.◌>>=◌ (ok_or (parse_f64 lat) bad_request) (λ x.
      Results.◌>>=◌ (ok_or (parse_f64 lon) bad_request)
        (λ y. Results.◌>>=◌ (bad (new_coordinates x y)) (λ c. ok (some c))))
  coordinates_of _ _ = err bad_request

  unfoldable pub optional_photo : PhotoKey → Option (List ℕ) → Handler env (Option PhotoRef)
  unfolding store_photo
  optional_photo key none = pure none
  optional_photo key (some bytes) = do photo ← store_photo key bytes; pure (some photo)

  -- The part of `log_sighting` behind the funnel. `now` is the clock of the application.
  unfoldable pub report : PhotoKey → Timestamp → User → Duck → FormData → Handler env Redirect
  unfolding seen_at_of optional_photo coordinates_of
  report key now user duck form = do
    raw ← lift (require_text form (codes "vessel_id"))
    vessel_id ← lift (ok_or (parse_i64 raw) bad_request)
    vessel ← read env (valid_vessel vessel_id)
    lift (guard (is_some vessel) bad_request)
    seen_at ← lift (seen_at_of now (text form (codes "seen_at")))
    note ← lift (traverse (λ n. bad (parse_bounded 2000 n)) (text form (codes "note")))
    photo ← optional_photo key (file form (codes "photo"))
    coordinates ←
        lift (coordinates_of (text form (codes "latitude")) (text form (codes "longitude")))
    run env (
        Sightings.log (record {
          duck_id = duck.id;
          vessel_id = as_key vessel_id;
          user_id = user.id;
          seen_at = seen_at;
          note = note;
          photo = photo;
          coordinates = coordinates;
        }))
    pure (duck_url duck.code (codes "?m=Find+recorded!"))

  -- `log_sighting`
  unfoldable pub log_sighting :
      PhotoKey → Timestamp → Text → User → List (Option Field) → Handler env Redirect
  unfolding report
  log_sighting key now raw_code user multipart = do
    f ← found_sailing raw_code
    form ← lift (read_form multipart)
    report key now user f.0 form

  -- `comment`
  unfoldable pub comment : Text → User → Text → Handler env Redirect
  comment raw_code user body = do
    f ← found_sailing raw_code
    lift (guard (not (comments_locked f.0)) bad_request)
    parsed ← lift (bad (parse_bounded 2000 body))
    run env (Social.add_comment f.0.id user.id parsed)
    pure (duck_url f.0.code [])

  -- `follow` and `unfollow`
  unfoldable pub follow : Text → User → Handler env Redirect
  follow raw_code user = do
    f ← found_sailing raw_code
    run env (Social.follow user.id f.0.id)
    pure (duck_url f.0.code [])

  unfoldable pub unfollow : Text → User → Handler env Redirect
  unfollow raw_code user = do
    f ← found_sailing raw_code
    run env (Social.unfollow user.id f.0.id)
    pure (duck_url f.0.code [])
