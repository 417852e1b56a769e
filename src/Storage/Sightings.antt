-- ===== src/Storage/Sightings.antt =====
-- `SightingRepo` of crates/storage/src/repos.rs: logging a find, and its moderation.
pub mod Logging
pub mod Removal
use duck_voyage.Prelude.{
  ℕ, suc, ◌+◌, Bool, true, false, not, Option, none, some, List, [], ◌∷◌, ◌++◌, ◌==◌, ◌&&◌,
  if◌then◌else◌, map_option, length,
}
use duck_voyage.Prelude.Results.{Res, ok, err, traverse}
use duck_voyage.Prelude.Text.{Text}
use duck_voyage.Prelude.Tables.{find, delete, exists}
use duck_voyage.Domain.BoundedText.{Note, PhotoRef}
use duck_voyage.Domain.Coords.{Coordinates}
use duck_voyage.Domain.Entities.{Timestamp, Key, Sighting}
use duck_voyage.Storage.Rows.{RepoError, sql, SightingRow, try_sighting}
use duck_voyage.Storage.Db.{FollowRow, NotificationRow, Db, Repo}

pub record NewSighting : Type 0 where
  pub duck_id : Key
  pub vessel_id : Key
  pub user_id : Key
  pub seen_at : Timestamp
  pub note : Option Note
  pub photo : Option PhotoRef
  pub coordinates : Option Coordinates

abbrev pub sighting_row : NewSighting → Db → SightingRow
sighting_row new db = record {
  id = db.next_id;
  duck_id = new.duck_id;
  vessel_id = new.vessel_id;
  user_id = new.user_id;
  seen_at = new.seen_at;
  note = map_option (λ (n : Note). n.as_str) new.note;
  photo_key = map_option (λ (p : PhotoRef). p.key.as_str) new.photo;
  photo_content_type = map_option (λ (p : PhotoRef). p.content_type) new.photo;
  latitude = map_option (λ (c : Coordinates). c.lat) new.coordinates;
  longitude = map_option (λ (c : Coordinates). c.lon) new.coordinates;
  created_at = db.now;
}

-- The foreign keys of `sighting`.
abbrev pub references : NewSighting → Db → Bool
references new db =
    exists (λ d. d.id == new.duck_id) db.ducks
    && (exists (λ v. v.id == new.vessel_id) db.vessels
        && exists (λ u. u.id == new.user_id) db.users)

-- INSERT INTO notification … SELECT … FROM duck_follow, with ids from `next` on.
unfoldable pub notify : Key → Key → Key → Timestamp → Key → List FollowRow → List NotificationRow
notify duck sighting finder now next [] = []
notify duck sighting finder now next (f ∷ fs) =
    let row : NotificationRow = record {
      id = next;
      user_id = f.user_id;
      duck_id = duck;
      sighting_id = sighting;
      created_at = now;
      read_at = none;
    } in
    let with_row = row ∷ notify duck sighting finder now (suc next) fs in
    let without = notify duck sighting finder now next fs in
    if f.duck_id == duck && not (f.user_id == finder) then with_row else without

abbrev pub follows_duck : Key → Key → FollowRow → Bool
follows_duck user duck f = f.user_id == user && f.duck_id == duck

-- INSERT INTO duck_follow … ON CONFLICT DO NOTHING
abbrev pub add_follow : Key → Key → Timestamp → List FollowRow → List FollowRow
add_follow user duck now follows =
    if exists (follows_duck user duck) follows
    then follows
    else follows ++ record { user_id = user; duck_id = duck; created_at = now } ∷ []

-- `SightingRepo::log`, one transaction.
unfoldable pub log : NewSighting → Repo Key
unfolding notify
log new db =
    let sighting_id = db.next_id in
    let told = notify new.duck_id sighting_id new.user_id db.now (suc sighting_id) db.follows in
    if references new db
    then (
      ok sighting_id,
      record db {
        next_id = suc sighting_id + length told;
        sightings = db.sightings ++ sighting_row new db ∷ [];
        notifications = db.notifications ++ told;
        follows = add_follow new.user_id new.duck_id db.now db.follows;
      },
    )
    else (err sql, db)

-- `SightingRepo::by_id`
unfoldable pub sighting_by_id : Key → Db → Res RepoError (Option Sighting)
sighting_by_id id db = traverse try_sighting (find (λ r. r.id == id) db.sightings)

abbrev pub of_duck : Key → Key → SightingRow → Bool
of_duck sighting duck r = r.id == sighting && r.duck_id == duck

-- `SightingRepo::delete`, one transaction: the notifications of the sighting go first, then the
-- sighting if it is one of the duck. Gives the photo key of the removed row. A row that other
-- notifications still refer to cannot be left behind, since all of them are gone.
unfoldable pub delete_sighting : Key → Key → Repo (Option (Option Text))
delete_sighting sighting duck db = (
  ok (map_option (λ (r : SightingRow). r.photo_key) (find (of_duck sighting duck) db.sightings)),
  record db {
    notifications = delete (λ n. n.sighting_id == sighting) db.notifications;
    sightings = delete (of_duck sighting duck) db.sightings;
  },
)
