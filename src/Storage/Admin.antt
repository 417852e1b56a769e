-- ===== src/Storage/Admin.antt =====
-- The destructive operations of `AdminRepo` (crates/storage/src/repos.rs).
pub mod Cascade
use duck_voyage.Prelude.{
  ℕ, Bool, true, false, not, Option, none, some, is_some, List, [], ◌∷◌, ◌++◌, ◌==◌, ◌&&◌, ◌||◌,
  if◌then◌else◌,
}
use duck_voyage.Prelude.Results.{Res, ok, err}
use duck_voyage.Prelude.Text.{Text}
use duck_voyage.Prelude.Tables.{delete, exists}
use duck_voyage.Domain.Entities.{Key}
use duck_voyage.Storage.Rows.{RepoError, sql, DuckRow, SightingRow, UserRow, FlockRow}
use duck_voyage.Storage.Db.{CommentRow, FollowRow, NotificationRow, Db, Repo}

abbrev pub add_key : Option Text → List Text → List Text
add_key none rest = rest
add_key (some k) rest = k ∷ rest

-- The columns that are not NULL, of the rows that pass a test.
abbrev pub keys_of {ℓ} : {A : Type ℓ} → (A → Bool) → (A → Option Text) → List A → List Text
keys_of test column [] = []
keys_of test column (r ∷ rs) =
    let rest = keys_of test column rs in if test r then add_key (column r) rest else rest

-- A row of a duck that passes a test, by the id of the duck.
abbrev pub on_duck : (DuckRow → Bool) → Db → Key → Bool
on_duck test db id = exists (λ d. d.id == id && test d) db.ducks

-- A notification of a sighting that passes a test: the foreign key that a DELETE of sightings can
-- violate.
abbrev pub dangles : (SightingRow → Bool) → Db → NotificationRow → Bool
dangles test db n = exists (λ s. s.id == n.sighting_id && test s) db.sightings

-- The statements that delete the ducks under a test and all that hangs off them.
abbrev pub drop_ducks : (DuckRow → Bool) → Db → Db
drop_ducks test db = record db {
  notifications = delete (λ n. on_duck test db n.duck_id) db.notifications;
  follows = delete (λ f. on_duck test db f.duck_id) db.follows;
  comments = delete (λ c. on_duck test db c.duck_id) db.comments;
  sightings = delete (λ s. on_duck test db s.duck_id) db.sightings;
  ducks = delete test db.ducks;
}

abbrev pub in_flock : Key → DuckRow → Bool
in_flock flock d = d.flock_id == flock

-- The photo keys that `delete_flock` collects first.
abbrev pub flock_photo_keys : Key → Db → List Text
flock_photo_keys flock db =
    keys_of (λ s. on_duck (in_flock flock) db s.duck_id) (λ s. s.photo_key) db.sightings
    ++ keys_of (in_flock flock) (λ d. d.origin_photo_key) db.ducks

-- `AdminRepo::delete_flock`, one transaction.
unfoldable pub delete_flock : Key → Repo (Option (List Text))
delete_flock flock db =
    let dropped = drop_ducks (in_flock flock) db in
    if exists (dangles (λ s. on_duck (in_flock flock) db s.duck_id) db) dropped.notifications
    then (err sql, db)
    else (
      ok (if exists (λ f. f.id == flock) db.flocks then some (flock_photo_keys flock db) else none),
      record dropped { flocks = delete (λ f. f.id == flock) db.flocks },
    )

-- The ducks in the flocks of a user.
abbrev pub in_flocks_of : Key → Db → DuckRow → Bool
in_flocks_of user db d = exists (λ f. f.id == d.flock_id && f.owner_user_id == user) db.flocks

-- The sightings that a user logged, and those of ducks in the user's flocks.
abbrev pub touches : Key → Db → SightingRow → Bool
touches user db s = s.user_id == user || on_duck (in_flocks_of user db) db s.duck_id

abbrev pub user_photo_keys : Key → Db → List Text
user_photo_keys user db =
    keys_of (touches user db) (λ s. s.photo_key) db.sightings
    ++ keys_of (in_flocks_of user db) (λ d. d.origin_photo_key) db.ducks

-- All of the DELETE statements of `delete_user` before the one on `app_user`.
abbrev pub drop_user : Key → Db → Db
drop_user user db = record db {
  notifications =
      delete
        (λ n.
          n.user_id == user
          || (dangles (λ s. s.user_id == user) db n || on_duck (in_flocks_of user db) db n.duck_id))
        db.notifications;
  follows =
      delete (λ f. f.user_id == user || on_duck (in_flocks_of user db) db f.duck_id) db.follows;
  comments =
      delete (λ c. c.user_id == user || on_duck (in_flocks_of user db) db c.duck_id) db.comments;
  sightings = delete (touches user db) db.sightings;
  ducks = delete (in_flocks_of user db) db.ducks;
  flocks = delete (λ f. f.owner_user_id == user) db.flocks;
}

-- `app_user WHERE id = $1 AND is_admin = false`
abbrev pub deletable : Key → UserRow → Bool
deletable user u = u.id == user && not u.is_admin

-- `AdminRepo::delete_user`, one transaction, rolled back if the last DELETE removes no row.
unfoldable pub delete_user : Key → Repo (Option (List Text))
delete_user user db =
    let dropped = drop_user user db in
    if exists (dangles (touches user db) db) dropped.notifications
    then (err sql, db)
    else if exists (deletable user) db.users
    then (
      ok (some (user_photo_keys user db)),
      record dropped { users = delete (deletable user) db.users },
    )
    else (ok none, db)
