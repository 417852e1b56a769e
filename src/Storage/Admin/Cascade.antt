-- ===== src/Storage/Admin/Cascade.antt =====
-- What the destructive operations of `AdminRepo` leave, whom they spare, and that they lose no photo.
use duck_voyage.Prelude.{
  ◌≡◌, refl, arith, Bool, true, false, not, Option, none, some, List, ◌==◌, ◌&&◌, ◌||◌, is_some,
}
use duck_voyage.Prelude.Results.{Res, ok, err, panic}
use duck_voyage.Prelude.Text.{Text, text_eq}
use duck_voyage.Prelude.Tables.{exists, select}
use duck_voyage.Prelude.Tables.Laws
use duck_voyage.Domain.Entities.{Key}
use duck_voyage.Storage.Rows.{RepoError, sql}
use duck_voyage.Storage.Db.{Db}
use duck_voyage.Storage.Admin.{add_key}

-- A column that holds a photo key.
abbrev pub holds : Text → Option Text → Bool
holds key none = false
holds key (some k) = text_eq k key

-- A photo key in the tables, and in a list of them.
abbrev pub stores : Text → Db → Bool
stores key db =
    exists (λ s. holds key s.photo_key) db.sightings
    || exists (λ d. holds key d.origin_photo_key) db.ducks

abbrev pub lists : Text → List Text → Bool
lists key keys = exists (λ k. text_eq k key) keys

-- A photo that was in the tables is still in them or is given, and no other is.
abbrev pub Conserves : Db → List Text → Db → Type 0
Conserves before keys after =
    (key : Text) → stores key before ≡ (stores key after || lists key keys)

given :
    (key : Text) (o : Option Text) (keys : List Text) (b : Bool)
    → (holds key o || (b || lists key keys)) ≡ (b || lists key (add_key o keys))
given key none keys b = refl
given key (some k) keys true = ground arith
given key (some k) keys false = refl

-- The rows of `before` that do not pass a test.
abbrev pub Rest {ℓ} : {A : Type ℓ} → (A → Bool) → List A → List A → Type ℓ
Rest test before after = after ≡ select (λ r. not (test r)) before

-- A duck of a flock, by its id, and a duck of a flock of a user.
abbrev pub of_flock : Key → Db → Key → Bool
of_flock flock db id = exists (λ d. d.id == id && d.flock_id == flock) db.ducks

abbrev pub of_owner : Key → Db → Key → Bool
of_owner user db flock = exists (λ f. f.id == flock && f.owner_user_id == user) db.flocks

abbrev pub of_user : Key → Db → Key → Bool
of_user user db id = exists (λ d. d.id == id && of_owner user db d.flock_id) db.ducks

-- The outcomes of `delete_flock`.
abbrev pub FlockGone : Key → Db → Res RepoError (Option (List Text)) → Db → Type 0
FlockGone flock before (ok keys) after =
    (is_some keys ≡ exists (λ f. f.id == flock) before.flocks)
    × ((given : List Text) → keys ≡ some given → Conserves before given after)
    × Rest (λ f. f.id == flock) before.flocks after.flocks
    × Rest (λ d. d.flock_id == flock) before.ducks after.ducks
    × Rest (λ s. of_flock flock before s.duck_id) before.sightings after.sightings
    × Rest (λ c. of_flock flock before c.duck_id) before.comments after.comments
    × Rest (λ f. of_flock flock before f.duck_id) before.follows after.follows
    × Rest (λ n. of_flock flock before n.duck_id) before.notifications after.notifications
    × (after.users ≡ before.users)
FlockGone flock before (err e) after = (e ≡ sql) × (after ≡ before)
FlockGone flock before panic after = ⊥

-- The outcomes of `delete_user`.
abbrev pub UserGone : Key → Db → Res RepoError (Option (List Text)) → Db → Type 0
UserGone user before (ok (some keys)) after =
    (exists (λ u. u.id == user && not u.is_admin) before.users ≡ true)
    × Conserves before keys after
    × Rest (λ u. u.id == user && not u.is_admin) before.users after.users
    × Rest (λ f. f.owner_user_id == user) before.flocks after.flocks
    × Rest (λ d. of_owner user before d.flock_id) before.ducks after.ducks
    × Rest (λ s. s.user_id == user || of_user user before s.duck_id) before.sightings
        after.sightings
    × Rest (λ c. c.user_id == user || of_user user before c.duck_id) before.comments after.comments
    × Rest (λ f. f.user_id == user || of_user user before f.duck_id) before.follows after.follows
    × Rest
        (λ n.
          n.user_id == user
          || (exists (λ s. s.id == n.sighting_id && s.user_id == user) before.sightings
              || of_user user before n.duck_id))
        before.notifications after.notifications
UserGone user before (ok none) after =
    (exists (λ u. u.id == user && not u.is_admin) before.users ≡ false) × (after ≡ before)
UserGone user before (err e) after = (e ≡ sql) × (after ≡ before)
UserGone user before panic after = ⊥
