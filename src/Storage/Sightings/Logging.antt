-- ===== src/Storage/Sightings/Logging.antt =====
-- Who is told of a find, and who follows the duck afterwards.
use duck_voyage.Prelude.{
  ℕ, suc, ◌≡◌, refl, Bool-cases, inl, inr, ==_refl, true, false, List, [], ◌∷◌, ◌++◌, arith, ◌==◌,
  ◌&&◌, not, none, All, if◌then◌else◌,
}
use duck_voyage.Prelude.Results.{Res, ok, err, panic}
use duck_voyage.Prelude.Tables.{exists, count}
use duck_voyage.Prelude.Tables.Laws
use duck_voyage.Domain.Entities.{Timestamp, Key}
use duck_voyage.Storage.Rows.{RepoError, sql}
use duck_voyage.Storage.Db.{FollowRow, NotificationRow, Db}
use duck_voyage.Storage.Sightings.{
  NewSighting, references, notify, follows_duck, add_follow, sighting_row, log,
}

-- How many rows tell a user of a sighting.
abbrev pub told : Key → List NotificationRow → ℕ
told user rows = count (λ n. n.user_id == user) rows

module _ (duck sighting finder : Key) (now : Timestamp) where
  notify-told :
      (user next : Key) (fs : List FollowRow)
      → told user (notify duck sighting finder now next fs)
        ≡ (if user == finder then 0 else count (follows_duck user duck) fs)
  unfolding notify
  notify-told user next [] = ground arith
  notify-told user next (f ∷ fs) =
      ground (arith, notify-told user (suc next) fs, notify-told user next fs)

add_follow-follows :
    (user duck : Key) (now : Timestamp) (fs : List FollowRow)
    → exists (follows_duck user duck) (add_follow user duck now fs) ≡ true
add_follow-follows user duck now fs = elim (Bool-cases (exists (follows_duck user duck) fs)) [
  | inl e ↦ rw (e, e)
  | inr e ↦
      rw e
        (rw (Laws.exists-append (follows_duck user duck) fs _) (rw (e, ==_refl user, ==_refl duck)))
]

-- A row that tells of a find: of the sighting and its duck, new and unread.
abbrev pub TellsOf : NewSighting → Key → Timestamp → NotificationRow → Type 0
TellsOf new id now n =
    (n.sighting_id ≡ id) × (n.duck_id ≡ new.duck_id) × (n.created_at ≡ now) × (n.read_at ≡ none)

notify-TellsOf :
    (new : NewSighting) (id : Key) (now : Timestamp) (next : Key) (fs : List FollowRow)
    → All (TellsOf new id now) (notify new.duck_id id new.user_id now next fs)
unfolding notify
notify-TellsOf new id now next [] = tt
notify-TellsOf new id now next (f ∷ fs) =
    elim (Bool-cases (f.duck_id == new.duck_id && not (f.user_id == new.user_id))) [
      | inl e ↦ rw e ((refl, refl, refl, refl), notify-TellsOf new id now (suc next) fs)
      | inr e ↦ rw e (notify-TellsOf new id now next fs)
    ]

-- The outcomes of `log`.
abbrev pub Logged : NewSighting → Db → Res RepoError Key → Db → Type 0
Logged new before (ok id) after =
    (references new before ≡ true)
    × (id ≡ before.next_id)
    × (after.sightings ≡ before.sightings ++ sighting_row new before ∷ [])
    × ((rows : List NotificationRow) × (after.notifications ≡ before.notifications ++ rows)
        × All (TellsOf new id before.now) rows
        × ((user : Key)
            → told user rows ≡ (
                if user == new.user_id
                then 0
                else count (follows_duck user new.duck_id) before.follows)))
    × (exists (follows_duck new.user_id new.duck_id) after.follows ≡ true)
Logged new before (err e) after = (references new before ≡ false) × (e ≡ sql) × (after ≡ before)
Logged new before panic after = ⊥

-- A find of a known duck, on a known vessel, by a known user is recorded with the next id, each
-- follower of the duck but the finder is told of it by a new, unread notification of this sighting
-- and its duck for each row of `duck_follow`, nobody else is, and the finder follows the duck
-- afterwards; any other find fails and changes nothing.
pub log_lem : (new : NewSighting) (db : Db) → Logged new db (log new db).0 (log new db).1
unfolding log
log_lem new db = elim (Bool-cases (references new db)) [
  | inl e ↦ rw e (
    e,
    refl,
    refl,
    (
      notify new.duck_id db.next_id new.user_id db.now (suc db.next_id) db.follows,
      refl,
      notify-TellsOf new db.next_id db.now (suc db.next_id) db.follows,
      λ user.
          notify-told new.duck_id db.next_id new.user_id db.now user (suc db.next_id) db.follows,
    ),
    add_follow-follows new.user_id new.duck_id db.now db.follows,
  )
  | inr e ↦ rw e (e, refl, refl)
]
