-- ===== src/Storage/Integrity/Sightings.antt =====
-- Sightings of crates/storage/src/repos.rs: their statements keep every foreign key.
use duck_voyage.Prelude.{
  ◌≡◌, refl, suc, ◌+◌, true, false, not, none, List, [], ◌∷◌, ◌++◌, ◌==◌, ◌&&◌, All, arith, length,
  Bool-cases, inl, inr, All-append, ==_refl,
}
use duck_voyage.Prelude.Tables.{exists}
use duck_voyage.Prelude.Tables.Laws
use duck_voyage.Domain.Entities.{Key, Timestamp}
use duck_voyage.Storage.Db.{FollowRow, NotificationRow, Db}
use duck_voyage.Storage.Sightings.{
  NewSighting, sighting_row, references, notify, add_follow, of_duck, log, delete_sighting,
}
use duck_voyage.Storage.Integrity.{HasUser, HasDuck, HasVessel, strays, SightingLinked, Intact}
use duck_voyage.Storage.Integrity.Growth.{Wider, widen}
use duck_voyage.Storage.Integrity.Accounts.{add_follow-All}

references-all :
    (new : NewSighting) (db : Db)
    → references new db ≡ true
    → HasDuck db new.duck_id × HasVessel db new.vessel_id × HasUser db new.user_id
references-all new db h = ground arith

-- What every row that tells a follower of a sighting has.
notify-All :
    {P : FollowRow → Type 0} (Q : NotificationRow → Type 0) (duck sighting finder : Key)
    (now : Timestamp) (next : Key) (fs : List FollowRow)
    → ((f : FollowRow)
        → P f
        → (id : Key)
        → Q (record {
          id = id;
          user_id = f.user_id;
          duck_id = duck;
          sighting_id = sighting;
          created_at = now;
          read_at = none;
        }))
    → All P fs
    → All Q (notify duck sighting finder now next fs)
unfolding notify
notify-All Q duck sighting finder now next [] told h = tt
notify-All Q duck sighting finder now next (f ∷ fs) told (known, h) =
    elim (Bool-cases (f.duck_id == duck && not (f.user_id == finder))) [
      | inl e ↦ rw e (told f known next, notify-All Q duck sighting finder now (suc next) fs told h)
      | inr e ↦ rw e (notify-All Q duck sighting finder now next fs told h)
    ]

-- The tables with a find recorded.
abbrev logged : NewSighting → Db → Db
logged new db =
    let told = notify new.duck_id db.next_id new.user_id db.now (suc db.next_id) db.follows in
    record db {
      next_id = suc db.next_id + length told;
      sightings = db.sightings ++ sighting_row new db ∷ [];
      notifications = db.notifications ++ told;
      follows = add_follow new.user_id new.duck_id db.now db.follows;
    }

-- They offer all that the tables before did.
logged-Wider : (new : NewSighting) (db : Db) → Wider db (logged new db)
logged-Wider new db = record {
  users = λ id h. h;
  flocks = λ id h. h;
  ducks = λ id h. h;
  vessels = λ id h. h;
  named = λ s d. Laws.exists-append_left (of_duck s d) db.sightings _;
  strange = λ s d low h. Laws.exists-append_none (strays s d) db.sightings _ h (ground arith);
  next = omega arith;
}

-- The new sighting is found under its id, with its duck and no other.
new_named :
    (new : NewSighting) (db : Db)
    → All (SightingLinked db) db.sightings
    → let after = db.sightings ++ sighting_row new db ∷ [] in
      (exists (of_duck db.next_id new.duck_id) after ≡ true)
      × (exists (strays db.next_id new.duck_id) after ≡ false)
new_named new db s = (
  rw
      (
        Laws.exists-append (of_duck db.next_id new.duck_id) db.sightings (sighting_row new db ∷ []),
        ==_refl db.next_id,
        ==_refl new.duck_id,
      )
      (ground arith),
  Laws.exists-append_none (strays db.next_id new.duck_id) db.sightings _
      (Laws.exists-none (strays db.next_id new.duck_id) db.sightings
        (λ r (hd, hv, hu, low). ground arith) s)
      (rw (==_refl new.duck_id, ==_refl db.next_id) refl),
)

pub log-Intact : (new : NewSighting) (db : Db) → Intact db → Intact (log new db).1
unfolding log
log-Intact new db i = elim (Bool-cases (references new db)) [
  | inr e ↦ rw e i
  | inl e ↦
      let (hd, hv, hu) = references-all new db e in
      let (f, d, s, c, o, n) = widen db (logged new db) (logged-Wider new db) i in
      let here = new_named new db i.2 in
      rw e (
        f,
        d,
        All-append _ db.sightings _ s ((hd, hv, hu, omega arith), tt),
        c,
        add_follow-All _ new.user_id new.duck_id db.now db.follows o (hd, hu),
        All-append _ db.notifications _ n (
            notify-All _ new.duck_id db.next_id new.user_id db.now (suc db.next_id) db.follows
              (λ r (_, known) id. (known, hd, here.0, here.1, omega arith)) i.4),
      )
]

pub delete_sighting-Intact :
    (id duck : Key) (db : Db) → Intact db → Intact (delete_sighting id duck db).1
unfolding delete_sighting
delete_sighting-Intact id duck db (f, d, s, c, o, n) = (
  f,
  d,
  Laws.All-delete (of_duck id duck) db.sightings (λ r h _. h) s,
  c,
  o,
  Laws.All-delete (λ x. x.sighting_id == id) db.notifications
      (λ r (hu, hd, hs, ht, hn) other. (
        hu,
        hd,
        Laws.exists-delete_kept (of_duck id duck) (of_duck r.sighting_id r.duck_id) db.sightings
            (Laws.exists-never (λ x. of_duck r.sighting_id r.duck_id x && of_duck id duck x)
              db.sightings (λ x. ground arith))
            hs,
        Laws.exists-delete_none (of_duck id duck) (strays r.sighting_id r.duck_id) db.sightings ht,
        hn,
      ))
      n,
)
