-- ===== src/Storage/Overviews/Complete.antt =====
-- The inner joins of crates/storage/src/repos.rs lose no row where the foreign keys hold.
use duck_voyage.Prelude.{
  ◌≡◌, refl, false, Option, some, List, [], ◌∷◌, ◌==◌, All, arith, map, ==→eq, ap₂,
}
use duck_voyage.Prelude.Tables.{select}
use duck_voyage.Prelude.Tables.Laws
use duck_voyage.Domain.Entities.{Key}
use duck_voyage.Storage.Rows.{DuckRow, SightingRow, VesselRow}
use duck_voyage.Storage.Db.{NotificationRow, Db}
use duck_voyage.Storage.Sightings.{of_duck}
use duck_voyage.Storage.Boards.{joined}
use duck_voyage.Storage.Overviews.{FeedRow, feed_row, feed_rows, MineRow, mine_row, mine_rows}
use duck_voyage.Storage.Integrity.{NotificationLinked, SightingLinked, Intact, strays}
use duck_voyage.Storage.Integrity.Reach.{Reach, IsSeeded, Reach-Intact}

-- A partner of a row that leads back to it.
module _ {A B : Type 0} (partner : A → Option B) (back : B → A) (Q : B → Type 0) where
  abbrev pub HasPartner : A → Type 0
  HasPartner a = (b : B) × (partner a ≡ some b) × (back b ≡ a) × Q b

  -- An inner join in which every row has a partner gives every row, in order.
  joined_complete :
      (rows : List A)
      → All HasPartner rows
      → (map back (joined partner rows) ≡ rows) × All Q (joined partner rows)
  joined_complete [] h = (refl, tt)
  joined_complete (a ∷ rows) ((b, e, same, q), h) =
      let (later, all) = joined_complete rows h in rw e (ap₂ (λ x xs. x ∷ xs) same later, (q, all))

-- The sighting of a notification that is linked, with its vessel.
notified :
    (db : Db) (n : NotificationRow)
    → Intact db
    → NotificationLinked db n
    → HasPartner
        (feed_row db)
        (λ (r : FeedRow). r.notification)
        (λ r. (r.sighting.duck_id ≡ r.notification.duck_id) × (r.duck.id ≡ r.notification.duck_id))
        n
notified db n (f, d, ss, c, o, ns) (hu, hd, hs, ht, hn) =
    let (duck, e) = Laws.find-some (λ (r : DuckRow). r.id == n.duck_id) db.ducks hd in
    let (s, e') =
      Laws.find-some (λ (r : SightingRow). r.id == n.sighting_id) db.sightings
        (Laws.exists-weaken (of_duck n.sighting_id n.duck_id) (λ r. r.id == n.sighting_id)
          db.sightings (λ r h. ground arith) hs) in
    let (hsd, hsv, hsu, low) =
      Laws.find-All (λ r. r.id == n.sighting_id) (SightingLinked db) db.sightings s ss e' in
    let (v, e'') = Laws.find-some (λ (r : VesselRow). r.id == s.vessel_id) db.vessels hsv in
    let named = Laws.find_sound (λ (r : SightingRow). r.id == n.sighting_id) db.sightings s e' in
    let straight =
      Laws.find-All (λ r. r.id == n.sighting_id) (λ r. strays n.sighting_id n.duck_id r ≡ false)
        db.sightings s (Laws.All-none (strays n.sighting_id n.duck_id) db.sightings ht) e' in
    (
      record { notification = n; duck = duck; sighting = s; vessel = v },
      rw (e, e', e'') refl,
      refl,
      (
        ground arith,
        ==→eq duck.id n.duck_id
            (Laws.find_sound (λ (r : DuckRow). r.id == n.duck_id) db.ducks duck e),
      ),
    )

-- In tables that were reached from seeded ones, the activity feed of a user before its limit has
-- one row for each notification of the user, in the order of the table, with the duck of the
-- notification and a sighting of that duck.
pub feed_rows_complete :
    {start db : Db} (user : Key)
    → Reach start db
    → IsSeeded start
    → let mine = select (λ n. n.user_id == user) db.notifications in
      (map (λ (r : FeedRow). r.notification) (feed_rows user db) ≡ mine)
      × All
          (λ (r : FeedRow).
            (r.sighting.duck_id ≡ r.notification.duck_id) × (r.duck.id ≡ r.notification.duck_id))
          (feed_rows user db)
unfolding feed_rows
feed_rows_complete {start} {db} user reached seeded =
    let i = Reach-Intact reached seeded in
    joined_complete (feed_row db) (λ r. r.notification)
      (λ r. (r.sighting.duck_id ≡ r.notification.duck_id) × (r.duck.id ≡ r.notification.duck_id))
      (select (λ n. n.user_id == user) db.notifications)
      (Laws.All-select (λ n. n.user_id == user) db.notifications
        (λ n linked _. notified db n i linked) i.5)

-- The duck and the vessel of a sighting that is linked.
found :
    (db : Db) (s : SightingRow)
    → SightingLinked db s
    → HasPartner
        (mine_row db)
        (λ (r : MineRow). r.sighting)
        (λ r. (r.duck.id ≡ r.sighting.duck_id) × (r.vessel.id ≡ r.sighting.vessel_id))
        s
found db s (hd, hv, hu, low) =
    let (duck, e) = Laws.find-some (λ (r : DuckRow). r.id == s.duck_id) db.ducks hd in
    let (v, e') = Laws.find-some (λ (r : VesselRow). r.id == s.vessel_id) db.vessels hv in
    (
      record { sighting = s; duck = duck; vessel = v },
      rw (e, e') refl,
      refl,
      (
        ==→eq duck.id s.duck_id
            (Laws.find_sound (λ (r : DuckRow). r.id == s.duck_id) db.ducks duck e),
        ==→eq v.id s.vessel_id
            (Laws.find_sound (λ (r : VesselRow). r.id == s.vessel_id) db.vessels v e'),
      ),
    )

-- The same holds of what a user found: a row for each sighting, with its duck and its vessel.
pub mine_rows_complete :
    {start db : Db} (user : Key)
    → Reach start db
    → IsSeeded start
    → let mine = select (λ s. s.user_id == user) db.sightings in
      (map (λ (r : MineRow). r.sighting) (mine_rows user db) ≡ mine)
      × All
          (λ (r : MineRow). (r.duck.id ≡ r.sighting.duck_id) × (r.vessel.id ≡ r.sighting.vessel_id))
          (mine_rows user db)
unfolding mine_rows
mine_rows_complete {start} {db} user reached seeded =
    let i = Reach-Intact reached seeded in
    joined_complete (mine_row db) (λ r. r.sighting)
      (λ r. (r.duck.id ≡ r.sighting.duck_id) × (r.vessel.id ≡ r.sighting.vessel_id))
      (select (λ s. s.user_id == user) db.sightings)
      (Laws.All-select (λ s. s.user_id == user) db.sightings (λ s linked _. found db s linked) i.2)
