-- ===== src/Storage/Sightings/Removal.antt =====
-- What the removal of a sighting leaves, and what it should leave.
use duck_voyage.Prelude.{◌≡◌, false, none, ◌==◌}
use duck_voyage.Prelude.Results.{ok}
use duck_voyage.Prelude.Tables.{exists}
use duck_voyage.Prelude.Tables.Laws
use duck_voyage.Domain.Entities.{Key}
use duck_voyage.Storage.Db.{NotificationRow, Db}
use duck_voyage.Storage.Sightings.{of_duck, delete_sighting}

-- Removing a sighting of a duck leaves no such sighting and no notification of it.
pub delete_sighting-clears :
    (id duck : Key) (db : Db)
    → let after = (delete_sighting id duck db).1 in
      (exists (of_duck id duck) after.sightings ≡ false)
      × (exists (λ n. n.sighting_id == id) after.notifications ≡ false)
unfolding delete_sighting
delete_sighting-clears id duck db = (
  Laws.exists-delete_self (of_duck id duck) db.sightings,
  Laws.exists-delete_self (λ (n : NotificationRow). n.sighting_id == id) db.notifications,
)

-- A request that names a sighting that is not one of the duck removes no sighting, and leaves no
-- notification of the sighting named.
pub delete_sighting-forged :
    (id duck : Key) (db : Db)
    → exists (of_duck id duck) db.sightings ≡ false
    → let after = (delete_sighting id duck db).1 in
      ((delete_sighting id duck db).0 ≡ ok none)
      × (after.sightings ≡ db.sightings)
      × (exists (λ n. n.sighting_id == id) after.notifications ≡ false)
unfolding delete_sighting
delete_sighting-forged id duck db h = (
  rw (Laws.find-none (of_duck id duck) db.sightings h),
  Laws.delete-idle (of_duck id duck) db.sightings h,
  Laws.exists-delete_self (λ (n : NotificationRow). n.sighting_id == id) db.notifications,
)
