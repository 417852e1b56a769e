-- ===== src/Storage/Integrity.antt =====
-- The foreign keys of the tables (migrations/0001_initial.sql and later), as a property of the tables
-- of crates/storage/src/repos.rs.
pub mod Growth
pub mod Accounts
pub mod Ducks
pub mod Sightings
pub mod Deletion
pub mod Users
pub mod Reach
use duck_voyage.Prelude.{◌≡◌, ◌<◌, Bool, true, false, not, List, ◌==◌, ◌&&◌, All}
use duck_voyage.Prelude.Tables.{exists}
use duck_voyage.Domain.Entities.{Key}
use duck_voyage.Storage.Rows.{DuckRow, FlockRow, UserRow, VesselRow, SightingRow}
use duck_voyage.Storage.Db.{CommentRow, FollowRow, NotificationRow, Db}
use duck_voyage.Storage.Sightings.{of_duck}

abbrev pub HasUser : Db → Key → Type 0
HasUser db id = exists (λ u. u.id == id) db.users ≡ true

abbrev pub HasFlock : Db → Key → Type 0
HasFlock db id = exists (λ f. f.id == id) db.flocks ≡ true

abbrev pub HasDuck : Db → Key → Type 0
HasDuck db id = exists (λ d. d.id == id) db.ducks ≡ true

abbrev pub HasVessel : Db → Key → Type 0
HasVessel db id = exists (λ v. v.id == id) db.vessels ≡ true

-- A sighting of the id given, but of another duck.
abbrev pub strays : Key → Key → SightingRow → Bool
strays sighting duck s = s.id == sighting && not (s.duck_id == duck)

abbrev pub SightingLinked : Db → SightingRow → Type 0
SightingLinked db s =
    HasDuck db s.duck_id × HasVessel db s.vessel_id × HasUser db s.user_id × (s.id < db.next_id)

-- Beyond its foreign keys, a notification names the duck of its sighting.
abbrev pub NotificationLinked : Db → NotificationRow → Type 0
NotificationLinked db n =
    HasUser db n.user_id
    × HasDuck db n.duck_id
    × (exists (of_duck n.sighting_id n.duck_id) db.sightings ≡ true)
    × (exists (strays n.sighting_id n.duck_id) db.sightings ≡ false)
    × (n.sighting_id < db.next_id)

-- The rows of `rows` refer to rows of `db`: flocks, ducks, sightings, comments, follows and
-- notifications.
abbrev pub Linked : Db → Db → Type 0
Linked db rows =
    All (λ (f : FlockRow). HasUser db f.owner_user_id) rows.flocks
    × All (λ (d : DuckRow). HasFlock db d.flock_id) rows.ducks
    × All (SightingLinked db) rows.sightings
    × All (λ (c : CommentRow). HasDuck db c.duck_id × HasUser db c.user_id) rows.comments
    × All (λ (f : FollowRow). HasDuck db f.duck_id × HasUser db f.user_id) rows.follows
    × All (NotificationLinked db) rows.notifications

-- No foreign key dangles.
abbrev pub Intact : Db → Type 0
Intact db = Linked db db
