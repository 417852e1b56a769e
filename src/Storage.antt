-- ===== src/Storage.antt =====
-- crates/storage: rows, their conversions, and the repositories over the tables.
pub mod Rows
pub mod Db
pub mod Users
pub mod Flocks
pub mod Ducks
pub mod Sightings
pub mod Social
pub mod Admin
pub mod Views
pub mod Boards
pub mod Overviews
pub mod Kept
pub mod Integrity
pub mod Following
pub mod Readable
