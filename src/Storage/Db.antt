-- ===== src/Storage/Db.antt =====
-- The tables that the repositories of crates/storage/src/repos.rs work on. A repository's method is
-- an action on them that runs alone: its statements run in one transaction, or are one statement.
use duck_voyage.Prelude.{Option, List}
use duck_voyage.Prelude.Text.{Text}
use duck_voyage.Prelude.Exec.{Exec}
use duck_voyage.Domain.Entities.{Timestamp, Key}
use duck_voyage.Storage.Rows.{RepoError, DuckRow, FlockRow, UserRow, VesselRow, SightingRow}

pub record CommentRow : Type 0 where
  pub id : Key
  pub duck_id : Key
  pub user_id : Key
  pub body : Text
  pub created_at : Timestamp

pub record FollowRow : Type 0 where
  pub user_id : Key
  pub duck_id : Key
  pub created_at : Timestamp

pub record NotificationRow : Type 0 where
  pub id : Key
  pub user_id : Key
  pub duck_id : Key
  pub sighting_id : Key
  pub created_at : Timestamp
  pub read_at : Option Timestamp

-- `StoredLoginFlow`, with the column that dates it.
pub record FlowRow : Type 0 where
  pub state : Text
  pub provider : Text
  pub pkce_verifier : Text
  pub nonce : Text
  pub return_to : Option Text
  pub created_at : Timestamp

-- A row of `cruise_line`, and the current operators of `vessel_operator` (valid_to IS NULL).
pub record LineRow : Type 0 where
  pub id : Key
  pub name : Text

pub record OperatorRow : Type 0 where
  pub vessel_id : Key
  pub cruise_line_id : Key

-- `now` is the clock of the database, and `next_id` the identity columns' counter: ids are never
-- given twice, and no statement compares the ids of two tables.
pub record Db : Type 0 where
  pub now : Timestamp
  pub next_id : Key
  pub users : List UserRow
  pub flocks : List FlockRow
  pub ducks : List DuckRow
  pub sightings : List SightingRow
  pub comments : List CommentRow
  pub follows : List FollowRow
  pub notifications : List NotificationRow
  pub flows : List FlowRow
  pub vessels : List VesselRow
  pub lines : List LineRow
  pub operators : List OperatorRow

abbrev pub Repo : Type 0 → Type 0
Repo A = Exec Db RepoError A
