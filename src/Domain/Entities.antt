-- ===== src/Domain/Entities.antt =====
-- crates/domain/src/entities.rs and ids.rs: the entities of the registry. Ids are the positive
-- numbers of the identity columns; an instant is counted in seconds from the earliest one that
-- `jiff::Timestamp` represents.
use duck_voyage.Prelude.{ℕ, Bool, true, false, Option, none, some, is_some}
use duck_voyage.Prelude.Text.{Text}
use duck_voyage.Domain.Codes.{KeyGeneration, FlockSeq, FlockCode, DuckCode}
use duck_voyage.Domain.BoundedText.{
  DuckName, DuckDescription, Note, FlockLabel, PhotoRef, OidcSubject,
}
use duck_voyage.Domain.Imo.{ImoNumber}
use duck_voyage.Domain.Coords.{Coordinates}

abbrev pub Timestamp : Type 0
Timestamp = ℕ

-- `DuckId`, `FlockId`, `UserId`, `VesselId`, `SightingId`, `CommentId`, `NotificationId`
abbrev pub Key : Type 0
Key = ℕ

pub record DuckDetails : Type 0 where
  pub defined_at : Timestamp
  pub description : DuckDescription
  pub name : Option DuckName
  pub photo : PhotoRef

pub data DuckLifecycle : Type 0 where
  allocated : DuckLifecycle
  staged : DuckDetails → DuckLifecycle
  sailing : DuckDetails → Timestamp → DuckLifecycle

-- `DuckLifecycle::is_sailing` and `details`
abbrev pub is_sailing : DuckLifecycle → Bool
is_sailing (sailing details since) = true
is_sailing _ = false

abbrev pub details : DuckLifecycle → Option DuckDetails
details allocated = none
details (staged d) = some d
details (sailing d since) = some d

pub record Duck : Type 0 where
  pub id : Key
  pub code : DuckCode
  pub flock_id : Key
  pub seq : FlockSeq
  pub lifecycle : DuckLifecycle
  pub deleted_at : Option Timestamp
  pub comments_locked_at : Option Timestamp
  pub created_at : Timestamp

-- `Duck::is_deleted` and `comments_locked`
abbrev pub is_deleted : Duck → Bool
is_deleted duck = is_some duck.deleted_at

abbrev pub comments_locked : Duck → Bool
comments_locked duck = is_some duck.comments_locked_at

pub record Flock : Type 0 where
  pub id : Key
  pub code : FlockCode
  pub generation : KeyGeneration
  pub owner : Key
  pub label : Option FlockLabel
  pub created_at : Timestamp

pub record AppUser : Type 0 where
  pub id : Key
  pub oidc : OidcSubject
  pub display_name : Option Text
  pub email : Option Text
  pub is_admin : Bool
  pub created_at : Timestamp

pub record Vessel : Type 0 where
  pub id : Key
  pub imo : Option ImoNumber
  pub name : Text
  pub created_at : Timestamp

pub record Sighting : Type 0 where
  pub id : Key
  pub duck_id : Key
  pub vessel_id : Key
  pub user_id : Key
  pub seen_at : Timestamp
  pub note : Option Note
  pub photo : Option PhotoRef
  pub coordinates : Option Coordinates
  pub created_at : Timestamp
