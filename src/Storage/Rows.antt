-- ===== src/Storage/Rows.antt =====
-- crates/storage/src/rows.rs and error.rs: rows and their conversion into domain entities. The
-- SMALLINT columns are natural numbers: the migrations CHECK `flock_seq`, and `key_generation` is
-- written from a u16.
use duck_voyage.Prelude.{ℕ, Bool, Option, none, some, ltb}
use duck_voyage.Prelude.Results.{Res, ok, err, ◌>>=◌, ◌>>◌, guard, map_err, traverse}
use duck_voyage.Prelude.Text.{Text}
use duck_voyage.Domain.Codes.{new_seq, parse_flock, parse_duck}
use duck_voyage.Domain.BoundedText.{PhotoRef, parse_bounded}
use duck_voyage.Domain.Imo.{parse_imo}
use duck_voyage.Domain.Coords.{F64, Coordinates, new_coordinates}
use duck_voyage.Domain.Entities.{
  Timestamp, Key, DuckDetails, DuckLifecycle, allocated, staged, sailing, Duck, Flock, AppUser,
  Vessel, Sighting,
}

-- The tables that `RepoError::Corrupt` names.
pub data Table : Type 0 where
  duck flock vessel sighting duck_comment : Table

-- `RepoError`, without the text of a detail. `sql` is an error of the database: here, a violated
-- constraint.
pub data RepoError : Type 0 where
  sql : RepoError
  corrupt : Table → RepoError
  flock_full : RepoError

pub record DuckRow : Type 0 where
  pub id : Key
  pub code : Text
  pub flock_id : Key
  pub flock_seq : ℕ
  pub name : Option Text
  pub description : Option Text
  pub originated_at : Option Timestamp
  pub set_sail_at : Option Timestamp
  pub deleted_at : Option Timestamp
  pub comments_locked_at : Option Timestamp
  pub origin_photo_key : Option Text
  pub origin_photo_content_type : Option Text
  pub created_at : Timestamp

-- The inner `match sailed`.
abbrev pub set_sailing : DuckDetails → Option Timestamp → DuckLifecycle
set_sailing details none = staged details
set_sailing details (some since) = sailing details since

-- The `match` on the origination columns, in the order of the source; the name comes last.
unfoldable pub lifecycle_of :
    Option Timestamp
    → Option Timestamp
    → Option Text
    → Option Text
    → Option Text
    → Option Text
    → Res RepoError DuckLifecycle
lifecycle_of none none none none none name = ok allocated
lifecycle_of (some defined_at) sailed (some description) (some key) (some content_type) name = do
  d ← map_err (λ _. corrupt duck) (parse_bounded 2000 description)
  n ← traverse (λ t. map_err (λ _. corrupt duck) (parse_bounded 80 t)) name
  ok (
      set_sailing
        (record {
          defined_at = defined_at;
          description = d;
          name = n;
          photo = record { key = record { as_str = key }; content_type = content_type };
        })
        sailed)
lifecycle_of _ _ _ _ _ name = err (corrupt duck)

-- `TryFrom<DuckRow> for Duck`
unfoldable pub try_duck : DuckRow → Res RepoError Duck
try_duck r = do
  lifecycle ←
      lifecycle_of r.originated_at r.set_sail_at r.description r.origin_photo_key
        r.origin_photo_content_type r.name
  code ← map_err (λ _. corrupt duck) (parse_duck r.code)
  seq ← map_err (λ _. corrupt duck) (new_seq r.flock_seq)
  ok (record {
    id = r.id;
    code = code;
    flock_id = r.flock_id;
    seq = seq;
    lifecycle = lifecycle;
    deleted_at = r.deleted_at;
    comments_locked_at = r.comments_locked_at;
    created_at = r.created_at;
  })

pub record FlockRow : Type 0 where
  pub id : Key
  pub flock_code : Text
  pub key_generation : ℕ
  pub owner_user_id : Key
  pub label : Option Text
  pub created_at : Timestamp

-- `TryFrom<FlockRow> for Flock`
unfoldable pub try_flock : FlockRow → Res RepoError Flock
try_flock r = do
  code ← map_err (λ _. corrupt flock) (parse_flock r.flock_code)
  guard (ltb r.key_generation 65536) (corrupt flock)
  label ← traverse (λ l. map_err (λ _. corrupt flock) (parse_bounded 120 l)) r.label
  ok (record {
    id = r.id;
    code = code;
    generation = r.key_generation;
    owner = r.owner_user_id;
    label = label;
    created_at = r.created_at;
  })

pub record UserRow : Type 0 where
  pub id : Key
  pub issuer : Text
  pub subject : Text
  pub display_name : Option Text
  pub email : Option Text
  pub is_admin : Bool
  pub created_at : Timestamp

-- `From<UserRow> for AppUser`
abbrev pub from_user : UserRow → AppUser
from_user r = record {
  id = r.id;
  oidc = record { issuer = r.issuer; subject = r.subject };
  display_name = r.display_name;
  email = r.email;
  is_admin = r.is_admin;
  created_at = r.created_at;
}

pub record VesselRow : Type 0 where
  pub id : Key
  pub imo_number : Option Text
  pub name : Text
  pub created_at : Timestamp

-- `TryFrom<VesselRow> for Vessel`
unfoldable pub try_vessel : VesselRow → Res RepoError Vessel
try_vessel r = do
  imo ← traverse (λ raw. map_err (λ _. corrupt vessel) (parse_imo raw)) r.imo_number
  ok (record { id = r.id; imo = imo; name = r.name; created_at = r.created_at })

pub record SightingRow : Type 0 where
  pub id : Key
  pub duck_id : Key
  pub vessel_id : Key
  pub user_id : Key
  pub seen_at : Timestamp
  pub note : Option Text
  pub photo_key : Option Text
  pub photo_content_type : Option Text
  pub latitude : Option F64
  pub longitude : Option F64
  pub created_at : Timestamp

abbrev pub photo_of : Option Text → Option Text → Res RepoError (Option PhotoRef)
photo_of none none = ok none
photo_of (some key) (some content_type) =
    ok (some (record { key = record { as_str = key }; content_type = content_type }))
photo_of _ _ = err (corrupt sighting)

abbrev pub coordinates_of : Option F64 → Option F64 → Res RepoError (Option Coordinates)
coordinates_of none none = ok none
coordinates_of (some lat) (some lon) =
    map_err (λ _. corrupt sighting) (new_coordinates lat lon) >>= λ c. ok (some c)
coordinates_of _ _ = err (corrupt sighting)

-- `TryFrom<SightingRow> for Sighting`
unfoldable pub try_sighting : SightingRow → Res RepoError Sighting
try_sighting r = do
  photo ← photo_of r.photo_key r.photo_content_type
  coordinates ← coordinates_of r.latitude r.longitude
  note ← traverse (λ n. map_err (λ _. corrupt sighting) (parse_bounded 2000 n)) r.note
  ok (record {
    id = r.id;
    duck_id = r.duck_id;
    vessel_id = r.vessel_id;
    user_id = r.user_id;
    seen_at = r.seen_at;
    note = note;
    photo = photo;
    coordinates = coordinates;
    created_at = r.created_at;
  })
