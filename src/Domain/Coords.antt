-- ===== src/Domain/Coords.antt =====
-- crates/domain/src/coords.rs: WGS84 points. A finite f64 is an exact multiple of 2 ^ -1074, so the
-- comparisons of the source are comparisons of whole numbers.
pub mod Bounds
use duck_voyage.Prelude.{
  ℕ, ◌*◌, ◌^◌, ◌≤◌, ◌≡◌, refl, Bool, true, false, ◌&&◌, arith, leb, ◌==◌, if◌then◌else◌,
}
use duck_voyage.Prelude.Results.{Res, ok, err, panic, ◌>>=◌, ◌>>◌, guard}

-- An f64: `finite negative n` is the number n * 2 ^ -1074 with that sign.
pub data F64 : Type 0 where
  nan : F64
  infinite : Bool → F64
  finite : Bool → ℕ → F64

-- The whole number `n` as a multiple of 2 ^ -1074.
pub whole : ℕ → ℕ
whole n = n * 2 ^ 1074

-- `(-bound..=bound).contains(&x)`
pub contains_range : ℕ → F64 → Bool
contains_range bound nan = false
contains_range bound (infinite negative) = false
contains_range bound (finite negative n) = leb n (whole bound)

-- `f64::is_finite`
pub is_finite : F64 → Bool
is_finite nan = false
is_finite (infinite negative) = false
is_finite (finite negative n) = true

-- `CoordinatesError`
pub data CoordinatesError : Type 0 where
  latitude : F64 → CoordinatesError
  longitude : F64 → CoordinatesError

pub record Coordinates : Type 0 where
  pub lat : F64
  pub lon : F64

-- `Coordinates::new`
unfoldable pub new_coordinates : F64 → F64 → Res CoordinatesError Coordinates
unfolding contains_range is_finite
new_coordinates lat lon = do
  guard (contains_range 90 lat && is_finite lat) (latitude lat)
  guard (contains_range 180 lon && is_finite lon) (longitude lon)
  ok (record { lat = lat; lon = lon })
