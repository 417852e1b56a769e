-- ===== src/Domain/Coords/Bounds.antt =====
-- Which points `Coordinates::new` accepts, and which of two faults it reports.
use duck_voyage.Prelude.{
  ℕ, ◌≤◌, ◌≡◌, ◌⊎◌, refl, true, false, ◌&&◌, arith, leb, inl, inr, Bool-cases,
}
use duck_voyage.Prelude.Results.{Res, ok, err, panic}
use duck_voyage.Domain.Coords.{
  F64, nan, infinite, finite, whole, contains_range, is_finite, CoordinatesError, latitude,
  longitude, Coordinates, new_coordinates,
}

-- A number whose distance from 0 is at most the bound.
abbrev pub Bounded : ℕ → F64 → Type 0
Bounded bound nan = ⊥
Bounded bound (infinite negative) = ⊥
Bounded bound (finite negative n) = n ≤ whole bound

-- The outcomes of `Coordinates::new`.
abbrev pub Judged : F64 → F64 → Res CoordinatesError Coordinates → Type 0
Judged lat lon (ok c) = (c ≡ record { lat = lat; lon = lon }) × Bounded 90 lat × Bounded 180 lon
Judged lat lon (err (latitude x)) = (x ≡ lat) × (¬ Bounded 90 lat)
Judged lat lon (err (longitude x)) = (x ≡ lon) × Bounded 90 lat × (¬ Bounded 180 lon)
Judged lat lon panic = ⊥

tested :
    (bound : ℕ) (x : F64)
    → (((contains_range bound x && is_finite x) ≡ true) × Bounded bound x)
      ⊎ (((contains_range bound x && is_finite x) ≡ false) × (¬ Bounded bound x))
unfolding contains_range is_finite
tested bound nan = inr (refl, λ h. h)
tested bound (infinite s) = inr (refl, λ h. h)
tested bound (finite s n) = elim (Bool-cases (leb n (whole bound))) [
  | inl e ↦ inl (rw e refl, leb→le n (whole bound) e)
  | inr e ↦ inr (rw e refl, leb→gt n (whole bound) e)
]
  where
    leb→le : (a b : ℕ) → leb a b ≡ true → a ≤ b
    leb→le a b h = ground arith

    leb→gt : (a b : ℕ) → leb a b ≡ false → a ≤ b → ⊥
    leb→gt a b h l = ground arith

-- A point is accepted as it is exactly when both numbers are finite and within their bounds, and a
-- latitude that is not is reported before a longitude that is not.
pub new_coordinates_lem : (lat lon : F64) → Judged lat lon (new_coordinates lat lon)
unfolding new_coordinates
new_coordinates_lem lat lon = elim (tested 90 lat) [
  | inr (e, out) ↦ rw e (refl, out)
  | inl (e, within) ↦ elim (tested 180 lon) [
    | inr (e', out) ↦ rw (e, e') (refl, within, out)
    | inl (e', within') ↦ rw (e, e') (refl, within, within')
  ]
]
