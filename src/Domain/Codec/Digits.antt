-- ===== src/Domain/Codec/Digits.antt =====
-- The base-36 digits of a payload (crates/domain/src/codec.rs), there and back.
use duck_voyage.Prelude.{ℕ, ◌<◌, ◌≡◌, refl, List, [], ◌∷◌, some, arith}
use duck_voyage.Domain.Codec.{IsPayload, to_digits, from_digits, to_payload}

-- Three digits below 36, whatever the value.
pub to_digits-IsPayload : (v : ℕ) → IsPayload (to_digits v)
unfolding to_digits
to_digits-IsPayload v = ((omega arith, (omega arith, (omega arith, tt))), refl)

-- Every value of the payload domain comes back from its digits.
pub from_digits-to_digits : (v : ℕ) → v < 46656 → from_digits (to_digits v) ≡ v
unfolding from_digits to_digits
from_digits-to_digits v h = omega arith

-- And every payload from its value.
pub to_digits-from_digits :
    (ds : List ℕ) → IsPayload ds → (to_digits (from_digits ds) ≡ ds) × (from_digits ds < 46656)
unfolding from_digits to_digits
to_digits-from_digits (a ∷ b ∷ c ∷ []) h = let (digits, size) = h in (ground arith, omega arith)
to_digits-from_digits ds h = absurd (omega arith)

pub to_payload-eq : (ds : List ℕ) → IsPayload ds → to_payload ds ≡ some ds
unfolding to_payload
to_payload-eq (a ∷ b ∷ c ∷ []) h = let (digits, size) = h in ground arith
to_payload-eq ds h = absurd (omega arith)
