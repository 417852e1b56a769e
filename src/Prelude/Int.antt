-- ===== src/Prelude/Int.antt =====
-- Signed numbers as the program parses them: `str::parse::<i64>`.
use Prim.Native.Nat.{ℕ, zero, suc, ◌+◌, ◌-◌, ◌*◌, ◌%◌, ◌^◌}
use mathlib.Core.Bool.{Bool, false, ◌&&◌}
use mathlib.Core.Option.{Option, none, some}
use mathlib.Core.List.{[], ◌∷◌}
use duck_voyage.Prelude.Tests.{leb, ltb, ◌==◌, if◌then◌else◌}
use duck_voyage.Prelude.Text.{Text}

-- `negsuc n` is -(n + 1).
pub data ℤ : Type 0 where
  pos : ℕ → ℤ
  negsuc : ℕ → ℤ

abbrev pub negate : ℕ → ℤ
negate zero = pos zero
negate (suc n) = negsuc n

-- Comparison of a count with a signed number.
abbrev pub count_lt : ℕ → ℤ → Bool
count_lt n (pos m) = ltb n m
count_lt n (negsuc m) = false

abbrev pub count_le : ℕ → ℤ → Bool
count_le n (pos m) = leb n m
count_le n (negsuc m) = false

-- `as u16`: the low 16 bits of the two's complement.
abbrev pub as_u16 : ℤ → ℕ
as_u16 (pos n) = n % 2 ^ 16
as_u16 (negsuc n) = 2 ^ 16 - 1 - n % 2 ^ 16

pub decimal : ℕ → Text → Option ℕ
decimal n [] = some n
decimal n (c ∷ cs) =
    let rest = decimal (n * 10 + (c - b'0')) cs in if leb b'0' c && leb c b'9' then rest else none

-- One digit or more.
unfoldable pub unsigned : Text → Option ℕ
unfolding decimal
unsigned [] = none
unsigned (c ∷ cs) = decimal 0 (c ∷ cs)

abbrev pub below {ℓ} : {A : Type ℓ} → ℕ → (ℕ → A) → Option ℕ → Option A
below limit f none = none
below limit f (some n) = if ltb n limit then some (f n) else none

-- An optional sign, and a value that fits.
unfoldable pub parse_i64 : Text → Option ℤ
unfolding unsigned
parse_i64 [] = none
parse_i64 (c ∷ cs) =
    if c == b'-'
    then below (2 ^ 63 + 1) negate (unsigned cs)
    else if c == b'+'
    then below (2 ^ 63) pos (unsigned cs)
    else below (2 ^ 63) pos (unsigned (c ∷ cs))

-- `str::parse` of an unsigned number: an optional plus sign, and a value below the limit.
unfoldable pub parse_unsigned : ℕ → Text → Option ℕ
unfolding unsigned
parse_unsigned limit [] = none
parse_unsigned limit (c ∷ cs) =
    if c == b'+'
    then below limit (λ n. n) (unsigned cs)
    else below limit (λ n. n) (unsigned (c ∷ cs))
