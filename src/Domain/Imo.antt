-- ===== src/Domain/Imo.antt =====
-- crates/domain/src/imo.rs: IMO ship numbers with their weighted check digit.
pub mod Laws
use duck_voyage.Prelude.{
  ℕ, zero, suc, ◌+◌, ◌-◌, ◌*◌, ◌%◌, Bool, ◌&&◌, Option, none, some, List, [], ◌∷◌, leb, ◌==◌,
  if◌then◌else◌, and_then, length, get_elem?, take,
}
use duck_voyage.Prelude.Results.{Res, ok, err, panic, ◌>>=◌, ◌>>◌, guard, ok_or, expect}
use duck_voyage.Prelude.Text.{Text, trim, trim_start}

-- `ImoError`
pub data ImoError : Type 0 where
  bad_length : ℕ → ImoError
  bad_char : ℕ → ImoError
  bad_check_digit : ImoError

pub record ImoNumber : Type 0 where
  pub as_str : Text

abbrev pub imo_len : ℕ
imo_len = 7

-- `str::trim_start_matches` with a text of three characters.
pub trim_start_matches : ℕ → ℕ → ℕ → Text → Text
trim_start_matches x y z (a ∷ b ∷ c ∷ s) =
    let rest = trim_start_matches x y z s in
    if a == x && (b == y && c == z) then rest else a ∷ b ∷ c ∷ s
trim_start_matches x y z s = s

-- `char::to_digit` at radix 10
pub to_digit : ℕ → Option ℕ
to_digit c = if leb b'0' c && leb c b'9' then some (c - b'0') else none

-- The characters' digits; the first character that is none decides.
pub digits : Text → Res ImoError (List ℕ)
unfolding to_digit
digits [] = ok []
digits (c ∷ cs) = do d ← ok_or (to_digit c) (bad_char c); ds ← digits cs; ok (d ∷ ds)

-- `zip((2..=7).rev()).map(|(&d, w)| d * w).sum()`, with the weights from `w` down to 2.
pub weighted_sum : ℕ → List ℕ → ℕ
weighted_sum w [] = 0
weighted_sum zero (d ∷ ds) = 0
weighted_sum (suc zero) (d ∷ ds) = 0
weighted_sum (suc (suc w)) (d ∷ ds) = d * suc (suc w) + weighted_sum (suc w) ds

-- `ImoNumber::parse`
pub parse_imo : Text → Res ImoError ImoNumber
unfolding trim_start_matches digits weighted_sum
parse_imo raw = do
  let trimmed =
      trim_start (trim_start_matches b'i' b'm' b'o' (trim_start_matches b'I' b'M' b'O' (trim raw)))
  ds ← digits trimmed
  guard (length ds == imo_len) (bad_length (length ds))
  last ← expect (get_elem? ds 6)
  guard (weighted_sum 7 (take 6 ds) % 10 == last) bad_check_digit
  ok (record { as_str = trimmed })
