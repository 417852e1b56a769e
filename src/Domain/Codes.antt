-- ===== src/Domain/Codes.antt =====
-- crates/domain/src/codes.rs: flock prefixes and duck codes. A `String` that holds a code is a list
-- of code points; all of them are ASCII, so that the byte slices of the source cut between them.
pub mod Glyphs
pub mod Laws
pub mod Assembly
pub mod Scan
use duck_voyage.Prelude.{
  ℕ, zero, suc, ◌+◌, ◌-◌, ◌≤◌, Bool, true, false, ◌&&◌, ◌||◌, Option, none, some, List, [], ◌∷◌,
  ◌++◌, leb, ◌==◌, if◌then◌else◌, and_then, map_option, length, take, drop,
}
use duck_voyage.Prelude.Results.{Res, ok, err, panic, ◌>>=◌, ◌>>◌, guard, ok_or, expect, to_option}
use duck_voyage.Prelude.Text.{Text}
use duck_voyage.Domain.Base36.{digit_of, char_of}
use duck_voyage.Domain.Damm.{check_digit, validate}

-- `KeyGeneration`, a u16.
abbrev pub KeyGeneration : Type 0
KeyGeneration = ℕ

-- `FlockSeqError`
pub data FlockSeqError : Type 0 where
  out_of_range : ℕ → FlockSeqError

-- `FlockSeq`: a u16 in 1..=MAX.
pub record FlockSeq : Type 0 where
  pub get : ℕ

abbrev pub seq_max : ℕ
seq_max = 10000

-- `FlockSeq::new`: `u16::try_from` first, then the range.
unfoldable pub new_seq : ℕ → Res FlockSeqError FlockSeq
new_seq seq =
    if leb seq 65535 && (leb 1 seq && leb seq seq_max)
    then ok (record { get = seq })
    else err (out_of_range seq)

-- `FlockCodeError` and `DuckCodeError`
pub data FlockCodeError : Type 0 where
  bad_length : ℕ → FlockCodeError
  bad_char : ℕ → FlockCodeError

pub data DuckCodeError : Type 0 where
  bad_length : ℕ → DuckCodeError
  bad_char : ℕ → DuckCodeError
  bad_checksum : DuckCodeError

pub record FlockCode : Type 0 where
  pub as_str : Text

pub record DuckCode : Type 0 where
  pub as_str : Text

abbrev pub flock_len : ℕ
flock_len = 3

abbrev pub duck_len : ℕ
duck_len = 7

abbrev pub payload_len : ℕ
payload_len = 3

-- `.map(|c| digit_of(c).map(char_of).ok_or(BadChar(c))).collect()`: the first bad character decides.
pub normalize : {E : Type 0} → (ℕ → E) → Text → Res E Text
normalize bad [] = ok []
normalize bad (c ∷ cs) = do
  d ← ok_or (digit_of c) (bad c)
  u ← expect (char_of d)
  rest ← normalize bad cs
  ok (u ∷ rest)

-- `FlockCode::parse`
unfoldable pub parse_flock : Text → Res FlockCodeError FlockCode
unfolding normalize
parse_flock raw = do
  guard (length raw == flock_len) (FlockCodeError.bad_length (length raw))
  text ← normalize FlockCodeError.bad_char raw
  ok (record { as_str = text })

-- `.chars().map(|c| digit_of(c).expect(…))`; `none` is the panic.
pub digits_of : Text → Option (List ℕ)
digits_of [] = some []
digits_of (c ∷ cs) = and_then (digit_of c) (λ d. map_option (λ ds. d ∷ ds) (digits_of cs))

-- The digits of a text zipped into an array of `n` zeros. `zip` draws from the text first, so one
-- character behind the array is read too.
pub fill : ℕ → Text → Option (List ℕ)
fill zero [] = some []
fill zero (c ∷ cs) = map_option (λ _. []) (digit_of c)
fill (suc n) [] = map_option (λ ds. 0 ∷ ds) (fill n [])
fill (suc n) (c ∷ cs) = and_then (digit_of c) (λ d. map_option (λ ds. d ∷ ds) (fill n cs))

-- `FlockCode::digits` and `FlockCode::tweak`
pub flock_digits : FlockCode → Option (List ℕ)
unfolding fill
flock_digits flock = fill flock_len flock.as_str

pub tweak : FlockCode → Text
tweak flock = flock.as_str

-- `!matches!(c, '-' | ' ' | '.')`
abbrev pub is_separator : ℕ → Bool
is_separator c = c == b'-' || (c == b' ' || c == b'.')

pub strip : Text → Text
strip [] = []
strip (c ∷ cs) = let rest = strip cs in if is_separator c then rest else c ∷ rest

-- `DuckCode::parse`
unfoldable pub parse_duck : Text → Res DuckCodeError DuckCode
unfolding normalize strip digits_of
parse_duck raw = do
  normalized ← normalize DuckCodeError.bad_char (strip raw)
  guard (length normalized == duck_len) (DuckCodeError.bad_length (length normalized))
  digits ← expect (digits_of normalized)
  valid ← expect (validate digits)
  guard valid bad_checksum
  ok (record { as_str = normalized })

-- `.map(char_of).collect()`
unfoldable pub chars_of : List ℕ → Option Text
chars_of [] = some []
chars_of (d ∷ ds) = and_then (char_of d) (λ c. map_option (λ cs. c ∷ cs) (chars_of ds))

-- `DuckCode::assemble`; `none` is a panic.
unfoldable pub assemble : FlockCode → List ℕ → Option DuckCode
unfolding flock_digits chars_of
assemble flock payload = and_then (flock_digits flock) (λ prefix.
    let body = prefix ++ payload in
    and_then (check_digit body)
      (λ check. map_option (λ text. record { as_str = text }) (chars_of (body ++ check ∷ []))))

-- `&text[from..to]`, a panic where the range passes the end.
pub slice : ℕ → ℕ → Text → Option Text
slice from to text =
    if leb from to && leb to (length text) then some (take (to - from) (drop from text)) else none

-- `DuckCode::flock_code`, with its `expect`
unfoldable pub flock_code : DuckCode → Option FlockCode
unfolding slice
flock_code code =
    and_then (slice 0 flock_len code.as_str) (λ prefix. to_option (parse_flock prefix))

-- `DuckCode::payload_digits`
unfoldable pub payload_digits : DuckCode → Option (List ℕ)
unfolding slice fill
payload_digits code =
    and_then (slice flock_len (flock_len + payload_len) code.as_str) (fill payload_len)

-- `DuckCode::display_grouped`
pub display_grouped : DuckCode → Option Text
unfolding slice
display_grouped code = and_then (slice 0 flock_len code.as_str) (λ head.
    map_option (λ rest. head ++ b'-' ∷ rest) (slice flock_len (length code.as_str) code.as_str))
