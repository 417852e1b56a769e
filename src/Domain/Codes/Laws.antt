-- ===== src/Domain/Codes/Laws.antt =====
-- What a code of crates/domain/src/codes.rs is, and what `parse` accepts.
use duck_voyage.Prelude.{
  ℕ, ◌≡◌, ◌⊎◌, inl, inr, refl, ◌∙◌, Bool, true, false, some, List, map, arith, ◌==◌, ==→eq,
  if◌then◌else◌, length, All, subst, Bool-cases,
}
use duck_voyage.Prelude.Results.{Res, ok, err, panic, ◌>>=◌, ◌>>◌, guard, expect}
use duck_voyage.Prelude.Text.{Text}
use duck_voyage.Domain.Damm.{validate}
use duck_voyage.Domain.Damm.Detect.{IsDigit, validate_total}
use duck_voyage.Domain.Codes.{
  FlockCode, FlockCodeError, DuckCode, DuckCodeError, bad_checksum, normalize, parse_flock,
  parse_duck, digits_of, fill, flock_digits, strip,
}
use duck_voyage.Domain.Codes.Glyphs.{
  glyph, Spells, normalize-Spells, normalize-glyphs, digits_of-glyphs, fill-glyphs, length-glyphs,
  length-digits_of,
}

-- A prefix spells three digits.
pub record IsFlockCode (f : FlockCode) (ds : List ℕ) : Type 0 where
  pub digits : All IsDigit ds
  pub size : length ds ≡ 3
  pub shown : f.as_str ≡ map glyph ds

-- A duck code spells seven digits that pass the checksum.
pub record IsDuckCode (c : DuckCode) (ds : List ℕ) : Type 0 where
  pub digits : All IsDigit ds
  pub size : length ds ≡ 7
  pub shown : c.as_str ≡ map glyph ds
  pub checked : validate ds ≡ some true

-- The outcome of a parse: a code, or one of the errors; never a panic.
abbrev pub ParsesToDuck : Res DuckCodeError DuckCode → Type 0
ParsesToDuck (ok c) = (ds : List ℕ) × IsDuckCode c ds
ParsesToDuck (err e) = Unit
ParsesToDuck panic = ⊥

abbrev pub ParsesToFlock : Res FlockCodeError FlockCode → Type 0
ParsesToFlock (ok f) = (ds : List ℕ) × IsFlockCode f ds
ParsesToFlock (err e) = Unit
ParsesToFlock panic = ⊥

-- The rest of `parse_duck`, behind the normalisation.
pub finish : Text → Res DuckCodeError DuckCode
finish normalized = do
  guard (length normalized == 7) (DuckCodeError.bad_length (length normalized))
  digits ← expect (digits_of normalized)
  valid ← expect (validate digits)
  guard valid bad_checksum
  ok (record { as_str = normalized })

pub finish-glyphs :
    (ds : List ℕ) (b : Bool)
    → All IsDigit ds
    → validate ds ≡ some b
    → finish (map glyph ds) ≡ (
        if length ds == 7
        then (if b then ok (record { as_str = map glyph ds }) else err bad_checksum)
        else err (DuckCodeError.bad_length (length ds)))
unfolding finish
finish-glyphs ds b h v = rw (length-glyphs ds, digits_of-glyphs ds h, v) (ground arith)

pub parse_duck-finish :
    (raw : Text) → parse_duck raw ≡ (normalize DuckCodeError.bad_char (strip raw) >>= finish)
unfolding parse_duck finish
parse_duck-finish raw = refl

finish-ParsesToDuck : (ds : List ℕ) → All IsDigit ds → ParsesToDuck (finish (map glyph ds))
finish-ParsesToDuck ds h =
    let (b, v) = validate_total ds h in rw (finish-glyphs ds b h v) (outcome b v (Bool-cases _))
  where
    outcome :
        (b : Bool)
        → validate ds ≡ some b
        → ((length ds == 7) ≡ true) ⊎ ((length ds == 7) ≡ false)
        → ParsesToDuck (
            if length ds == 7
            then (if b then ok (record { as_str = map glyph ds }) else err bad_checksum)
            else err (DuckCodeError.bad_length (length ds)))
    outcome true v (inl e) =
        rw e (ds, record { digits = h; size = ==→eq _ _ e; shown = refl; checked = v })
    outcome false v (inl e) = rw e tt
    outcome b v (inr e) = rw e tt

-- Any text parses, with no panic, to a duck code that spells seven digits with a valid check
-- character, or to an error.
pub parse_duck_sound : (raw : Text) → ParsesToDuck (parse_duck raw)
parse_duck_sound raw = rw (parse_duck-finish raw) (
    outcome (normalize DuckCodeError.bad_char (strip raw))
      (normalize-Spells DuckCodeError.bad_char (strip raw)))
  where
    outcome :
        (r : Res DuckCodeError Text)
        → Spells DuckCodeError.bad_char (strip raw) r
        → ParsesToDuck (r >>= finish)
    outcome (ok t) (ds, h, spelt, shown) = rw shown (finish-ParsesToDuck ds h)
    outcome (err e) h = tt
    outcome panic h = h

-- Any text parses, with no panic, to a flock prefix that spells three digits, or to an error.
pub parse_flock_sound : (raw : Text) → ParsesToFlock (parse_flock raw)
unfolding parse_flock
parse_flock_sound raw = elim (Bool-cases (length raw == 3)) [
  | inl e ↦ rw e (
      outcome e (normalize FlockCodeError.bad_char raw)
        (normalize-Spells FlockCodeError.bad_char raw))
  | inr e ↦ rw e tt
]
  where
    outcome :
        (length raw == 3) ≡ true
        → (r : Res FlockCodeError Text) → Spells FlockCodeError.bad_char raw r
        → ParsesToFlock (r >>= λ text. ok (record { as_str = text }))
    outcome three (ok t) (ds, h, spelt, shown) = (
      ds,
      record { digits = h; size = length-digits_of raw ds spelt ∙ ==→eq _ _ three; shown = shown },
    )
    outcome three (err e) h = tt
    outcome three panic h = h

module _ (f : FlockCode) (prefix : List ℕ) (flock : IsFlockCode f prefix) where
  -- A prefix that was parsed once parses to itself, and its digits are read without a panic.
  pub parse_flock-as_str : parse_flock f.as_str ≡ ok f
  unfolding parse_flock
  parse_flock-as_str = rw (
    flock.shown,
    length-glyphs prefix,
    flock.size,
    normalize-glyphs FlockCodeError.bad_char prefix flock.digits,
  )

  pub flock_digits-eq : flock_digits f ≡ some prefix
  unfolding flock_digits
  flock_digits-eq = rw flock.shown (
      subst (λ n. fill n (map glyph prefix) ≡ some prefix) flock.size
        (fill-glyphs prefix flock.digits))
