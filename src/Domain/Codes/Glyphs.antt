-- ===== src/Domain/Codes/Glyphs.antt =====
-- The characters that codes are written in (crates/domain/src/base36.rs), one for each digit, and
-- the loops of crates/domain/src/codes.rs over texts of such characters.
use duck_voyage.Prelude.{
  ℕ, zero, suc, ◌+◌, ◌-◌, ◌≤◌, ◌<◌, ◌≡◌, refl, false, Option, none, some, List, [], ◌∷◌, ◌++◌, map,
  arith, ltb, if◌then◌else◌, length, All,
}
use duck_voyage.Prelude.Results.{Res, ok, err, panic, ◌>>=◌}
use duck_voyage.Prelude.Text.{Text}
use duck_voyage.Domain.Base36.{digit_of, char_of}
use duck_voyage.Domain.Damm.Detect.{IsDigit}
use duck_voyage.Domain.Codes.{normalize, digits_of, fill, strip, chars_of, is_separator}

-- The printed character of a digit.
unfoldable pub glyph : ℕ → ℕ
glyph d = if ltb d 10 then d + b'0' else d - 10 + b'A'

pub char_of-eq-glyph : (d : ℕ) → d < 36 → char_of d ≡ some (glyph d)
unfolding char_of glyph
char_of-eq-glyph d h = ground arith

pub digit_of-glyph : (d : ℕ) → d < 36 → digit_of (glyph d) ≡ some d
unfolding digit_of glyph
digit_of-glyph d h = ground arith

pub digit_of-lt : (c d : ℕ) → digit_of c ≡ some d → d < 36
unfolding digit_of
digit_of-lt c d h = ground arith

glyph_not_separator : (d : ℕ) → d < 36 → is_separator (glyph d) ≡ false
unfolding glyph
glyph_not_separator d h = ground arith

pub chars_of-glyphs : (ds : List ℕ) → All IsDigit ds → chars_of ds ≡ some (map glyph ds)
unfolding chars_of
chars_of-glyphs [] h = refl
chars_of-glyphs (d ∷ ds) (hd, h) = rw (char_of-eq-glyph d hd, chars_of-glyphs ds h)

pub digits_of-glyphs : (ds : List ℕ) → All IsDigit ds → digits_of (map glyph ds) ≡ some ds
unfolding digits_of
digits_of-glyphs [] h = refl
digits_of-glyphs (d ∷ ds) (hd, h) = rw (digit_of-glyph d hd, digits_of-glyphs ds h)

pub strip-glyphs : (ds : List ℕ) → All IsDigit ds → strip (map glyph ds) ≡ map glyph ds
unfolding strip
strip-glyphs [] h = refl
strip-glyphs (d ∷ ds) (hd, h) = rw (glyph_not_separator d hd, strip-glyphs ds h)

pub fill-glyphs : (ds : List ℕ) → All IsDigit ds → fill (length ds) (map glyph ds) ≡ some ds
unfolding fill
fill-glyphs [] h = refl
fill-glyphs (d ∷ ds) (hd, h) = rw (digit_of-glyph d hd, fill-glyphs ds h)

pub length-glyphs : (ds : List ℕ) → length (map glyph ds) ≡ length ds
length-glyphs [] = refl
length-glyphs (d ∷ ds) = omega (arith, length-glyphs ds)

pub length-digits_of : (s : Text) (ds : List ℕ) → digits_of s ≡ some ds → length ds ≡ length s
unfolding digits_of
length-digits_of [] ds h = ground arith
length-digits_of (c ∷ s) [] h = ground arith
length-digits_of (c ∷ s) (d ∷ ds) h = ground (arith, length-digits_of s ds)

-- A list of three digits, and one of seven, element by element.
pub three_digits : (ds : List ℕ) → length ds ≡ 3 → (a b c : ℕ) × (ds ≡ a ∷ b ∷ c ∷ [])
three_digits [] h = absurd (omega arith)
three_digits (a ∷ []) h = absurd (omega arith)
three_digits (a ∷ b ∷ []) h = absurd (omega arith)
three_digits (a ∷ b ∷ c ∷ []) h = (a, b, c, refl)
three_digits (a ∷ b ∷ c ∷ d ∷ ds) h = absurd (omega arith)

pub split_at :
    (n : ℕ) (ds : List ℕ)
    → n ≤ length ds
    → (xs ys : List ℕ) × (ds ≡ xs ++ ys) × (length xs ≡ n) × (length ds ≡ n + length ys)
split_at zero ds h = ([], ds, refl, refl, omega arith)
split_at (suc n) [] h = absurd (omega arith)
split_at (suc n) (d ∷ ds) h =
    let (xs, ys, e, len, sum) = split_at n ds (omega arith) in
    (d ∷ xs, ys, cc, omega arith, omega arith)

module _ {E : Type 0} (bad : ℕ → E) where
  -- A character is normalised by its digit alone.
  pub normalize-cons :
      (c d : ℕ) (s t : Text)
      → digit_of c ≡ some d
      → normalize bad s ≡ ok t
      → normalize bad (c ∷ s) ≡ ok (glyph d ∷ t)
  unfolding normalize
  normalize-cons c d s t e ih = rw (e, char_of-eq-glyph d (digit_of-lt c d e), ih)

  pub normalize-glyphs :
      (ds : List ℕ) → All IsDigit ds → normalize bad (map glyph ds) ≡ ok (map glyph ds)
  unfolding normalize
  normalize-glyphs [] h = refl
  normalize-glyphs (d ∷ ds) (hd, h) =
      normalize-cons (glyph d) d (map glyph ds) (map glyph ds) (digit_of-glyph d hd)
        (normalize-glyphs ds h)

  -- What a normalised text spells, and where it came from.
  abbrev pub Spells : Text → Res E Text → Type 0
  Spells s (ok t) = (ds : List ℕ) × All IsDigit ds × (digits_of s ≡ some ds) × (t ≡ map glyph ds)
  Spells s (err e) = digits_of s ≡ none
  Spells s panic = ⊥

  Spells-cons :
      (c d : ℕ) (s : Text) (r : Res E Text)
      → digit_of c ≡ some d
      → Spells s r
      → Spells (c ∷ s) (r >>= λ rest. ok (glyph d ∷ rest))
  unfolding digits_of
  Spells-cons c d s (ok t) e (ds, h, spelt, shown) =
      (d ∷ ds, (digit_of-lt c d e, h), rw (e, spelt), rw shown)
  Spells-cons c d s (err x) e h = rw (e, h)
  Spells-cons c d s panic e h = elim h [ ]

  Spells-first :
      (c : ℕ) (s : Text) (o : Option ℕ)
      → digit_of c ≡ o
      → Spells s (normalize bad s)
      → Spells (c ∷ s) (normalize bad (c ∷ s))
  unfolding normalize
  Spells-first c s none e ih = rw e (unfold digits_of in rw e)
  Spells-first c s (some d) e ih =
      rw (e, char_of-eq-glyph d (digit_of-lt c d e)) (Spells-cons c d s (normalize bad s) e ih)

  -- Normalisation never panics: it gives the glyphs of the digits, or the text has a bad character.
  pub normalize-Spells : (s : Text) → Spells s (normalize bad s)
  unfolding normalize
  normalize-Spells [] = unfold digits_of in ([], tt, refl, refl)
  normalize-Spells (c ∷ s) = Spells-first c s (digit_of c) refl (normalize-Spells s)
