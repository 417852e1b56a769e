-- ===== src/Domain/Codes/Scan.antt =====
-- Reading a printed duck code back (crates/domain/src/codes.rs): case and separators do not matter,
-- and one wrong or two exchanged characters are refused.
use duck_voyage.Prelude.{
  ℕ, ◌+◌, ◌≤◌, ◌<◌, ◌≡◌, ◌≢◌, refl, sym, ap, ◌∙◌, true, false, List, [], ◌∷◌, ◌++◌, map, arith,
  length, All, All-append, All-append_left, All-append_right, length-append, some, Bool, subst,
}
use duck_voyage.Prelude.Results.{ok, err, ◌>>=◌}
use duck_voyage.Prelude.Text.{Text}
use duck_voyage.Domain.Base36.{digit_of}
use duck_voyage.Domain.Damm.{validate}
use duck_voyage.Domain.Damm.Detect.{IsDigit, validate_substitution, validate_transposition}
use duck_voyage.Domain.Codes.{
  DuckCode, bad_checksum, normalize, parse_duck, display_grouped, strip, is_separator,
}
use duck_voyage.Domain.Codes.Glyphs.{glyph, length-glyphs, digit_of-glyph, normalize-cons}
use duck_voyage.Domain.Codes.Laws.{IsDuckCode, finish, finish-glyphs, parse_duck-finish}

-- `raw` is the printed text `shown` with separators put in anywhere and letters lowered at will.
pub data Mangled : Text → Text → Type 0 where
  end : Mangled [] []
  separated :
      {raw shown : Text} (s : ℕ)
      → is_separator s ≡ true
      → Mangled raw shown
      → Mangled (s ∷ raw) shown
  kept : {raw shown : Text} (c : ℕ) → Mangled raw shown → Mangled (c ∷ raw) (c ∷ shown)
  lowered :
      {raw shown : Text} (c l : ℕ)
      → b'A' ≤ c
      → c ≤ b'Z'
      → l ≡ c + 32
      → Mangled raw shown
      → Mangled (l ∷ raw) (c ∷ shown)

-- A character that codes are printed with.
abbrev IsGlyph : ℕ → Type 0
IsGlyph c = (d : ℕ) × (d < 36) × (c ≡ glyph d)

glyphs-IsGlyph : (ds : List ℕ) → All IsDigit ds → All IsGlyph (map glyph ds)
glyphs-IsGlyph [] h = tt
glyphs-IsGlyph (d ∷ ds) (hd, h) = ((d, hd, refl), glyphs-IsGlyph ds h)

kept_not_separator : (d : ℕ) → d < 36 → is_separator (glyph d) ≡ false
unfolding glyph
kept_not_separator d h = ground arith

lowered_not_separator : (c l : ℕ) → b'A' ≤ c → l ≡ c + 32 → is_separator l ≡ false
lowered_not_separator c l h e = ground arith

digit_of-lowered : (c l : ℕ) → b'A' ≤ c → c ≤ b'Z' → l ≡ c + 32 → digit_of l ≡ digit_of c
unfolding digit_of
digit_of-lowered c l ha hz e = ground arith

module _ {E : Type 0} (bad : ℕ → E) where
  strip_kept :
      (c : ℕ) (raw t : Text)
      → is_separator c ≡ false
      → (d : ℕ) → digit_of c ≡ some d
      → normalize bad (strip raw) ≡ ok t
      → normalize bad (strip (c ∷ raw)) ≡ ok (glyph d ∷ t)
  unfolding strip
  strip_kept c raw t sep d e ih = rw sep (normalize-cons bad c d (strip raw) t e ih)

  normalize-Mangled :
      {raw shown : Text}
      → Mangled raw shown
      → All IsGlyph shown
      → normalize bad (strip raw) ≡ ok shown
  unfolding strip
  normalize-Mangled end h = unfold normalize in refl
  normalize-Mangled (separated s e m) h = rw e (normalize-Mangled m h)
  normalize-Mangled (kept {raw} {shown} c m) ((d, hd, e), h) =
      subst (λ k. normalize bad (strip (k ∷ raw)) ≡ ok (k ∷ shown)) (sym e)
        (strip_kept (glyph d) raw shown (kept_not_separator d hd) d (digit_of-glyph d hd)
          (normalize-Mangled m h))
  normalize-Mangled (lowered {raw} {shown} c l ha hz e m) ((d, hd, eq), h) =
      strip_kept l raw shown (lowered_not_separator c l ha e) d
        (digit_of-lowered c l ha hz e ∙ ap digit_of eq ∙ digit_of-glyph d hd)
        (normalize-Mangled m h)
      ∙ ap (λ k. ok (k ∷ shown)) (sym eq)

parse_duck-Mangled :
    {raw : Text} (ds : List ℕ) (b : Bool)
    → Mangled raw (map glyph ds)
    → All IsDigit ds
    → length ds ≡ 7
    → validate ds ≡ some b
    → parse_duck raw ≡ finish (map glyph ds)
parse_duck-Mangled {raw} ds b m h len v =
    parse_duck-finish raw ∙ ap (λ r. r >>= finish) (normalize-Mangled _ m (glyphs-IsGlyph ds h))

pub Mangled_refl : (s : Text) → Mangled s s
Mangled_refl [] = end
Mangled_refl (c ∷ s) = kept c (Mangled_refl s)

-- A valid code is read back from its text with separators put in anywhere and letters lowered at
-- will.
pub parse_duck-mangled :
    (code : DuckCode) (ds : List ℕ) (raw : Text)
    → IsDuckCode code ds
    → Mangled raw code.as_str
    → parse_duck raw ≡ ok code
parse_duck-mangled code ds raw valid m =
    parse_duck-Mangled ds true (subst (Mangled raw) valid.shown m) valid.digits valid.size
      valid.checked
    ∙ finish-glyphs ds true valid.digits valid.checked
    ∙ rw valid.size (λ i. ok (record { as_str = sym valid.shown i }))

refused :
    {raw : Text} (ds : List ℕ)
    → Mangled raw (map glyph ds)
    → All IsDigit ds
    → length ds ≡ 7
    → validate ds ≡ some false
    → parse_duck raw ≡ err bad_checksum
refused ds m h len v = parse_duck-Mangled ds false m h len v ∙ finish-glyphs ds false h v ∙ rw len

-- A valid code in which one character was replaced by the character of another base-36 digit is
-- refused for its checksum, whatever the case of the letters and the separators put in.
pub parse_duck_substitution :
    (code : DuckCode) (pre : List ℕ) (x y : ℕ) (post : List ℕ) (raw : Text)
    → IsDuckCode code (pre ++ x ∷ post)
    → y < 36
    → x ≢ y
    → Mangled raw (map glyph (pre ++ y ∷ post))
    → parse_duck raw ≡ err bad_checksum
parse_duck_substitution code pre x y post raw valid hy ne m =
    refused (pre ++ y ∷ post) m
      (All-append IsDigit pre (y ∷ post) (All-append_left IsDigit pre (x ∷ post) valid.digits)
        (hy, (All-append_right IsDigit pre (x ∷ post) valid.digits).1))
      (omega (arith, valid.size, length-append pre (x ∷ post), length-append pre (y ∷ post)))
      (validate_substitution pre x y post valid.digits hy ne valid.checked)

-- A valid code in which two adjacent unequal characters were exchanged is refused for its
-- checksum, whatever the case of the letters and the separators put in.
pub parse_duck_transposition :
    (code : DuckCode) (pre : List ℕ) (x y : ℕ) (post : List ℕ) (raw : Text)
    → IsDuckCode code (pre ++ x ∷ y ∷ post)
    → x ≢ y
    → Mangled raw (map glyph (pre ++ y ∷ x ∷ post))
    → parse_duck raw ≡ err bad_checksum
parse_duck_transposition code pre x y post raw valid ne m =
    let tail = All-append_right IsDigit pre (x ∷ y ∷ post) valid.digits in
    refused (pre ++ y ∷ x ∷ post) m
      (All-append IsDigit pre (y ∷ x ∷ post)
        (All-append_left IsDigit pre (x ∷ y ∷ post) valid.digits) (tail.1.0, (tail.0, tail.1.1)))
      (omega
        (arith, valid.size, length-append pre (x ∷ y ∷ post), length-append pre (y ∷ x ∷ post)))
      (validate_transposition pre x y post valid.digits ne valid.checked)

grouped-Mangled :
    (t : Text)
    → length t ≡ 7
    → (shown : Text) × (display_grouped (record { as_str = t }) ≡ some shown) × Mangled shown t
unfolding display_grouped
grouped-Mangled (a ∷ b ∷ c ∷ d ∷ e ∷ f ∷ g ∷ []) h = (
  a ∷ b ∷ c ∷ b'-' ∷ d ∷ e ∷ f ∷ g ∷ [],
  refl,
  kept a (kept b (kept c (separated b'-' refl (kept d (kept e (kept f (kept g end))))))),
)
grouped-Mangled t h = absurd (omega arith)

-- Any valid code has the grouped form in which it is shown, three characters and four with a dash
-- between them, and that form parses to the code.
pub parse_duck-display_grouped :
    (code : DuckCode) (ds : List ℕ)
    → IsDuckCode code ds
    → (shown : Text) × (display_grouped code ≡ some shown) × (parse_duck shown ≡ ok code)
parse_duck-display_grouped code ds valid =
    let (shown, e, m) =
      grouped-Mangled code.as_str (ap length valid.shown ∙ length-glyphs ds ∙ valid.size) in
    (shown, e, parse_duck-mangled code ds shown valid m)
