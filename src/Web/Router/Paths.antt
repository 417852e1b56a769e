-- ===== src/Web/Router/Paths.antt =====
-- The paths that crates/web/src/views.rs writes, as the patterns of crates/web/src/main.rs have them.
use duck_voyage.Prelude.{
  ◌≡◌, ◌≢◌, refl, sym, ap, ℕ, zero, suc, ◌+◌, ◌/◌, ◌%◌, List, [], ◌∷◌, ◌++◌, map, All, All-append,
  arith, ltb, Bool-cases, inl, inr, subst,
}
use mathlib.Core.List.{append-nil}
use duck_voyage.Prelude.Text.{Text, codes}
use duck_voyage.Domain.Damm.Detect.{IsDigit}
use duck_voyage.Domain.Codes.{DuckCode}
use duck_voyage.Domain.Codes.Glyphs.{glyph}
use duck_voyage.Domain.Codes.Laws.{IsDuckCode}
use duck_voyage.Web.Router.{lit, param, IsPiece, Fills}
use duck_voyage.Web.Views.Markup.{digits, decimal}
use duck_voyage.Web.Views.Layout.{duck_path}

snoc_nil {ℓ} : {A : Type ℓ} (xs : List A) (x : A) → xs ++ x ∷ [] ≢ []
snoc_nil [] x h = cc
snoc_nil (y ∷ xs) x h = cc

cons_nil {ℓ} : {A : Type ℓ} (x : A) (xs : List A) → x ∷ xs ≢ []
cons_nil x xs h = cc

-- A segment at the end of a path.
ends : (t : Text) → Fills (lit t ∷ []) (b'/' ∷ t)
ends t = ([], ap (λ u. b'/' ∷ u) (sym (append-nil t)), refl)

last_digit : (n : ℕ) → b'0' + n % 10 ≢ b'/'
last_digit n h = absurd (omega arith)

digits-plain : (fuel n : ℕ) → All (λ c. c ≢ b'/') (digits fuel n)
unfolding digits
digits-plain zero n = tt
digits-plain (suc fuel) n = elim (Bool-cases (ltb n 10)) [
  | inl e ↦ rw e (last_digit n, tt)
  | inr e ↦ rw e (
      All-append (λ c. c ≢ b'/') (digits fuel (n / 10)) _ (digits-plain fuel (n / 10))
        (last_digit n, tt))
]

decimal-IsPiece : (n : ℕ) → IsPiece (decimal n)
unfolding digits
decimal-IsPiece n = (snoc_nil _ _, digits-plain (suc n) n)

glyph-plain : (d : ℕ) → IsDigit d → glyph d ≢ b'/'
unfolding glyph
glyph-plain d h e = elim (Bool-cases (ltb d 10)) [
  | inl l ↦ let bad = rw l at e in absurd (omega arith)
  | inr l ↦ let bad = rw l at e in absurd (omega arith)
]

glyphs-plain : (ds : List ℕ) → All IsDigit ds → All (λ c. c ≢ b'/') (map glyph ds)
glyphs-plain [] h = tt
glyphs-plain (d ∷ ds) (hd, h) = (glyph-plain d hd, glyphs-plain ds h)

-- A code of some digits.
abbrev pub IsCode : DuckCode → Type 0
IsCode code = (ds : List ℕ) × IsDuckCode code ds

code-IsPiece : (code : DuckCode) → IsCode code → IsPiece code.as_str
code-IsPiece code ([], spelt) = absurd (bogus spelt.size)
  where
    bogus : ◌≡◌ {A = ℕ} 0 7 → ⊥
    bogus h = omega arith
code-IsPiece code (d ∷ ds, spelt) =
    subst IsPiece (sym spelt.shown) (cons_nil _ _, glyphs-plain (d ∷ ds) spelt.digits)

module _ (code : DuckCode) (valid : IsCode code) where
  pub Fills-verb :
      (verb : Text)
      → Fills (lit (codes "d") ∷ param ∷ lit verb ∷ []) (duck_path code ++ b'/' ∷ verb)
  Fills-verb verb = (_, refl, (code.as_str, _, refl, code-IsPiece code valid, ends verb))

  pub Fills-verbs :
      (kind verb : Text)
      → Fills
          (lit (codes "d") ∷ param ∷ lit kind ∷ lit verb ∷ [])
          (duck_path code ++ (b'/' ∷ kind ++ (b'/' ∷ verb)))
  Fills-verbs kind verb =
      (_, refl, (code.as_str, _, refl, code-IsPiece code valid, (_, refl, ends verb)))

  pub Fills-item :
      (kind : Text) (id : ℕ)
      → Fills
          (lit (codes "d") ∷ param ∷ lit kind ∷ param ∷ lit (codes "delete") ∷ [])
          (duck_path code ++ (b'/' ∷ kind ++ (b'/' ∷ decimal id ++ codes "/delete")))
  Fills-item kind id = (
    _,
    refl,
    (
      code.as_str,
      _,
      refl,
      code-IsPiece code valid,
      (_, refl, (decimal id, _, refl, decimal-IsPiece id, ends (codes "delete"))),
    ),
  )

pub Fills-numbered :
    (first verb : Text) (id : ℕ)
    → Fills
        (lit first ∷ param ∷ lit verb ∷ [])
        (b'/' ∷ first ++ (b'/' ∷ decimal id ++ (b'/' ∷ verb)))
Fills-numbered first verb id = (_, refl, (decimal id, _, refl, decimal-IsPiece id, ends verb))

pub Fills-listed :
    (first second : Text) (id : ℕ)
    → Fills
        (lit first ∷ lit second ∷ param ∷ lit (codes "delete") ∷ [])
        (b'/' ∷ first ++ (b'/' ∷ second ++ (b'/' ∷ decimal id ++ codes "/delete")))
Fills-listed first second id =
    (_, refl, (_, refl, (decimal id, _, refl, decimal-IsPiece id, ends (codes "delete"))))
