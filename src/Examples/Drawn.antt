-- ===== src/Examples/Drawn.antt =====
-- The theorem on the drawing of prefixes, at draws of a profane one, a used one and a free one.
use duck_voyage.Prelude.{
  ℕ, All, length, arith, Bool-cases, inl, inr, ◌≡◌, refl, none, List, [], ◌∷◌, ◌==◌, if◌then◌else◌,
}
use duck_voyage.Prelude.Results.{ok}
use duck_voyage.Prelude.Text.{codes}
use duck_voyage.Domain.Damm.Detect.{IsDigit}
use duck_voyage.Domain.Profanity.{matches}
use duck_voyage.Storage.Flocks.{create_flock}
use duck_voyage.Storage.Flocks.Draw.{created, create_flock-find}
use duck_voyage.Storage.Kept.{with_flock}
use duck_voyage.Examples.Data.{db}

abbrev draws : ℕ → List ℕ
draws k =
    if k == 63 then 10 ∷ 28 ∷ 28 ∷ [] else if k == 62 then 10 ∷ 11 ∷ 12 ∷ [] else 10 ∷ 11 ∷ 13 ∷ []

draws-IsDigit : (k : ℕ) → All IsDigit (draws k) × (length (draws k) ≡ 3)
draws-IsDigit k = elim (Bool-cases (k == 63)) [
  | inl e ↦ rw e ((omega arith, (omega arith, (omega arith, tt))), refl)
  | inr e ↦ elim (Bool-cases (k == 62)) [
    | inl e' ↦ rw (e, e') ((omega arith, (omega arith, (omega arith, tt))), refl)
    | inr e' ↦ rw (e, e') ((omega arith, (omega arith, (omega arith, tt))), refl)
  ]
]

create_flock-find_example :
    create_flock draws 3 2 none db
    ≡ (ok (created 3 2 none db (codes "ABD")), with_flock (codes "ABD") 2 3 none db)
unfolding matches duck_voyage.Domain.Base36.to_ascii_uppercase duck_voyage.Domain.Codes.Glyphs.glyph
create_flock-find_example = create_flock-find draws draws-IsDigit 3 2 (omega arith) none tt db refl
