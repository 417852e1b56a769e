-- ===== src/Examples/Codes.antt =====
-- The theorems on codes and their check characters, at the label ABC-001Q.
use duck_voyage.Prelude.{◌≡◌, refl, true, some, [], ◌∷◌, map, arith}
use duck_voyage.Prelude.Results.{ok, err}
use duck_voyage.Prelude.Text.{Text, codes}
use duck_voyage.Domain.Damm.{validate}
use duck_voyage.Domain.Codes.{bad_checksum, parse_duck}
use duck_voyage.Domain.Codes.Glyphs.{glyph}
use duck_voyage.Domain.Codes.Laws.{IsFlockCode, IsDuckCode, ParsesToDuck, parse_duck_sound}
use duck_voyage.Domain.Codes.Scan.{
  Mangled, parse_duck-mangled, parse_duck_substitution, parse_duck_transposition,
}
use duck_voyage.Examples.Data.{abc, label, label_digits}

label_accepted : validate label_digits ≡ some true
unfolding validate
label_accepted = refl

pub label-IsDuckCode : IsDuckCode label label_digits
unfolding glyph
label-IsDuckCode = record {
  digits = omega arith;
  size = refl;
  shown = refl;
  checked = label_accepted;
}

pub abc-IsFlockCode : IsFlockCode abc (10 ∷ 11 ∷ 12 ∷ [])
unfolding glyph
abc-IsFlockCode = record { digits = omega arith; size = refl; shown = refl }

parse_duck_sound_example : ParsesToDuck (parse_duck (codes "abc-001q"))
parse_duck_sound_example = parse_duck_sound (codes "abc-001q")

-- `abc-001q`, as someone may type it.
pub typed : Mangled (codes "abc-001q") label.as_str
unfolding glyph
typed = Mangled.lowered 65 97 (omega arith) (omega arith) refl (
    Mangled.lowered 66 98 (omega arith) (omega arith) refl (
      Mangled.lowered 67 99 (omega arith) (omega arith) refl (
        Mangled.separated 45 refl (
          Mangled.kept 48 (
            Mangled.kept 48 (
              Mangled.kept 49
                (Mangled.lowered 81 113 (omega arith) (omega arith) refl Mangled.end)))))))

parse_duck-mangled_example : parse_duck (codes "abc-001q") ≡ ok label
unfolding glyph
parse_duck-mangled_example =
    parse_duck-mangled label label_digits (codes "abc-001q") label-IsDuckCode typed

kept_all : (s : Text) → Mangled s s
kept_all [] = Mangled.end
kept_all (c ∷ s) = Mangled.kept c (kept_all s)

parse_duck_substitution_example :
    parse_duck (map glyph (10 ∷ 11 ∷ 12 ∷ 5 ∷ 0 ∷ 1 ∷ 26 ∷ [])) ≡ err bad_checksum
parse_duck_substitution_example =
    parse_duck_substitution label (10 ∷ 11 ∷ 12 ∷ []) 0 5 (0 ∷ 1 ∷ 26 ∷ [])
      (map glyph (10 ∷ 11 ∷ 12 ∷ 5 ∷ 0 ∷ 1 ∷ 26 ∷ [])) label-IsDuckCode (omega arith)
      (λ e. omega arith) (kept_all _)

parse_duck_transposition_example :
    parse_duck (map glyph (10 ∷ 11 ∷ 0 ∷ 12 ∷ 0 ∷ 1 ∷ 26 ∷ [])) ≡ err bad_checksum
parse_duck_transposition_example =
    parse_duck_transposition label (10 ∷ 11 ∷ []) 12 0 (0 ∷ 1 ∷ 26 ∷ [])
      (map glyph (10 ∷ 11 ∷ 0 ∷ 12 ∷ 0 ∷ 1 ∷ 26 ∷ [])) label-IsDuckCode (λ e. omega arith)
      (kept_all _)
