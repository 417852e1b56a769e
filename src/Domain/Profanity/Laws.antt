-- ===== src/Domain/Profanity/Laws.antt =====
-- What the blocklist of crates/domain/src/profanity.rs catches.
use duck_voyage.Prelude.{
  ℕ, ◌+◌, ◌≡◌, ◌⊎◌, ◌↔◌, inl, inr, refl, ap, sym, subst, ◌∙◌, true, ◌&&◌, leb, if◌then◌else◌, List,
  [], ◌∷◌, ◌++◌, map, arith, Bool-cases,
}
use duck_voyage.Prelude.Text.{Text, contains, starts_with}
use duck_voyage.Domain.Base36.{to_ascii_uppercase}
use duck_voyage.Domain.Profanity.{blocked, any_in, matches}

-- The word stands in the text, with any letters before and behind it.
abbrev pub Within : Text → Text → Type 0
Within w t = (before behind : Text) × (t ≡ before ++ (w ++ behind))

-- A word of the list.
abbrev pub Listed : Text → List Text → Type 0
Listed w [] = ⊥
Listed w (x ∷ xs) = (w ≡ x) ⊎ Listed w xs

starts_with-nil : (s : Text) → starts_with s [] ≡ true
starts_with-nil [] = refl
starts_with-nil (c ∷ s) = refl

starts_with-append : (w s : Text) → starts_with (w ++ s) w ≡ true
starts_with-append [] s = starts_with-nil s
starts_with-append (c ∷ w) s = ground (arith, starts_with-append w s)

starts_with_sound : (s w : Text) → starts_with s w ≡ true → (behind : Text) × (s ≡ w ++ behind)
starts_with_sound s [] h = (s, refl)
starts_with_sound [] (p ∷ w) h = cc
starts_with_sound (c ∷ s) (p ∷ w) h =
    let (behind, e) = starts_with_sound s w (ground arith) in (behind, ground arith)

contains_here : (s w : Text) → starts_with s w ≡ true → contains s w ≡ true
contains_here [] w h = h
contains_here (c ∷ s) w h = ground arith

contains-within : (before w behind : Text) → contains (before ++ (w ++ behind)) w ≡ true
contains-within [] w behind = contains_here (w ++ behind) w (starts_with-append w behind)
contains-within (c ∷ before) w behind = ground (arith, contains-within before w behind)

contains_sound :
    (s w : Text) → contains s w ≡ true → (before behind : Text) × (s ≡ before ++ (w ++ behind))
contains_sound [] w h = let (behind, e) = starts_with_sound [] w h in ([], behind, e)
contains_sound (c ∷ s) w h = elim (Bool-cases (starts_with (c ∷ s) w)) [
  | inl e ↦ let (behind, same) = starts_with_sound (c ∷ s) w e in ([], behind, same)
  | inr e ↦
      let (before, behind, same) = contains_sound s w (rw e at h) in
      (c ∷ before, behind, ap (λ r. c ∷ r) same)
]

any_in_sound :
    (t : Text) (ws : List Text) → any_in t ws ≡ true → (w : Text) × Listed w ws × Within w t
unfolding any_in
any_in_sound t [] h = cc
any_in_sound t (w ∷ ws) h = elim (Bool-cases (contains t w)) [
  | inl e ↦ (w, inl refl, contains_sound t w e)
  | inr e ↦ let (v, listed, within) = any_in_sound t ws (rw e at h) in (v, inr listed, within)
]

any_in_complete : (t w : Text) (ws : List Text) → Listed w ws → Within w t → any_in t ws ≡ true
unfolding any_in
any_in_complete t w [] h within = absurd h
any_in_complete t w (x ∷ ws) (inl e) (before, behind, same) =
    let found : contains t x ≡ true =
      subst (λ s. contains s x ≡ true) (sym (same ∙ ap (λ v. before ++ (v ++ behind)) e))
        (contains-within before x behind) in
    rw found
any_in_complete t w (x ∷ ws) (inr h) within = ground (arith, any_in_complete t w ws h within)

-- A text matches exactly when a word of the blocklist stands somewhere in its uppercase form.
pub matches_iff :
    (t : Text)
    → (matches t ≡ true) ↔ ((w : Text) × Listed w blocked × Within w (map to_ascii_uppercase t))
unfolding matches
matches_iff t = (
  any_in_sound (map to_ascii_uppercase t) blocked,
  λ h. any_in_complete (map to_ascii_uppercase t) h.0 blocked h.1 h.2,
)

-- `str::to_ascii_lowercase`
abbrev pub to_ascii_lowercase : ℕ → ℕ
to_ascii_lowercase c = if leb b'A' c && leb c b'Z' then c + 32 else c

upper_lower :
    (t : Text) → map to_ascii_uppercase (map to_ascii_lowercase t) ≡ map to_ascii_uppercase t
unfolding to_ascii_uppercase
upper_lower [] = refl
upper_lower (c ∷ t) = ground (arith, upper_lower t)

-- Lowering the letters of a text does not hide a blocked word in it.
pub matches-lowercase : (t : Text) → matches (map to_ascii_lowercase t) ≡ matches t
unfolding matches
matches-lowercase t = rw upper_lower
