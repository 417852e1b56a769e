-- ===== src/Domain/BoundedText/Trimming.antt =====
-- What `parse` of crates/domain/src/text.rs accepts, and that it is idempotent.
use duck_voyage.Prelude.{
  ℕ, zero, suc, ◌≤◌, ◌≡◌, refl, ap, ◌∙◌, false, [], ◌∷◌, arith, length, Bool-cases, inl, inr,
}
use duck_voyage.Prelude.Results.{ok}
use duck_voyage.Prelude.Text.{Text, is_whitespace, trim_start, trim_end, trim, keep_unless_blank}
use duck_voyage.Domain.BoundedText.{Bounded, checked, parse_bounded}

-- `trim_start` leaves no blank in front.
abbrev pub StartsInk : Text → Type 0
StartsInk [] = Unit
StartsInk (c ∷ s) = is_whitespace c ≡ false

trim_start-StartsInk : (s : Text) → StartsInk (trim_start s)
trim_start-StartsInk [] = tt
trim_start-StartsInk (c ∷ s) = elim (Bool-cases (is_whitespace c)) [
  | inl e ↦ rw e (trim_start-StartsInk s)
  | inr e ↦ rw e e
]

trim_start-inked : (s : Text) → StartsInk s → trim_start s ≡ s
trim_start-inked [] h = refl
trim_start-inked (c ∷ s) h = rw h

keep_inked : (c : ℕ) (t : Text) → is_whitespace c ≡ false → StartsInk (keep_unless_blank c t)
keep_inked c [] h = rw h h
keep_inked c (d ∷ t) h = h

trim_end-StartsInk : (s : Text) → StartsInk s → StartsInk (trim_end s)
trim_end-StartsInk [] h = tt
trim_end-StartsInk (c ∷ s) h = keep_inked c (trim_end s) h

keep_trimmed :
    (c : ℕ) (t : Text) → trim_end t ≡ t → trim_end (keep_unless_blank c t) ≡ keep_unless_blank c t
keep_trimmed c [] h = elim (Bool-cases (is_whitespace c)) [ inl e ↦ rw e | inr e ↦ rw (e, e) ]
keep_trimmed c (d ∷ t) h = ap (keep_unless_blank c) h

trim_end_idem : (s : Text) → trim_end (trim_end s) ≡ trim_end s
trim_end_idem [] = refl
trim_end_idem (c ∷ s) = keep_trimmed c (trim_end s) (trim_end_idem s)

-- Trimming a second time changes nothing.
pub trim_idem : (s : Text) → trim (trim s) ≡ trim s
trim_idem s =
    ap trim_end
      (trim_start-inked (trim s) (trim_end-StartsInk (trim_start s) (trim_start-StartsInk s)))
    ∙ trim_end_idem (trim_start s)

checked_sound :
    (max_chars : ℕ) (t : Text) (n : ℕ) (b : Bounded max_chars)
    → checked max_chars t n ≡ ok b
    → (b.as_str ≡ t) × (1 ≤ n) × (n ≤ max_chars)
unfolding checked
checked_sound max_chars t zero b h = cc
checked_sound max_chars t (suc n) b h = ground arith

-- A text that is accepted is the input without its surrounding blanks, has from one character up to
-- the maximum, and is accepted again as it is.
pub parse_bounded-as_str :
    (max_chars : ℕ) (raw : Text) (b : Bounded max_chars)
    → parse_bounded max_chars raw ≡ ok b
    → (b.as_str ≡ trim raw)
      × (1 ≤ length b.as_str)
      × (length b.as_str ≤ max_chars)
      × (parse_bounded max_chars b.as_str ≡ ok b)
unfolding parse_bounded
parse_bounded-as_str max_chars raw b h =
    let (same, low, high) = checked_sound max_chars (trim raw) (length (trim raw)) b h in
    (
      same,
      rw same low,
      rw same high,
      ap (λ s. checked max_chars s (length s)) (ap trim same ∙ trim_idem raw) ∙ h,
    )

-- A text that `parse_bounded` gave.
abbrev pub IsParsed : (n : ℕ) → Bounded n → Type 0
IsParsed n b = (raw : Text) × (parse_bounded n raw ≡ ok b)

-- Such a text is read back from the column that stores it.
pub reparsed : (n : ℕ) (b : Bounded n) → IsParsed n b → parse_bounded n b.as_str ≡ ok b
reparsed n b (raw, h) = (parse_bounded-as_str n raw b h).3
