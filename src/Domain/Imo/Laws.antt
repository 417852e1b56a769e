-- ===== src/Domain/Imo/Laws.antt =====
-- What `ImoNumber::parse` of crates/domain/src/imo.rs accepts.
use duck_voyage.Prelude.{
  ℕ, ◌%◌, ◌≤◌, ◌<◌, ◌≡◌, refl, sym, ap, ◌∙◌, false, Option, none, some, List, [], ◌∷◌, arith,
  length, All, ◌==◌, ==→eq, inl, inr, Bool-cases, get_elem?, take, if◌then◌else◌,
}
use duck_voyage.Prelude.Results.{Res, ok, err, panic, ◌>>=◌, ◌>>◌, guard, expect}
use duck_voyage.Prelude.Text.{Text, is_whitespace, trim, trim_start, trim_end, keep_unless_blank}
use duck_voyage.Domain.Imo.{
  ImoError, bad_length, bad_check_digit, ImoNumber, trim_start_matches, to_digit, digits,
  weighted_sum, parse_imo,
}

abbrev pub IsDecimal : ℕ → Type 0
IsDecimal c = (b'0' ≤ c) × (c ≤ b'9')

to_digit-IsDecimal : (c d : ℕ) → to_digit c ≡ some d → IsDecimal c
unfolding to_digit
to_digit-IsDecimal c d h = ground arith

-- The outcome of reading the digits of a text.
abbrev Reads : Text → Res ImoError (List ℕ) → Type 0
Reads s (ok ds) = All IsDecimal s × (length s ≡ length ds)
Reads s (err e) = Unit
Reads s panic = ⊥

Reads-cons :
    (c d : ℕ) (s : Text) (r : Res ImoError (List ℕ))
    → IsDecimal c
    → Reads s r
    → Reads (c ∷ s) (r >>= λ ds. ok (d ∷ ds))
Reads-cons c d s (ok ds) hc (all, size) = ((hc, all), omega arith)
Reads-cons c d s (err e) hc h = tt
Reads-cons c d s panic hc h = h

digits-Reads : (s : Text) → Reads s (digits s)
unfolding digits
digits-Reads [] = (tt, refl)
digits-Reads (c ∷ s) = first (to_digit c) refl (digits-Reads s)
  where
    first : (o : Option ℕ) → to_digit c ≡ o → Reads s (digits s) → Reads (c ∷ s) (digits (c ∷ s))
    first none e ih = rw e tt
    first (some d) e ih = rw e (Reads-cons c d s (digits s) (to_digit-IsDecimal c d e) ih)

decimal_not_blank : (c : ℕ) → IsDecimal c → is_whitespace c ≡ false
decimal_not_blank c h = ground arith

trim_start-decimals : (s : Text) → All IsDecimal s → trim_start s ≡ s
trim_start-decimals [] h = refl
trim_start-decimals (c ∷ s) (hc, h) = rw (decimal_not_blank c hc)

trim_end-decimals : (s : Text) → All IsDecimal s → trim_end s ≡ s
trim_end-decimals [] h = refl
trim_end-decimals (c ∷ []) (hc, h) = rw (decimal_not_blank c hc)
trim_end-decimals (c ∷ d ∷ s) (hc, h) = ap (keep_unless_blank c) (trim_end-decimals (d ∷ s) h)

tag-decimals : (x y z : ℕ) (s : Text) → b'9' < x → All IsDecimal s → trim_start_matches x y z s ≡ s
unfolding trim_start_matches
tag-decimals x y z [] hx h = refl
tag-decimals x y z (a ∷ []) hx h = refl
tag-decimals x y z (a ∷ b ∷ []) hx h = refl
tag-decimals x y z (a ∷ b ∷ c ∷ s) hx (ha, h) =
    let differ : (a == x) ≡ false = ground arith in rw differ

-- The text that `parse` reads its digits from.
abbrev pub core : Text → Text
core raw =
    trim_start (trim_start_matches b'i' b'm' b'o' (trim_start_matches b'I' b'M' b'O' (trim raw)))

core-decimals : (s : Text) → All IsDecimal s → core s ≡ s
core-decimals s h = rw (
  trim_start-decimals s h,
  trim_end-decimals s h,
  tag-decimals b'I' b'M' b'O' s (omega arith) h,
  tag-decimals b'i' b'm' b'o' s (omega arith) h,
  trim_start-decimals s h,
)

finish : Text → List ℕ → Res ImoError ImoNumber
finish s ds = do
  guard (length ds == 7) (bad_length (length ds))
  last ← expect (get_elem? ds 6)
  guard (weighted_sum 7 (take 6 ds) % 10 == last) bad_check_digit
  ok (record { as_str = s })

parse_imo-finish : (raw : Text) → parse_imo raw ≡ (digits (core raw) >>= finish (core raw))
unfolding parse_imo finish
parse_imo-finish raw = refl

seventh : (ds : List ℕ) → length ds ≡ 7 → (last : ℕ) × (get_elem? ds 6 ≡ some last)
seventh (a ∷ b ∷ c ∷ d ∷ e ∷ f ∷ g ∷ []) h = (g, refl)
seventh ds h = absurd (omega arith)

-- What an accepted number is: seven decimal digits, of which the last is the weighted sum of the
-- others modulo 10.
abbrev pub IsImo : ImoNumber → Type 0
IsImo t =
    All IsDecimal t.as_str
    × ((ds : List ℕ) × (digits t.as_str ≡ ok ds)
        × (length ds ≡ 7)
        × (get_elem? ds 6 ≡ some (weighted_sum 7 (take 6 ds) % 10)))

abbrev pub ParsesToImo : Res ImoError ImoNumber → Type 0
ParsesToImo (ok t) = IsImo t × (parse_imo t.as_str ≡ ok t)
ParsesToImo (err e) = Unit
ParsesToImo panic = ⊥

finish-eq :
    (s : Text) (ds : List ℕ) (last : ℕ)
    → length ds ≡ 7
    → get_elem? ds 6 ≡ some last
    → finish s ds ≡ (
        if weighted_sum 7 (take 6 ds) % 10 == last
        then ok (record { as_str = s })
        else err bad_check_digit)
unfolding finish
finish-eq s ds last size e = rw (size, e) (ground arith)

accepted :
    (s : Text) (ds : List ℕ)
    → digits s ≡ ok ds
    → All IsDecimal s
    → length ds ≡ 7
    → ParsesToImo (finish s ds)
accepted s ds read all size =
    let (last, e) = seventh ds size in
    elim (Bool-cases (weighted_sum 7 (take 6 ds) % 10 == last)) [
      | inl h ↦
          rw (finish-eq s ds last size e, h)
            (
              (all, (ds, read, size, e ∙ ap some (sym (==→eq _ _ h)))),
              parse_imo-finish s
                  ∙ rw (core-decimals s all, read) (rw (finish-eq s ds last size e, h)),
            )
      | inr h ↦ rw (finish-eq s ds last size e, h) tt
    ]

finish_short : (s : Text) (ds : List ℕ) → (length ds == 7) ≡ false → ParsesToImo (finish s ds)
unfolding finish
finish_short s ds h = rw h tt

-- Any text parses, with no panic, to seven decimal digits with a valid check digit, which parse to
-- themselves, or to an error.
pub parse_imo_sound : (raw : Text) → ParsesToImo (parse_imo raw)
parse_imo_sound raw =
    rw (parse_imo-finish raw) (outcome (digits (core raw)) refl (digits-Reads (core raw)))
  where
    outcome :
        (r : Res ImoError (List ℕ))
        → digits (core raw) ≡ r
        → Reads (core raw) r
        → ParsesToImo (r >>= finish (core raw))
    outcome (ok ds) e (all, size) = elim (Bool-cases (length ds == 7)) [
      | inl h ↦ accepted (core raw) ds e all (==→eq _ _ h)
      | inr h ↦ finish_short (core raw) ds h
    ]
    outcome (err x) e h = tt
    outcome panic e h = h
