-- ===== src/Domain/Codes/Assembly.antt =====
-- What `assemble` of crates/domain/src/codes.rs builds, and what the accessors of a code read.
use duck_voyage.Prelude.{
  ℕ, ◌≡◌, refl, sym, ap, ◌∙◌, some, List, [], ◌∷◌, ◌++◌, map, arith, length, All, All-append,
  All-append_left, All-append_right, length-append, subst,
}
use duck_voyage.Domain.Damm.Detect.{IsDigit, validate-check_digit, check_digit_unique}
use duck_voyage.Domain.Codes.{FlockCode, DuckCode, assemble, flock_code, payload_digits}
use duck_voyage.Domain.Codes.Glyphs.{glyph, chars_of-glyphs, fill-glyphs}
use duck_voyage.Domain.Codes.Laws.{IsFlockCode, IsDuckCode, parse_flock-as_str, flock_digits-eq}

-- The parts of a text of seven glyphs, read by the accessors of a duck code.
glyph_parts :
    (a b c d e g check : ℕ)
    → All IsDigit (a ∷ b ∷ c ∷ [])
    → All IsDigit (d ∷ e ∷ g ∷ [])
    → let code : DuckCode = record { as_str = map glyph (a ∷ b ∷ c ∷ d ∷ e ∷ g ∷ check ∷ []) } in
      (flock_code code ≡ some (record { as_str = map glyph (a ∷ b ∷ c ∷ []) }))
      × (payload_digits code ≡ some (d ∷ e ∷ g ∷ []))
unfolding flock_code payload_digits
glyph_parts a b c d e g check hp hq =
    let prefix : FlockCode = record { as_str = map glyph (a ∷ b ∷ c ∷ []) } in
    let spelt : IsFlockCode prefix (a ∷ b ∷ c ∷ []) = record {
      digits = hp;
      size = refl;
      shown = refl;
    } in
    (rw (parse_flock-as_str prefix (a ∷ b ∷ c ∷ []) spelt), fill-glyphs (d ∷ e ∷ g ∷ []) hq)

-- The digits of a valid duck code, and what its accessors read: none of them panics.
pub duck_code_parts :
    (code : DuckCode) (prefix payload : List ℕ) (check : ℕ)
    → IsDuckCode code (prefix ++ payload ++ check ∷ [])
    → length prefix ≡ 3
    → length payload ≡ 3
    → (flock_code code ≡ some (record { as_str = map glyph prefix }))
      × (payload_digits code ≡ some payload)
duck_code_parts code (a ∷ b ∷ c ∷ []) (d ∷ e ∷ g ∷ []) check valid hp hq =
    let parts : All IsDigit ((a ∷ b ∷ c ∷ []) ++ d ∷ e ∷ g ∷ check ∷ []) = valid.digits in
    let tail : All IsDigit ((d ∷ e ∷ g ∷ []) ++ check ∷ []) =
      All-append_right IsDigit (a ∷ b ∷ c ∷ []) (d ∷ e ∷ g ∷ check ∷ []) parts in
    let same : code ≡ record { as_str = map glyph (a ∷ b ∷ c ∷ d ∷ e ∷ g ∷ check ∷ []) } =
      λ i. record { as_str = valid.shown i } in
    rw same (
      glyph_parts a b c d e g check
        (All-append_left IsDigit (a ∷ b ∷ c ∷ []) (d ∷ e ∷ g ∷ check ∷ []) parts)
        (All-append_left IsDigit (d ∷ e ∷ g ∷ []) (check ∷ []) tail))
duck_code_parts code prefix payload check valid hp hq = absurd (omega arith)

-- A code assembled from a prefix and three payload digits exists (no panic) and spells the prefix,
-- the payload and their check digit.
pub assemble_total :
    (f : FlockCode) (prefix payload : List ℕ)
    → IsFlockCode f prefix
    → All IsDigit payload
    → length payload ≡ 3
    → (code : DuckCode) × (check : ℕ) × (assemble f payload ≡ some code)
      × IsDuckCode code (prefix ++ payload ++ check ∷ [])
unfolding assemble
assemble_total f prefix payload flock hq len =
    let body = prefix ++ payload in
    let hbody = All-append IsDigit prefix payload flock.digits hq in
    let (check, found, small, closes) = validate-check_digit body hbody in
    let all = All-append IsDigit body (check ∷ []) hbody (small, tt) in
    (
      record { as_str = map glyph (body ++ check ∷ []) },
      check,
      rw (flock_digits-eq f prefix flock, found, chars_of-glyphs (body ++ check ∷ []) all),
      record {
        digits = all;
        size =
            omega
              (arith, length-append body (check ∷ []), length-append prefix payload, flock.size);
        shown = refl;
        checked = closes;
      },
    )

-- Assembling a valid prefix and three payload digits gives a code, with no panic, and the
-- accessors of the code give back that prefix and payload.
pub assemble_parts :
    (f : FlockCode) (prefix payload : List ℕ)
    → IsFlockCode f prefix
    → All IsDigit payload
    → length payload ≡ 3
    → (code : DuckCode) × (assemble f payload ≡ some code)
      × (flock_code code ≡ some f)
      × (payload_digits code ≡ some payload)
assemble_parts f prefix payload flock hq len =
    let (code, check, built, valid) = assemble_total f prefix payload flock hq len in
    let (head, body) = duck_code_parts code prefix payload check valid flock.size len in
    (code, built, head ∙ ap some (λ i. record { as_str = sym flock.shown i }), body)

-- The seven digits of a valid code as prefix, payload and check digit.
pub split_code :
    (ds : List ℕ)
    → length ds ≡ 7
    → (prefix payload : List ℕ) × (check : ℕ) × (ds ≡ prefix ++ payload ++ check ∷ [])
      × (length prefix ≡ 3)
      × (length payload ≡ 3)
split_code (a ∷ b ∷ c ∷ d ∷ e ∷ g ∷ k ∷ []) h =
    (a ∷ b ∷ c ∷ [], d ∷ e ∷ g ∷ [], k, refl, refl, refl)
split_code ds h = absurd (omega arith)

-- A valid code is the only one of its prefix and payload: assembling those gives it back.
pub assemble_valid :
    (code : DuckCode) (prefix payload : List ℕ) (check : ℕ)
    → IsDuckCode code (prefix ++ payload ++ check ∷ [])
    → length prefix ≡ 3
    → length payload ≡ 3
    → assemble (record { as_str = map glyph prefix }) payload ≡ some code
unfolding assemble
assemble_valid code prefix payload check valid hp hq =
    let body = prefix ++ payload in
    let hbody = All-append_left IsDigit body (check ∷ []) valid.digits in
    let hcheck = All-append_right IsDigit body (check ∷ []) valid.digits in
    rw
      (
        flock_digits-eq (record { as_str = map glyph prefix }) prefix
            (record {
              digits = All-append_left IsDigit prefix payload hbody;
              size = hp;
              shown = refl;
            }),
        check_digit_unique body check hbody hcheck.0 valid.checked,
        chars_of-glyphs (body ++ check ∷ []) valid.digits,
      )
      (λ i. some (record { as_str = sym valid.shown i }))

-- The accessors on any valid code, with the prefix and payload that they find.
pub read_code :
    (code : DuckCode) (ds : List ℕ)
    → IsDuckCode code ds
    → (flock : FlockCode) × (payload : List ℕ) × (flock_code code ≡ some flock)
      × (payload_digits code ≡ some payload)
      × All IsDigit payload
      × (length payload ≡ 3)
      × (assemble flock payload ≡ some code)
read_code code ds valid =
    let (p, q, k, e, hp, hq) = split_code ds valid.size in
    let parts = subst (IsDuckCode code) e valid in
    let (head, body) = duck_code_parts code p q k parts hp hq in
    (
      record { as_str = map glyph p },
      q,
      head,
      body,
      All-append_right IsDigit p q (All-append_left IsDigit (p ++ q) (k ∷ []) parts.digits),
      hq,
      assemble_valid code p q k parts hp hq,
    )
