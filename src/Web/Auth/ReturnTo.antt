-- ===== src/Web/Auth/ReturnTo.antt =====
-- Where a login may return to, and the query that carries it there.
use duck_voyage.Prelude.{
  ℕ, Bool, true, ◌||◌, ◌+◌, ◌-◌, ◌*◌, ◌/◌, ◌%◌, ◌<◌, ◌≡◌, ◌≢◌, refl, Option, none, some, List, [],
  ◌∷◌, ◌++◌, arith, ◌==◌, ◌&&◌, leb, if◌then◌else◌, All, map_option, and_then, Bool-cases, inl, inr,
  ◌↔◌, ==→eq, ap, sym, ◌∙◌,
}
use mathlib.Core.List.{append_assoc}
use duck_voyage.Prelude.Text.{Text}
use duck_voyage.Web.Auth.{safe_return_to, is_kept, hex_digit, encode_byte, urlencoded}

-- The decoding of a query by its own grammar: between escapes, behind a percent sign, and behind the
-- first digit of an escape.
pub data Pending : Type 0 where
  idle sign : Pending
  first : ℕ → Pending

abbrev hex_value : ℕ → Option ℕ
hex_value c =
    if leb b'0' c && leb c b'9'
    then some (c - b'0')
    else if leb b'A' c && leb c b'F'
    then some (c - 55)
    else if leb b'a' c && leb c b'f'
    then some (c - 87)
    else none

-- An ampersand ends the value of a query, and a hash sign the query.
abbrev ends : ℕ → Bool
ends c = c == b'&' || c == b'#'

-- The value that a text begins with; `plus` is whether a plus sign is read as a space.
pub decoded : Bool → Pending → Text → Option (List ℕ)
decoded plus idle [] = some []
decoded plus sign [] = none
decoded plus (first a) [] = none
decoded plus idle (c ∷ t) =
    let plain = map_option (λ r. c ∷ r) (decoded plus idle t) in
    let space = map_option (λ r. b' ' ∷ r) (decoded plus idle t) in
    let escape = decoded plus sign t in
    if ends c
    then some []
    else if c == b'%'
    then escape
    else if c == b'+' && plus
    then space
    else plain
decoded plus sign (c ∷ t) = and_then (hex_value c) (λ a. decoded plus (first a) t)
decoded plus (first a) (c ∷ t) =
    let rest = decoded plus idle t in
    and_then (hex_value c) (λ b. map_option (λ r. (a * 16 + b) ∷ r) rest)

-- What may stand behind a value: nothing, or a text from a character on that ends it.
abbrev pub Follows : Text → Type 0
Follows [] = Unit
Follows (c ∷ t) = ends c ≡ true

hex_value-hex_digit : (d : ℕ) → d < 16 → hex_value (hex_digit d) ≡ some d
hex_value-hex_digit d h = ground arith

decoded-encode_byte :
    (plus : Bool) (b : ℕ) (t : Text)
    → b < 256
    → decoded plus idle (encode_byte b ++ t) ≡ map_option (λ r. b ∷ r) (decoded plus idle t)
unfolding decoded encode_byte
decoded-encode_byte plus b t h = elim (Bool-cases (is_kept b)) [
  | inl e ↦ rw e (ground arith)
  | inr e ↦
      let whole : b / 16 * 16 + b % 16 ≡ b = omega arith in
      rw (
        e,
        hex_value-hex_digit (b / 16) (omega arith),
        hex_value-hex_digit (b % 16) (omega arith),
        whole,
      )
]

decoded-Follows : (plus : Bool) (rest : Text) → Follows rest → decoded plus idle rest ≡ some []
unfolding decoded
decoded-Follows plus [] h = refl
decoded-Follows plus (c ∷ t) h = rw h refl

-- Any bytes that `urlencoded` puts into a query are read back as they were, by a reader that takes
-- a plus sign for a space and by one that does not, whatever follows behind an ampersand or a hash
-- sign, which end the value.
pub urlencoded_decoded :
    (plus : Bool) (bs : List ℕ) (rest : Text)
    → All (λ b. b < 256) bs
    → Follows rest
    → decoded plus idle (urlencoded bs ++ rest) ≡ some bs
unfolding urlencoded
urlencoded_decoded plus [] rest h f = decoded-Follows plus rest f
urlencoded_decoded plus (b ∷ bs) rest (hb, h) f = rw (
  append_assoc (encode_byte b) (urlencoded bs) rest,
  decoded-encode_byte plus b (urlencoded bs ++ rest) hb,
  urlencoded_decoded plus bs rest h f,
)

-- A path of this site: it starts with a slash that no second slash follows.
abbrev pub IsLocal : Text → Type 0
IsLocal p = (rest : Text) × (p ≡ b'/' ∷ rest) × ((behind : Text) → rest ≢ b'/' ∷ behind)

kept : (p : Text) → safe_return_to (some p) ≡ some p → IsLocal p
unfolding safe_return_to
kept [] h = cc
kept (c ∷ []) h = ([], ground arith, λ behind e. cc)
kept (c ∷ d ∷ t) h = (d ∷ t, ground arith, λ behind e. ground arith)

same_target : (r : Option Text) (p : Text) → safe_return_to r ≡ some p → r ≡ some p
unfolding safe_return_to
same_target none p h = cc
same_target (some q) p h = ground arith

keeps : (p : Text) → IsLocal p → safe_return_to (some p) ≡ some p
unfolding safe_return_to
keeps p ([], e, one) = rw e refl
keeps p (d ∷ t, e, one) = elim (Bool-cases (d == b'/')) [
  | inl e' ↦ absurd (one t (ap (λ k. k ∷ t) (==→eq d b'/' e')))
  | inr e' ↦ rw e (ground arith)
]

-- A target of a login is kept exactly when it starts with one slash that no second slash follows.
pub safe_return_to_iff :
    (r : Option Text) (p : Text) → (safe_return_to r ≡ some p) ↔ ((r ≡ some p) × IsLocal p)
safe_return_to_iff r p = (
  λ h. let same = same_target r p h in (same, kept p (ap safe_return_to (sym same) ∙ h)),
  λ (e, local). ap safe_return_to e ∙ keeps p local,
)
