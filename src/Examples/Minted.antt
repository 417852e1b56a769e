-- ===== src/Examples/Minted.antt =====
-- The theorems on minting, at the flock ABC.
use duck_voyage.Prelude.{◌≡◌, refl, Option, none, some, [], ◌∷◌, arith, ◌==◌, if◌then◌else◌}
use duck_voyage.Prelude.Results.{ok}
use duck_voyage.Domain.Codes.{FlockSeq, FlockCode, DuckCode, flock_code, assemble}
use duck_voyage.Domain.Base36.{digit_of, char_of}
use duck_voyage.Domain.Damm.{check_digit}
use duck_voyage.Domain.Codec.{get, encode, decode}
use duck_voyage.Domain.Codec.RoundTrip.{IsSeq, Decodes, decode-encode, decode-valid}
use duck_voyage.Storage.Ducks.{mint_loop}
use duck_voyage.Storage.Ducks.Mint.{available, first_of, mint_loop-eq}
use duck_voyage.Web.Flock.{mintable}
use duck_voyage.Web.Flock.Minting.{Mints, mint_loop-IsLabel}
use duck_voyage.Web.Flock.Registry.{Keyed}
use duck_voyage.Examples.Data.{plain, codec, abc, first_seq, flock, label, label_digits}
use duck_voyage.Examples.Codes.{abc-IsFlockCode, label-IsDuckCode}

known : get 1 codec.ciphers ≡ some tt
unfolding get
known = refl

pub first_seq-IsSeq : IsSeq first_seq
first_seq-IsSeq = record { low = omega arith; high = omega arith }

decode-encode_example :
    (code : DuckCode) × (encode plain codec 1 abc first_seq ≡ ok code)
    × (flock_code code ≡ some abc)
    × (decode plain codec 1 code ≡ ok first_seq)
decode-encode_example =
    decode-encode plain codec 1 tt known abc (10 ∷ 11 ∷ 12 ∷ []) first_seq abc-IsFlockCode
      first_seq-IsSeq

pub encoded : encode plain codec 1 abc first_seq ≡ ok label
unfolding encode assemble digit_of check_digit char_of
encoded = refl

decode-valid_example :
    (f : FlockCode) × (flock_code label ≡ some f)
    × Decodes plain codec 1 tt known label f (decode plain codec 1 label)
decode-valid_example = decode-valid plain codec 1 tt known label label_digits label-IsDuckCode

-- Only the last number of a flock has a code.
abbrev last_only : FlockSeq → Option DuckCode
last_only s = if s.get == 10000 then some label else none

mint_loop-eq_example :
    mint_loop 3 last_only 1 9999 ≡ first_of last_only 1 (available last_only 2 9999)
mint_loop-eq_example = mint_loop-eq last_only 3 2 1 9999 (omega arith) refl (omega arith)

mint_loop-IsLabel_example :
    Mints plain codec flock tt known
      (10 ∷ 11 ∷ 12 ∷ [])
      abc-IsFlockCode
      5
      (mint_loop 10001 (mintable plain codec flock) 5 1)
mint_loop-IsLabel_example =
    mint_loop-IsLabel plain codec flock tt known (10 ∷ 11 ∷ 12 ∷ []) abc-IsFlockCode 5 1
      (omega arith) (omega arith)

pub flock-Keyed : Keyed plain codec flock
flock-Keyed = record {
  prefix = 10 ∷ 11 ∷ 12 ∷ [];
  valid = abc-IsFlockCode;
  cipher = tt;
  known = known;
}
