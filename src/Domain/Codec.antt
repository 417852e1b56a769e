-- ===== src/Domain/Codec.antt =====
-- crates/domain/src/codec.rs: duck codes by format-preserving encryption. FF1 over AES-256 (the
-- crates fpe and aes) is a parameter, an interface with the behaviour that the codec relies on.
pub mod Digits
pub mod RoundTrip
use duck_voyage.Prelude.{
  ℕ, zero, suc, ◌+◌, ◌-◌, ◌*◌, ◌/◌, ◌%◌, ◌^◌, ◌≡◌, Bool, true, false, Option, none, some, List, [],
  ◌∷◌, ◌==◌, if◌then◌else◌, and_then, map_option, is_some, length, get_elem?, tabulate, All,
}
use duck_voyage.Prelude.Results.{Res, ok, err, panic, ◌>>=◌, ◌>>◌, guard, ok_or, expect, map_err}
use duck_voyage.Prelude.Text.{Text}
use duck_voyage.Domain.Base36.{radix}
use duck_voyage.Domain.Damm.Detect.{IsDigit}
use duck_voyage.Domain.Codes.{
  KeyGeneration, FlockSeq, FlockSeqError, out_of_range, new_seq, FlockCode, DuckCode, payload_len,
  assemble, flock_code, payload_digits, tweak,
}

-- A numeral string of the payload domain: three base-36 digits.
abbrev pub IsPayload : List ℕ → Type 0
IsPayload ds = All IsDigit ds × (length ds ≡ 3)

-- What the codec uses of the crate fpe: `FF1::<Aes256>::new(key, 36)`, `encrypt` and `decrypt`.
-- `none` is their error. A key of 32 bytes is valid, and under a key and a tweak encryption is a
-- permutation of the numeral strings of a length, with decryption its inverse.
pub record Ff1 : Type 1 where
  pub Cipher : Type 0
  pub new : List ℕ → Option Cipher
  pub encrypt : Cipher → Text → List ℕ → Option (List ℕ)
  pub decrypt : Cipher → Text → List ℕ → Option (List ℕ)
  pub new_total : (key : List ℕ) → length key ≡ 32 → (c : Cipher) × (new key ≡ some c)
  pub encrypt_total :
      (c : Cipher) (t : Text) (x : List ℕ)
      → IsPayload x
      → (y : List ℕ) × (encrypt c t x ≡ some y) × IsPayload y × (decrypt c t y ≡ some x)
  pub decrypt_total :
      (c : Cipher) (t : Text) (y : List ℕ)
      → IsPayload y
      → (x : List ℕ) × (decrypt c t y ≡ some x) × IsPayload x × (encrypt c t x ≡ some y)

-- `CodecError`
pub data CodecError : Type 0 where
  unknown_generation : KeyGeneration → CodecError
  no_generations : CodecError
  current_key_missing : KeyGeneration → CodecError
  seq_out_of_range : ℕ → CodecError

-- A `BTreeMap` by key generation, of which the codec reads single entries only.
module _ {V : Type 0} where
  unfoldable pub get : KeyGeneration → List (KeyGeneration × V) → Option V
  get g [] = none
  get g ((k, v) ∷ m) = if k == g then some v else get g m

  unfoldable pub put : KeyGeneration → V → List (KeyGeneration × V) → List (KeyGeneration × V)
  put g v [] = (g, v) ∷ []
  put g v ((k, w) ∷ m) = if k == g then (g, v) ∷ m else (k, w) ∷ put g v m

  unfoldable pub is_empty : List (KeyGeneration × V) → Bool
  is_empty [] = true
  is_empty (e ∷ m) = false

-- `DuckCodec::to_digits`: big-endian base-36 digits; `as u16` keeps the low 16 bits.
pub to_digits : ℕ → List ℕ
to_digits value = tabulate payload_len (λ i. value / radix ^ (payload_len - 1 - i) % radix % 2 ^ 16)

-- `DuckCodec::from_digits`, in u32 arithmetic that wraps around.
pub from_digits_acc : ℕ → List ℕ → ℕ
from_digits_acc acc [] = acc
from_digits_acc acc (d ∷ ds) = from_digits_acc ((acc * radix + d) % 2 ^ 32) ds

pub from_digits : List ℕ → ℕ
unfolding from_digits_acc
from_digits digits = from_digits_acc 0 digits

-- `std::array::from_fn(|i| payload[i] as u8)`; `none` is the panic on a short vector.
pub to_payload : List ℕ → Option (List ℕ)
to_payload payload = and_then (get_elem? payload 0) (λ a.
    and_then (get_elem? payload 1)
      (λ b. map_option (λ c. (a % 2 ^ 8) ∷ (b % 2 ^ 8) ∷ (c % 2 ^ 8) ∷ []) (get_elem? payload 2)))

module _ (fpe : Ff1) where
  open fpe use {Cipher, new, encrypt, decrypt}

  pub record DuckCodec : Type 0 where
    pub ciphers : List (KeyGeneration × Cipher)
    pub current : KeyGeneration

  -- The keys collected into the map, in order; a later key of a generation replaces the former.
  unfoldable pub collect :
      List (KeyGeneration × Cipher)
      → List (KeyGeneration × List ℕ)
      → Res CodecError (List (KeyGeneration × Cipher))
  unfolding put
  collect m [] = ok m
  collect m ((g, key) ∷ keys) = do cipher ← expect (new key); collect (put g cipher m) keys

  -- `DuckCodec::new`
  unfoldable pub new_codec :
      List (KeyGeneration × List ℕ) → KeyGeneration → Res CodecError DuckCodec
  unfolding collect is_empty get
  new_codec keys current = do
    ciphers ← collect [] keys
    guard (mathlib.Core.Bool.not (is_empty ciphers)) no_generations
    guard (is_some (get current ciphers)) (current_key_missing current)
    ok (record { ciphers = ciphers; current = current })

  -- `DuckCodec::cipher`
  pub cipher : DuckCodec → KeyGeneration → Res CodecError Cipher
  unfolding get
  cipher codec g = ok_or (get g codec.ciphers) (unknown_generation g)

  -- `DuckCodec::encode`
  unfoldable pub encode : DuckCodec → KeyGeneration → FlockCode → FlockSeq → Res CodecError DuckCode
  unfolding cipher to_digits to_payload
  encode codec g flock seq = do
    c ← cipher codec g
    encrypted ← expect (encrypt c (tweak flock) (to_digits seq.get))
    payload ← expect (to_payload encrypted)
    expect (assemble flock payload)

  -- `DuckCodec::decode`
  unfoldable pub decode : DuckCodec → KeyGeneration → DuckCode → Res CodecError FlockSeq
  unfolding cipher from_digits
  decode codec g code = do
    flock ← expect (flock_code code)
    digits ← expect (payload_digits code)
    c ← cipher codec g
    decrypted ← expect (decrypt c (tweak flock) digits)
    let value = from_digits decrypted
    map_err (λ _. seq_out_of_range value) (new_seq value)
