-- ===== src/Domain/Codec/RoundTrip.antt =====
-- Minting and scanning are inverse (crates/domain/src/codec.rs).
use duck_voyage.Prelude.{
  subst, sym, ◌++◌, [], ◌∷◌, ℕ, ◌<◌, ◌≤◌, ◌≡◌, refl, ap, ◌∙◌, none, some, List, arith, ◌⊎◌,
}
use duck_voyage.Prelude.Results.{ok_injective, Res, ok, err, panic, map_err}
use duck_voyage.Domain.Codes.{
  KeyGeneration, FlockSeq, FlockSeqError, new_seq, seq_max, FlockCode, DuckCode, flock_code, tweak,
}
use duck_voyage.Domain.Codes.Laws.{IsFlockCode, IsDuckCode}
use duck_voyage.Domain.Codes.Assembly.{assemble_total, assemble_parts, read_code}
use duck_voyage.Domain.Codec.{
  Ff1, CodecError, unknown_generation, seq_out_of_range, get, to_digits, from_digits, DuckCodec,
  encode, decode,
}
use duck_voyage.Domain.Codec.Digits.{
  to_digits-IsPayload, from_digits-to_digits, to_digits-from_digits, to_payload-eq,
}

-- `FlockSeq::new` accepts exactly 1..=10000.
pub new_seq_accepts : (n : ℕ) → 1 ≤ n → n ≤ seq_max → new_seq n ≡ ok (record { get = n })
unfolding new_seq
new_seq_accepts n lo hi = ground arith

pub new_seq_range :
    (n : ℕ) (s : FlockSeq) → new_seq n ≡ ok s → (s.get ≡ n) × (1 ≤ n) × (n ≤ seq_max)
unfolding new_seq
new_seq_range n s h = ground arith

new_seq_refuses : (n : ℕ) (x : FlockSeqError) → new_seq n ≡ err x → (n ≡ 0) ⊎ (seq_max < n)
unfolding new_seq
new_seq_refuses n x h = ground arith

new_seq_no_panic : (n : ℕ) → new_seq n ≡ panic → ⊥
unfolding new_seq
new_seq_no_panic n h = ground arith

-- A sequence number that `FlockSeq::new` gave.
pub record IsSeq (s : FlockSeq) : Type 0 where
  pub low : 1 ≤ s.get
  pub high : s.get ≤ seq_max

module _ (fpe : Ff1) (codec : DuckCodec fpe) (g : KeyGeneration) where
  open fpe use {Cipher, encrypt_total, decrypt_total}

  module _ (c : Cipher) (known : get g codec.ciphers ≡ some c) where
    -- Under a generation whose key is known, every sequence number of every flock has a code,
    -- which carries the flock's prefix and decodes to that number.
    pub decode-encode :
        (f : FlockCode) (prefix : List ℕ) (s : FlockSeq)
        → IsFlockCode f prefix
        → IsSeq s
        → (code : DuckCode) × (encode fpe codec g f s ≡ ok code)
          × (flock_code code ≡ some f)
          × (decode fpe codec g code ≡ ok s)
    unfolding encode decode
    decode-encode f prefix s flock range =
        let (y, encrypted, payload, back) =
          encrypt_total c (tweak f) (to_digits s.get) (to_digits-IsPayload s.get) in
        let (code, built, head, body) = assemble_parts f prefix y flock payload.0 payload.1 in
        (
          code,
          rw (known, encrypted, to_payload-eq y payload, built),
          head,
          rw (
            head,
            body,
            known,
            back,
            from_digits-to_digits s.get (omega (arith, range.high)),
            new_seq_accepts s.get range.low range.high,
          ),
        )

    -- A code that was minted is a valid one.
    pub encode-IsDuckCode :
        (f : FlockCode) (prefix : List ℕ) (s : FlockSeq) (code : DuckCode)
        → IsFlockCode f prefix
        → encode fpe codec g f s ≡ ok code
        → (ds : List ℕ) × IsDuckCode code ds
    unfolding encode
    encode-IsDuckCode f prefix s code flock minted =
        let (y, encrypted, payload, back) =
          encrypt_total c (tweak f) (to_digits s.get) (to_digits-IsPayload s.get) in
        let (built, check, found, valid) = assemble_total f prefix y flock payload.0 payload.1 in
        let made : encode fpe codec g f s ≡ ok built =
          rw (known, encrypted, to_payload-eq y payload, found) in
        (
          prefix ++ y ++ check ∷ [],
          subst (λ k. IsDuckCode k (prefix ++ y ++ check ∷ [])) (ok_injective (sym made ∙ minted))
              valid,
        )

    -- Two equal codes of one known generation were minted for one flock and one number.
    pub encode_injective :
        (f f' : FlockCode) (prefix prefix' : List ℕ) (s s' : FlockSeq) (code : DuckCode)
        → IsFlockCode f prefix
        → IsFlockCode f' prefix'
        → IsSeq s
        → IsSeq s'
        → encode fpe codec g f s ≡ ok code
        → encode fpe codec g f' s' ≡ ok code
        → (f ≡ f') × (s ≡ s')
    encode_injective f f' prefix prefix' s s' code flock flock' range range' e e' =
        let (a, made, head, back) = decode-encode f prefix s flock range in
        let (b, made', head', back') = decode-encode f' prefix' s' flock' range' in
        let same : a ≡ code = cc in let same' : b ≡ code = cc in (cc, cc)

    -- What decoding a valid code can give: a number in range whose code it is, or the error that
    -- reports the number that it decrypts to.
    abbrev pub Decodes : DuckCode → FlockCode → Res CodecError FlockSeq → Type 0
    Decodes code f (ok s) = IsSeq s × (encode fpe codec g f s ≡ ok code)
    Decodes code f (err (seq_out_of_range n)) = (n ≡ 0) ⊎ (seq_max < n)
    Decodes code f _ = ⊥

    finish_decode :
        (code : DuckCode) (f : FlockCode) (n : ℕ)
        → ((s : FlockSeq) → s.get ≡ n → encode fpe codec g f s ≡ ok code)
        → (r : Res FlockSeqError FlockSeq) → new_seq n ≡ r
        → Decodes code f (map_err (λ _. seq_out_of_range n) r)
    finish_decode code f n made (ok s) e =
        let (same, low, high) = new_seq_range n s e in
        (record { low = omega arith; high = omega arith }, made s same)
    finish_decode code f n made (err x) e = new_seq_refuses n x e
    finish_decode code f n made panic e = new_seq_no_panic n e

    -- Decoding any valid code under a known generation does not panic: it gives a number in range
    -- whose code, minted under the code's own prefix, is the one scanned, or it reports a number
    -- out of range.
    pub decode-valid :
        (code : DuckCode) (ds : List ℕ)
        → IsDuckCode code ds
        → (f : FlockCode) × (flock_code code ≡ some f) × Decodes code f (decode fpe codec g code)
    unfolding decode
    decode-valid code ds valid =
        let (f, q, head, body, digits, size, built) = read_code code ds valid in
        let (x, decrypted, payload, again) = decrypt_total c (tweak f) q (digits, size) in
        let (same, small) = to_digits-from_digits x payload in
        (
          f,
          head,
          rw (head, body, known, decrypted)
              (finish_decode code f (from_digits x)
                (λ s e.
                  unfold encode in
                  rw (known, ap to_digits e ∙ same, again, to_payload-eq q (digits, size), built))
                (new_seq (from_digits x)) refl),
        )

-- A generation with no key is reported as such, by minting and by decoding a valid code.
pub unknown_generation_reported :
    (fpe : Ff1) (codec : DuckCodec fpe) (g : KeyGeneration) (f : FlockCode) (s : FlockSeq)
    (code : DuckCode) (ds : List ℕ)
    → get g codec.ciphers ≡ none
    → IsDuckCode code ds
    → (encode fpe codec g f s ≡ err (unknown_generation g))
      × (decode fpe codec g code ≡ err (unknown_generation g))
unfolding encode decode
unknown_generation_reported fpe codec g f s code ds missing valid =
    let (f', q, head, body, digits, size, built) = read_code code ds valid in
    (rw missing, rw (head, body, missing))
