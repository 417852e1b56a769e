-- ===== src/Web/Flock/Minting.antt =====
-- What a request to mint puts on labels (crates/web/src/handlers/flock.rs).
use duck_voyage.Prelude.{
  ℕ, zero, suc, ◌+◌, ◌-◌, ◌≤◌, ◌≡◌, refl, false, Option, none, some, List, [], ◌∷◌, arith,
  Bool-cases, inl, inr, leb, All, take, length, sym, ◌∙◌, ap,
}
use duck_voyage.Prelude.Results.{Res, ok, err, panic, to_option}
use duck_voyage.Domain.Codes.{FlockSeq, DuckCode, flock_code, seq_max}
use duck_voyage.Domain.Codes.Laws.{IsFlockCode}
use duck_voyage.Domain.Codec.{Ff1, DuckCodec, encode, decode, get}
use duck_voyage.Domain.Codec.RoundTrip.{IsSeq, decode-encode}
use duck_voyage.Domain.Profanity.{matches}
use duck_voyage.Domain.Entities.{Flock}
use duck_voyage.Storage.Rows.{RepoError, flock_full}
use duck_voyage.Storage.Ducks.{Entry, prepend, mint_loop}
use duck_voyage.Storage.Ducks.Mint.{available, mint_loop-eq, first_of}
use duck_voyage.Web.Flock.{clean_code, mintable}

module _ (fpe : Ff1) (codec : DuckCodec fpe) (flock : Flock) where
  -- What a label has to be: printed with no word of the blocklist, of the flock's prefix, and read
  -- back by a scan as its own number.
  abbrev pub IsLabel : Entry → Type 0
  IsLabel (seq, code) =
      (matches code.as_str ≡ false)
      × (flock_code code ≡ some flock.code)
      × (decode fpe codec flock.generation code ≡ ok seq)

  pub clean_code-some :
      (o : Option DuckCode) (code : DuckCode)
      → clean_code o ≡ some code
      → (matches code.as_str ≡ false) × (o ≡ some code)
  clean_code-some none code h = cc
  clean_code-some (some c) code h = elim (Bool-cases (matches c.as_str)) [
    | inl e ↦ let bad = rw e at h in cc
    | inr e ↦ let same : c ≡ code = let h' = rw e at h in cc in (rw (sym same) e, ap some same)
  ]

  module _ (c : fpe.Cipher) (known : get flock.generation codec.ciphers ≡ some c) (prefix : List ℕ)
      (valid : IsFlockCode flock.code prefix) where
    mintable-IsLabel :
        (seq : FlockSeq) (code : DuckCode)
        → IsSeq seq
        → mintable fpe codec flock seq ≡ some code
        → IsLabel (seq, code)
    unfolding mintable
    mintable-IsLabel seq code range h =
        let (made, e, head, back) =
          decode-encode fpe codec flock.generation c known flock.code prefix seq valid range in
        let (clean, e') =
          clean_code-some (to_option (encode fpe codec flock.generation flock.code seq)) code h in
        let found : some made ≡ some code = sym (ap to_option e) ∙ e' in
        let same : made ≡ code = cc in
        (
          clean,
          ap flock_code (sym same) ∙ head,
          ap (decode fpe codec flock.generation) (sym same) ∙ back,
        )

    prepend-IsLabel :
        (o : Option DuckCode) (seq : FlockSeq) (entries : List Entry)
        → ((code : DuckCode) → o ≡ some code → IsLabel (seq, code))
        → All IsLabel entries
        → All IsLabel (prepend o seq entries)
    prepend-IsLabel none seq entries h all = all
    prepend-IsLabel (some code) seq entries h all = (h code refl, all)

    available-IsLabel :
        (n candidate : ℕ)
        → 1 ≤ candidate
        → candidate + n ≡ suc seq_max
        → All IsLabel (available (mintable fpe codec flock) n candidate)
    unfolding available
    available-IsLabel zero candidate lo total = tt
    available-IsLabel (suc n) candidate lo total =
        let seq : FlockSeq = record { get = candidate } in
        prepend-IsLabel (mintable fpe codec flock seq) seq
          (available (mintable fpe codec flock) n (suc candidate))
          (λ code. mintable-IsLabel seq code (record { low = lo; high = omega arith }))
          (available-IsLabel n (suc candidate) (omega arith) (omega arith))

    take-All : (n : ℕ) (entries : List Entry) → All IsLabel entries → All IsLabel (take n entries)
    take-All zero entries h = tt
    take-All (suc n) [] h = tt
    take-All (suc n) (e ∷ entries) (he, h) = (he, take-All n entries h)

    length-take : (n : ℕ) (entries : List Entry) → n ≤ length entries → length (take n entries) ≡ n
    length-take zero entries h = refl
    length-take (suc n) [] h = absurd (omega arith)
    length-take (suc n) (e ∷ entries) h = omega (arith, length-take n entries (omega arith))

    -- The outcomes of minting `amount` labels from `candidate` on.
    abbrev pub Mints : ℕ → Res RepoError (List Entry) → Type 0
    Mints amount (ok entries) = (length entries ≡ amount) × All IsLabel entries
    Mints amount (err e) = e ≡ flock_full
    Mints amount panic = ⊥

    -- Under a known generation, and from a candidate in 1..=10001 on, minting with the closure of
    -- the handler `mint` gives as many labels as were asked for, each clean of blocked words, of
    -- the flock's prefix, and decoded to its own number; or the flock is full.
    pub mint_loop-IsLabel :
        (amount candidate : ℕ)
        → 1 ≤ candidate
        → candidate ≤ suc seq_max
        → Mints amount (mint_loop (suc seq_max) (mintable fpe codec flock) amount candidate)
    mint_loop-IsLabel amount candidate lo hi =
        let n = suc seq_max - candidate in
        let all = available-IsLabel n candidate lo (omega arith) in
        rw
          (mint_loop-eq (mintable fpe codec flock) (suc seq_max) n amount candidate lo (omega arith)
            (omega arith))
          (outcome (available (mintable fpe codec flock) n candidate) all)
      where
        outcome :
            (entries : List Entry)
            → All IsLabel entries
            → Mints amount (first_of (mintable fpe codec flock) amount entries)
        outcome entries all = elim (Bool-cases (leb amount (length entries))) [
          | inl e ↦ rw e (length-take amount entries (ground arith), take-All amount entries all)
          | inr e ↦ rw e refl
        ]
