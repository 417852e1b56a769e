-- ===== src/Storage/Ducks/Made.antt =====
-- The entries that the loop of `mint_batch` (crates/storage/src/repos.rs) collects: numbers in range with
-- their codes.
use duck_voyage.Prelude.{
  ◌≡◌, ◌⊎◌, refl, ℕ, zero, suc, Option, none, some, List, All, Bool-cases, inl, inr, leb, ◌&&◌,
}
use duck_voyage.Prelude.Results.{Res, ok, err, panic, ◌>>=◌}
use duck_voyage.Domain.Codes.{FlockSeq, FlockSeqError, out_of_range, new_seq, seq_max, DuckCode}
use duck_voyage.Storage.Rows.{RepoError}
use duck_voyage.Storage.Ducks.{Entry, prepend, still, mint_loop}

new_seq-cases :
    (n : ℕ) → (new_seq n ≡ ok (record { get = n })) ⊎ ((e : FlockSeqError) × (new_seq n ≡ err e))
unfolding new_seq
new_seq-cases n = elim (Bool-cases (leb n 65535 && (leb 1 n && leb n seq_max))) [
  | inl e ↦ inl (rw e refl)
  | inr e ↦ inr (out_of_range n, rw e refl)
]

-- An entry that the loop of `mint_batch` collects.
abbrev pub Made : (FlockSeq → Option DuckCode) → Entry → Type 0
Made encode (seq, code) = (new_seq seq.get ≡ ok seq) × (encode seq ≡ some code)

-- The entries of an outcome.
abbrev pub Collects : (FlockSeq → Option DuckCode) → Res RepoError (List Entry) → Type 0
Collects encode (ok entries) = All (Made encode) entries
Collects encode (err e) = Unit
Collects encode panic = Unit

module _ (encode : FlockSeq → Option DuckCode) where
  prepend-Made :
      (o : Option DuckCode) (seq : FlockSeq) (entries : List Entry)
      → new_seq seq.get ≡ ok seq
      → encode seq ≡ o
      → All (Made encode) entries
      → All (Made encode) (prepend o seq entries)
  prepend-Made none seq entries h e made = made
  prepend-Made (some code) seq entries h e made = ((h, e), made)

  round :
      (seq : FlockSeq) (rest : Res RepoError (List Entry))
      → new_seq seq.get ≡ ok seq
      → Collects encode rest
      → Collects encode (rest >>= λ entries. ok (prepend (encode seq) seq entries))
  round seq (ok entries) h made = prepend-Made (encode seq) seq entries h refl made
  round seq (err e) h made = tt
  round seq panic h made = tt

  pub mint_loop-Collects :
      (fuel missing candidate : ℕ) → Collects encode (mint_loop fuel encode missing candidate)
  unfolding mint_loop
  mint_loop-Collects fuel zero candidate = tt
  mint_loop-Collects zero (suc missing) candidate = tt
  mint_loop-Collects (suc fuel) (suc missing) candidate = elim (new_seq-cases candidate) [
    | inr (e, h) ↦ rw h tt
    | inl h ↦
        let seq : FlockSeq = record { get = candidate } in
        rw h (round seq _ h (mint_loop-Collects fuel (still (encode seq) missing) (suc candidate)))
  ]
