-- ===== src/Storage/Ducks/Mint.antt =====
-- The loop of `DuckRepo::mint_batch` against a description without a loop: the numbers of a flock
-- that have a code, in order.
use duck_voyage.Prelude.{
  ℕ, zero, suc, ◌+◌, ◌<◌, ◌≤◌, ◌≡◌, arith, Option, none, some, List, [], leb, if◌then◌else◌, length,
  take,
}
use duck_voyage.Prelude.Results.{Res, ok, err, ◌>>=◌, map_err}
use duck_voyage.Domain.Codes.{FlockSeq, DuckCode, new_seq, seq_max}
use duck_voyage.Domain.Codec.RoundTrip.{new_seq_accepts}
use duck_voyage.Storage.Rows.{RepoError, flock_full}
use duck_voyage.Storage.Ducks.{Entry, prepend, still, mint_loop}

module _ (encode : FlockSeq → Option DuckCode) where
  -- Every number of `n` from `candidate` on that has a code, with the code.
  unfoldable pub available : ℕ → ℕ → List Entry
  available zero candidate = []
  available (suc n) candidate =
      let seq : FlockSeq = record { get = candidate } in
      prepend (encode seq) seq (available n (suc candidate))

  -- The first `missing` of them, if there are so many.
  abbrev pub first_of : ℕ → List Entry → Res RepoError (List Entry)
  first_of missing entries =
      if leb missing (length entries) then ok (take missing entries) else err flock_full

  first_of-prepend :
      (o : Option DuckCode) (seq : FlockSeq) (missing : ℕ) (entries : List Entry)
      → (first_of (still o missing) entries >>= λ rest. ok (prepend o seq rest))
        ≡ first_of (suc missing) (prepend o seq entries)
  first_of-prepend none seq missing entries = ground arith
  first_of-prepend (some code) seq missing entries = ground arith

  new_seq_full : (n : ℕ) → seq_max < n → map_err (λ _. flock_full) (new_seq n) ≡ err flock_full
  unfolding new_seq
  new_seq_full n h = ground arith

  -- From a candidate of at least 1 on, and with more rounds than candidates left, the loop of
  -- `mint_batch` gives the first `missing` numbers that have a code, in order, or the error of a
  -- full flock when there are fewer.
  pub mint_loop-eq :
      (fuel n missing candidate : ℕ)
      → 1 ≤ candidate
      → candidate + n ≡ suc seq_max
      → n < fuel
      → mint_loop fuel encode missing candidate ≡ first_of missing (available n candidate)
  unfolding mint_loop available
  mint_loop-eq fuel n zero candidate lo total enough = ground arith
  mint_loop-eq zero n (suc missing) candidate lo total enough = absurd (omega arith)
  mint_loop-eq (suc fuel) zero (suc missing) candidate lo total enough =
      rw (new_seq_full candidate (omega arith)) (ground arith)
  mint_loop-eq (suc fuel) (suc n) (suc missing) candidate lo total enough =
      let seq : FlockSeq = record { get = candidate } in
      let later =
        mint_loop-eq fuel n (still (encode seq) missing) (suc candidate) (omega arith) (omega arith)
          (omega arith) in
      rw (new_seq_accepts candidate lo (omega arith), later)
        (first_of-prepend (encode seq) seq missing (available n (suc candidate)))
