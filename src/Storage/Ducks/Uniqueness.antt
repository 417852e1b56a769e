-- ===== src/Storage/Ducks/Uniqueness.antt =====
-- Minting never violates a constraint of the table `duck` (`DuckRepo::mint_batch`).
use duck_voyage.Prelude.{
  ℕ, zero, suc, ◌+◌, ◌-◌, ◌<◌, ◌≤◌, ◌≡◌, refl, arith, true, false, Option, none, some, List, [],
  ◌∷◌, ◌++◌, ◌==◌, ◌&&◌, All, take, Bool-cases, inl, inr, leb, length,
}
use duck_voyage.Prelude.Results.{Res, ok, err, panic}
use duck_voyage.Prelude.Text.{text_eq}
use duck_voyage.Prelude.Tables.{exists, max_of}
use duck_voyage.Prelude.Tables.Laws
use duck_voyage.Domain.Codes.{FlockSeq, DuckCode, seq_max}
use duck_voyage.Domain.Codec.RoundTrip.{IsSeq}
use duck_voyage.Domain.Entities.{Key}
use duck_voyage.Storage.Rows.{RepoError, flock_full, DuckRow}
use duck_voyage.Storage.Db.{Db}
use duck_voyage.Storage.Ducks.{Entry, prepend, conflicts, new_row, insert_ducks, mint_loop}
use duck_voyage.Storage.Ducks.Mint.{available, first_of, mint_loop-eq}

module _ (flock : Key) where
  -- Two entries of a flock that an INSERT of both violates no constraint by.
  abbrev Apart : Entry → Entry → Type 0
  Apart e e' = (text_eq e.1.as_str e'.1.as_str ≡ false) × ((e.0.get == e'.0.get) ≡ false)

  -- The entries can be inserted in turn behind the rows.
  abbrev Fits : List Entry → List DuckRow → Type 0
  Fits [] rows = Unit
  Fits (e ∷ es) rows = (exists (conflicts flock e) rows ≡ false) × All (Apart e) es × Fits es rows

  conflicts-new_row :
      (e e' : Entry) (db : Db) → Apart e e' → conflicts flock e' (new_row flock e db) ≡ false
  conflicts-new_row e e' db (codes, seqs) = rw (codes, seqs) (ground arith)

  Fits-later :
      (e : Entry) (es : List Entry) (rows : List DuckRow) (db : Db)
      → All (Apart e) es
      → Fits es rows
      → Fits es (rows ++ new_row flock e db ∷ [])
  Fits-later e [] rows db all fits = tt
  Fits-later e (e' ∷ es) rows db (apart, all) (free, others, fits) = (
    Laws.exists-append_none (conflicts flock e') rows (new_row flock e db) free
        (conflicts-new_row e e' db apart),
    others,
    Fits-later e es rows db all fits,
  )

  insert_ducks-some :
      (es : List Entry) (db : Db)
      → exists (λ f. f.id == flock) db.flocks ≡ true
      → Fits es db.ducks
      → (rows : List DuckRow) × (after : Db) × (insert_ducks flock es db ≡ some (rows, after))
  unfolding insert_ducks
  insert_ducks-some [] db known fits = ([], db, refl)
  insert_ducks-some (e ∷ es) db known (free, apart, fits) =
      let row = new_row flock e db in
      let (rows, after, done) =
        insert_ducks-some es (record db { ducks = db.ducks ++ row ∷ []; next_id = suc db.next_id })
          known (Fits-later e es db.ducks db apart fits) in
      (row ∷ rows, after, rw (free, known, done))

  -- The highest number of the flock among the rows.
  abbrev pub highest : List DuckRow → ℕ
  highest rows = max_of (λ r. r.flock_id == flock) (λ r. r.flock_seq) rows

  -- The outcomes of a mint up to the commit: the entries inserted, or a flock that is full.
  abbrev pub Inserts : Db → Res RepoError (List Entry) → Type 0
  Inserts db (ok entries) =
      (rows : List DuckRow) × (after : Db) × (insert_ducks flock entries db ≡ some (rows, after))
  Inserts db (err e) = e ≡ flock_full
  Inserts db panic = ⊥

  module _ (encode : FlockSeq → Option DuckCode) where
    -- Numbers that have one code are one.
    abbrev pub Distinct : Type 0
    Distinct =
        (s s' : FlockSeq) (c c' : DuckCode)
        → IsSeq s
        → IsSeq s'
        → encode s ≡ some c
        → encode s' ≡ some c'
        → text_eq c.as_str c'.as_str ≡ true
        → s.get ≡ s'.get

    -- A stored duck with a code of the flock is the flock's duck of the number of the code.
    abbrev pub Registered : DuckRow → Type 0
    Registered r =
        (s : FlockSeq) (c : DuckCode)
        → IsSeq s
        → encode s ≡ some c
        → text_eq r.code c.as_str ≡ true
        → (r.flock_id ≡ flock) × (r.flock_seq ≡ s.get)

    -- An entry of the flock from a candidate on.
    abbrev From : ℕ → Entry → Type 0
    From candidate (seq, code) = (candidate ≤ seq.get) × IsSeq seq × (encode seq ≡ some code)

    abbrev Ascending : ℕ → List Entry → Type 0
    Ascending candidate [] = Unit
    Ascending candidate ((seq, code) ∷ es) = From candidate (seq, code) × Ascending (suc seq.get) es

    Ascending-lower : (a b : ℕ) (es : List Entry) → a ≤ b → Ascending b es → Ascending a es
    Ascending-lower a b [] h asc = tt
    Ascending-lower a b (e ∷ es) h ((low, range, made), asc) = ((omega arith, range, made), asc)

    prepend-Ascending :
        (o : Option DuckCode) (seq : FlockSeq) (es : List Entry)
        → IsSeq seq
        → encode seq ≡ o
        → Ascending (suc seq.get) es
        → Ascending seq.get (prepend o seq es)
    prepend-Ascending none seq es range e asc =
        Ascending-lower seq.get (suc seq.get) es (omega arith) asc
    prepend-Ascending (some c) seq es range e asc = ((omega arith, range, e), asc)

    available-Ascending :
        (n candidate : ℕ)
        → 1 ≤ candidate
        → candidate + n ≡ suc seq_max
        → Ascending candidate (available encode n candidate)
    unfolding available
    available-Ascending zero candidate low total = tt
    available-Ascending (suc n) candidate low total =
        let seq : FlockSeq = record { get = candidate } in
        prepend-Ascending (encode seq) seq (available encode n (suc candidate))
          (record { low = low; high = omega arith }) refl
          (available-Ascending n (suc candidate) (omega arith) (omega arith))

    take-Ascending :
        (k candidate : ℕ) (es : List Entry)
        → Ascending candidate es
        → Ascending candidate (take k es)
    take-Ascending zero candidate es asc = tt
    take-Ascending (suc k) candidate [] asc = tt
    take-Ascending (suc k) candidate ((seq, code) ∷ es) (here, asc) =
        (here, take-Ascending k (suc seq.get) es asc)

    module _ (distinct : Distinct) where
      Apart-later :
          (seq : FlockSeq) (code : DuckCode) (candidate : ℕ) (es : List Entry)
          → IsSeq seq
          → encode seq ≡ some code
          → seq.get < candidate
          → Ascending candidate es
          → All (Apart (seq, code)) es
      Apart-later seq code candidate [] range made low asc = tt
      Apart-later seq code candidate ((s, c) ∷ es) range made low ((from, range', made'), asc) =
          ((codes, numbers), Apart-later seq code (suc s.get) es range made (omega arith) asc)
        where
          numbers : (seq.get == s.get) ≡ false
          numbers = ground arith

          codes : text_eq code.as_str c.as_str ≡ false
          codes = elim (Bool-cases (text_eq code.as_str c.as_str)) [
            | inl e ↦
                absurd (let same = distinct seq s code c range range' made made' e in omega arith)
            | inr e ↦ e
          ]

      below_highest :
          (r : DuckRow) (rows : List DuckRow) (n : ℕ)
          → highest (r ∷ rows) < n
          → ((r.flock_id == flock && r.flock_seq == n) ≡ false) × (highest rows < n)
      below_highest r rows n h = (ground arith, ground arith)

      free_above :
          (seq : FlockSeq) (code : DuckCode) (rows : List DuckRow)
          → IsSeq seq
          → encode seq ≡ some code
          → All Registered rows
          → highest rows < seq.get
          → exists (conflicts flock (seq, code)) rows ≡ false
      free_above seq code [] range made known h = refl
      free_above seq code (r ∷ rows) range made (here, known) h =
          let (numbers, lower) = below_highest r rows seq.get h in
          rw (codes numbers, numbers) (free_above seq code rows range made known lower)
        where
          codes :
              (r.flock_id == flock && r.flock_seq == seq.get) ≡ false
              → text_eq r.code code.as_str ≡ false
          codes numbers = elim (Bool-cases (text_eq r.code code.as_str)) [
            | inl e ↦ let (flocks, seqs) = here seq code range made e in absurd (ground arith)
            | inr e ↦ e
          ]

      Ascending-Fits :
          (es : List Entry) (candidate : ℕ) (rows : List DuckRow)
          → All Registered rows
          → highest rows < candidate
          → Ascending candidate es
          → Fits es rows
      Ascending-Fits [] candidate rows known h asc = tt
      Ascending-Fits ((s, c) ∷ es) candidate rows known h ((from, range, made), asc) = (
        free_above s c rows range made known (omega arith),
        Apart-later s c (suc s.get) es range made (omega arith) asc,
        Ascending-Fits es (suc s.get) rows known (omega arith) asc,
      )

      -- In a known flock, with codes that are distinct and stored ducks that are registered under
      -- them, the entries that the loop of `mint_batch` gives are inserted with no constraint
      -- violated, unless the flock is full.
      pub mint_loop-insert_ducks :
          (amount : ℕ) (db : Db)
          → exists (λ f. f.id == flock) db.flocks ≡ true
          → All Registered db.ducks
          → highest db.ducks ≤ seq_max
          → Inserts db (mint_loop (suc seq_max) encode amount (highest db.ducks + 1))
      mint_loop-insert_ducks amount db known registered bounded =
          let n = seq_max - highest db.ducks in
          let asc = available-Ascending n (highest db.ducks + 1) (omega arith) (omega arith) in
          rw
            (mint_loop-eq encode (suc seq_max) n amount (highest db.ducks + 1) (omega arith)
              (omega arith) (omega arith))
            (outcome (available encode n (highest db.ducks + 1)) asc)
        where
          outcome :
              (es : List Entry)
              → Ascending (highest db.ducks + 1) es
              → Inserts db (first_of encode amount es)
          outcome es asc = elim (Bool-cases (leb amount (length es))) [
            | inl e ↦ rw e (
                insert_ducks-some (take amount es) db known (
                  Ascending-Fits (take amount es) (highest db.ducks + 1) db.ducks registered
                    (omega arith) (take-Ascending amount (highest db.ducks + 1) es asc)))
            | inr e ↦ rw e refl
          ]
