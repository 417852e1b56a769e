-- ===== src/Web/Flock/Register/Outcome.antt =====
-- What `mint_batch` (crates/storage/src/repos.rs) answers to the handler `mint` (crates/web/src/handlers/flock.rs)
-- in tables that were reached.
use duck_voyage.Prelude.{
  ◌≡◌, refl, ℕ, suc, ◌+◌, ◌≤◌, ◌^◌, Bool, false, not, Option, some, List, [], ◌∷◌, ◌++◌, ◌==◌, ◌||◌,
  All, arith, subst, sym, ap, ◌∙◌, ltb, length, ==→eq, ◌<◌, Bool-cases, Option-cases, inl, inr,
}
use duck_voyage.Prelude.Results.{Res, ok, err, panic, ok_injective, >>=-eq-ok}
use duck_voyage.Prelude.Tables.{find, exists, max_of}
use duck_voyage.Prelude.Tables.Laws
use duck_voyage.Domain.Codes.{FlockSeq, DuckCode, seq_max}
use duck_voyage.Domain.Codec.{Ff1, DuckCodec}
use duck_voyage.Domain.Entities.{Key, Duck, Flock}
use duck_voyage.Storage.Rows.{RepoError, flock_full, DuckRow, FlockRow, try_flock, try_duck}
use duck_voyage.Storage.Db.{Db}
use duck_voyage.Storage.Flocks.{collect_rows, flock_by_id}
use duck_voyage.Storage.Ducks.{
  Entry, conflicts, new_row, insert_ducks, insert_entries, mint_loop, mint_batch,
}
use duck_voyage.Storage.Ducks.Made.{Made, Collects, mint_loop-Collects}
use duck_voyage.Storage.Ducks.Uniqueness.{highest, Inserts}
use duck_voyage.Storage.Integrity.{Intact}
use duck_voyage.Storage.Integrity.Reach.{Reach, IsSeeded, Reach-Intact}
use duck_voyage.Storage.Readable.{IsWhole, new_row-IsWhole, try_duck-Converts}
use duck_voyage.Storage.Readable.Calls.{Encodes}
use duck_voyage.Storage.Readable.Reads.{collect_rows-Succeeds}
use duck_voyage.Web.Flock.{mintable}
use duck_voyage.Web.Flock.Encoding.{mintable-Encodes}
use duck_voyage.Web.Flock.Minting.{mint_loop-IsLabel}
use duck_voyage.Web.Flock.Minting
use duck_voyage.Web.Flock.Registry.{mint-Inserts}
use duck_voyage.Web.Flock.Register.{Rooted, Register, Seated-Minted, Seated-bounded}
use duck_voyage.Web.Flock.Register.History.{AllHandled, Reach-Register}

-- The outcomes of a mint: as many ducks as were asked for, or a flock that is full, or the panic on
-- an id that is no i32. No constraint of the tables is violated.
abbrev pub Filled : ℕ → Key → Res RepoError (List Duck) → Type 0
Filled amount flock (ok ducks) = length ducks ≡ amount
Filled amount flock (err e) = e ≡ flock_full
Filled amount flock panic = ltb flock (2 ^ 31) ≡ false

max_of-bounded :
    {A : Type 0} (test : A → Bool) (column : A → ℕ) (b : ℕ) (rows : List A)
    → All (λ r. column r ≤ b) rows
    → max_of test column rows ≤ b
max_of-bounded test column b [] h = omega arith
max_of-bounded test column b (r ∷ rows) (here, h) =
    ground (arith, max_of-bounded test column b rows h)

-- The rows that are inserted can be read, and are as many as the entries.
insert_ducks-IsWhole :
    (flock : Key) (entries : List Entry) (encode : FlockSeq → Option DuckCode) (db after : Db)
    (rows : List DuckRow)
    → Encodes encode
    → All (Made encode) entries
    → insert_ducks flock entries db ≡ some (rows, after)
    → All IsWhole rows × (length rows ≡ length entries)
unfolding insert_ducks
insert_ducks-IsWhole flock [] encode db after rows encodes made h =
    subst (λ rs. All IsWhole rs × (length rs ≡ 0)) (ap (λ p. p.0) (Laws.some_injective h))
      (tt, refl)
insert_ducks-IsWhole flock (e ∷ entries) encode db after rows encodes ((numbered, coded), made) h =
    let row = new_row flock e db in
    let later = record db { ducks = db.ducks ++ row ∷ []; next_id = suc db.next_id } in
    elim (Bool-cases
      (exists (conflicts flock e) db.ducks || not (exists (λ f. f.id == flock) db.flocks))) [
        | inl c ↦ let never = rw c at h in cc
        | inr c ↦ elim (Option-cases (insert_ducks flock entries later)) [
          | inl n ↦ let never = rw (c, n) at h in cc
          | inr ((rs, a), k) ↦
              let done : some (row ∷ rs, a) ≡ some (rows, after) = rw (c, k) at h in
              let (whole, size) =
                insert_ducks-IsWhole flock entries encode later a rs encodes made k in
              subst (λ x. All IsWhole x × (length x ≡ suc (length entries)))
                (ap (λ p. p.0) (Laws.some_injective done))
                (
                  (new_row-IsWhole flock e db numbered (encodes e.0 e.1 numbered coded), whole),
                  omega (arith, size),
                )
        ]
      ]

collect_rows-length :
    {A B : Type 0} (f : A → Res RepoError B) (rows : List A) (bs : List B)
    → collect_rows f rows ≡ ok bs
    → length bs ≡ length rows
collect_rows-length f [] bs h = subst (λ x. length x ≡ 0) (ok_injective h) refl
collect_rows-length f (r ∷ rows) bs h =
    let (b, e, k) = >>=-eq-ok (f r) _ h in
    let (cs, e', k') = >>=-eq-ok (collect_rows f rows) _ k in
    subst (λ x. length x ≡ suc (length rows)) (ok_injective k')
      (omega (arith, collect_rows-length f rows cs e'))

-- The end of a mint whose entries were collected and can be inserted.
insert_entries-Filled :
    (flock amount : ℕ) (encode : FlockSeq → Option DuckCode) (db : Db)
    (entries : Res RepoError (List Entry))
    → Encodes encode
    → ((es : List Entry) → entries ≡ ok es → length es ≡ amount)
    → Collects encode entries
    → Inserts flock db entries
    → Filled amount flock (insert_entries flock entries db).0
insert_entries-Filled flock amount encode db (ok es) encodes size made (rows, after, done) =
    let (whole, long) = insert_ducks-IsWhole flock es encode db after rows encodes made done in
    let (ducks, read) =
      collect_rows-Succeeds try_duck rows (Laws.All-map rows try_duck-Converts whole) in
    rw (done, read) (collect_rows-length try_duck rows ducks read ∙ long ∙ size es refl)
insert_entries-Filled flock amount encode db (err e) encodes size made inserts = inserts
insert_entries-Filled flock amount encode db panic encodes size made inserts = elim inserts [ ]

All-both :
    {A : Type 0} (P Q : A → Type 0) (rows : List A)
    → All P rows
    → All Q rows
    → All (λ r. P r × Q r) rows
All-both P Q [] p q = tt
All-both P Q (r ∷ rows) (p, ps) (q, qs) = ((p, q), All-both P Q rows ps qs)

module _ (fpe : Ff1) (codec : DuckCodec fpe) where
  mint_root :
      (db : Db)
      → Intact db
      → Register fpe codec db
      → (r : FlockRow) (root : Rooted fpe codec r)
      → find (λ f. f.id == root.flock.id) db.flocks ≡ some r
      → (amount : ℕ)
      → Filled amount root.flock.id
          (mint_batch root.flock.id amount (mintable fpe codec root.flock) db).0
  unfolding mint_batch
  mint_root db intact register r root found amount =
      let flock = root.flock in
      let encode = mintable fpe codec flock in
      let loop = mint_loop (suc seq_max) encode amount (highest flock.id db.ducks + 1) in
      let rows = All-both _ _ db.ducks intact.1 register.2 in
      let bounded : highest flock.id db.ducks ≤ seq_max = max_of-bounded _ _ seq_max db.ducks (
        Laws.All-map db.ducks
          (λ d (has, seated). Seated-bounded fpe codec db.next_id db.flocks d has seated) rows) in
      let minted =
        Laws.All-map db.ducks
          (λ d (has, seated). Seated-Minted fpe codec db intact register r root found d has seated)
          rows in
      let stored = Laws.find-exists (λ f. f.id == flock.id) db.flocks r found in
      let labels =
        mint_loop-IsLabel fpe codec flock root.keyed.cipher root.keyed.known root.keyed.prefix
          root.keyed.valid amount (highest flock.id db.ducks + 1) (omega arith) (omega arith) in
      elim (Bool-cases (ltb flock.id (2 ^ 31))) [
        | inr e ↦ rw e e
        | inl e ↦ rw e (
            insert_entries-Filled flock.id amount encode db loop
              (mintable-Encodes fpe codec flock root.keyed)
              (λ es k.
                (subst
                  (Minting.Mints fpe codec flock root.keyed.cipher root.keyed.known
                    root.keyed.prefix root.keyed.valid amount)
                  k labels).0)
              (mint_loop-Collects encode (suc seq_max) amount (highest flock.id db.ducks + 1))
              (mint-Inserts fpe codec flock root.keyed amount db stored minted bounded))
      ]

  -- In tables that were reached from seeded ones, where each flock was created under a generation
  -- with a key, with prefixes of three digits and a label that was parsed, and each mint was for a
  -- stored flock by the closure of the handler, minting into a stored flock gives as many ducks as
  -- were asked for or finds the flock full, and violates no constraint of the tables; only an id
  -- of 2 ^ 31 or more makes it panic.
  pub mint_batch-Filled :
      {start db : Db} (reached : Reach start db)
      → AllHandled fpe codec reached
      → IsSeeded start
      → (id amount : ℕ) (flock : Flock) → flock_by_id id db ≡ ok (some flock)
      → Filled amount id (mint_batch id amount (mintable fpe codec flock) db).0
  unfolding mint_batch flock_by_id
  mint_batch-Filled {db} reached handled seeded id amount flock stored =
      elim (Option-cases (find (λ r. r.id == id) db.flocks)) [
        | inl e ↦ let never = rw e at stored in let n = ok_injective never in absurd cc
        | inr (r, e) ↦
            let converted = rw e at stored in
            let (f, read, k) = >>=-eq-ok (try_flock r) _ converted in
            let register = Reach-Register fpe codec reached handled seeded in
            let (low, root) =
              Laws.find-All (λ x. x.id == id) (λ x. (x.id < db.next_id) × Rooted fpe codec x)
                db.flocks r register.1 e in
            let one : root.flock ≡ flock =
              ok_injective (sym root.read ∙ read) ∙ Laws.some_injective (ok_injective k) in
            let at : root.flock.id ≡ id =
              root.same_id ∙ ==→eq _ _ (Laws.find_sound (λ x. x.id == id) db.flocks r e) in
            let found = subst (λ n. find (λ x. x.id == n) db.flocks ≡ some r) (sym at) e in
            subst (λ n. Filled amount n (mint_batch n amount (mintable fpe codec flock) db).0) at
              (subst
                (λ g.
                  Filled amount root.flock.id
                    (mint_batch root.flock.id amount (mintable fpe codec g) db).0)
                one (mint_root db (Reach-Intact reached seeded) register r root found amount))
      ]
