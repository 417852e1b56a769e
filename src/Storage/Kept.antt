-- ===== src/Storage/Kept.antt =====
-- The loops over statements of crates/storage/src/repos.rs, drawing a flock code and inserting a batch
-- of ducks: a property of the tables that each statement keeps, the loop keeps.
use duck_voyage.Prelude.{
  ◌≡◌, ℕ, zero, suc, ◌+◌, ◌^◌, true, false, Option, none, some, List, [], ◌∷◌, ◌++◌, ◌==◌,
  map_option, ltb, Bool-cases, Option-cases, inl, inr, subst, All,
}
use duck_voyage.Prelude.Results.{Res, ok, err, panic}
use duck_voyage.Prelude.Text.{Text, text_eq}
use duck_voyage.Prelude.Tables.{exists, max_of}
use duck_voyage.Domain.Codes.{KeyGeneration, FlockSeq, DuckCode, seq_max, chars_of}
use duck_voyage.Domain.Profanity.{matches}
use duck_voyage.Domain.Entities.{Key, Flock}
use duck_voyage.Storage.Rows.{RepoError, DuckRow, FlockRow, UserRow}
use duck_voyage.Storage.Db.{Db}
use duck_voyage.Storage.Flocks.{insert_flock, stored_or, draw_flock}
use duck_voyage.Storage.Ducks.Made.{Made, Collects, mint_loop-Collects}
use duck_voyage.Storage.Ducks.{
  Entry, conflicts, new_row, insert_ducks, insert_entries, mint_loop, mint_batch,
}

-- A new row of a flock, on the next id.
abbrev pub with_flock : Text → KeyGeneration → Key → Option Text → Db → Db
with_flock candidate generation owner label db =
    let row : FlockRow = record {
      id = db.next_id;
      flock_code = candidate;
      key_generation = generation;
      owner_user_id = owner;
      label = label;
      created_at = db.now;
    } in
    record db { flocks = db.flocks ++ row ∷ []; next_id = suc db.next_id }

-- A new row of a duck, on the next id.
abbrev pub with_duck : Key → Entry → Db → Db
with_duck flock entry db = record db {
  ducks = db.ducks ++ new_row flock entry db ∷ [];
  next_id = suc db.next_id;
}

module _ {ℓ} (P : Db → Type ℓ) (draw : ℕ → List ℕ) (owner : Key) (generation : KeyGeneration)
    (label : Option Text)
    (row_kept : (k : ℕ) (candidate : Text) (db : Db)
      → chars_of (draw k) ≡ some candidate
      → ltb generation (2 ^ 15) ≡ true
      → exists (λ (r : FlockRow). text_eq r.flock_code candidate) db.flocks ≡ false
      → exists (λ (u : UserRow). u.id == owner) db.users ≡ true
      → P db
      → P (with_flock candidate generation owner label db)) where
  insert_flock-kept :
      (k : ℕ) (candidate : Text) (db : Db)
      → chars_of (draw k) ≡ some candidate
      → ltb generation (2 ^ 15) ≡ true
      → P db
      → P (insert_flock candidate generation owner label db).1
  unfolding insert_flock
  insert_flock-kept k candidate db drawn small p =
      elim (Bool-cases (exists (λ (r : FlockRow). text_eq r.flock_code candidate) db.flocks)) [
        | inl e ↦ rw e p
        | inr e ↦ elim (Bool-cases (exists (λ (u : UserRow). u.id == owner) db.users)) [
          | inl u ↦ rw (e, u) (row_kept k candidate db drawn small e u p)
          | inr u ↦ rw (e, u) p
        ]
      ]

  stored_or-kept :
      (p : Res RepoError (Option FlockRow) × Db) (again : Res RepoError Flock × Db)
      → P p.1
      → P again.1
      → P (stored_or p again).1
  stored_or-kept (ok (some row), db) again i j = i
  stored_or-kept (ok none, db) again i j = j
  stored_or-kept (err e, db) again i j = i
  stored_or-kept (panic, db) again i j = i

  pub draw_flock-kept :
      (attempts : ℕ) (db : Db) → P db → P (draw_flock attempts draw owner generation label db).1
  unfolding draw_flock
  draw_flock-kept zero db p = p
  draw_flock-kept (suc attempts) db p =
      let again = draw_flock-kept attempts db p in
      elim (Option-cases (chars_of (draw attempts))) [
        | inl e ↦ rw (e, draw_flock) p
        | inr (candidate, e) ↦ elim (Bool-cases (matches candidate)) [
          | inl m ↦ rw (e, draw_flock, m) again
          | inr m ↦ elim (Bool-cases (ltb generation (2 ^ 15))) [
            | inl g ↦
                rw (e, draw_flock, m, g)
                  (stored_or-kept (insert_flock candidate generation owner label db)
                    (draw_flock attempts draw owner generation label db)
                    (insert_flock-kept attempts candidate db e g p) again)
            | inr g ↦ rw (e, draw_flock, m, g) p
          ]
        ]
      ]

module _ {ℓ} (P : Db → Type ℓ) (flock : Key) (encode : FlockSeq → Option DuckCode)
    (row_kept : (entry : Entry) (db : Db)
      → Made encode entry
      → exists (λ (f : FlockRow). f.id == flock) db.flocks ≡ true
      → P db
      → P (with_duck flock entry db)) where
  -- What a transaction leaves when it commits.
  Commits : Option (List DuckRow × Db) → Type ℓ
  Commits none = Unit
  Commits (some (rows, db)) = P db

  Commits-row :
      (row : DuckRow) (o : Option (List DuckRow × Db))
      → Commits o
      → Commits (map_option (λ (p : List DuckRow × Db). (row ∷ p.0, p.1)) o)
  unfolding Commits
  Commits-row row none p = tt
  Commits-row row (some (rows, db)) p = p

  insert_ducks-Commits :
      (entries : List Entry) (db : Db)
      → All (Made encode) entries
      → P db
      → Commits (insert_ducks flock entries db)
  unfolding insert_ducks Commits
  insert_ducks-Commits [] db made p = p
  insert_ducks-Commits (entry ∷ entries) db (here, made) p =
      elim (Bool-cases (exists (conflicts flock entry) db.ducks)) [
        | inl e ↦ rw e tt
        | inr e ↦ elim (Bool-cases (exists (λ (f : FlockRow). f.id == flock) db.flocks)) [
          | inr k ↦ rw (e, k) tt
          | inl k ↦
              let later = insert_ducks-Commits entries _ made (row_kept entry db here k p) in
              rw (e, k) (Commits-row (new_row flock entry db) _ later)
        ]
      ]

  insert_entries-kept :
      (entries : Res RepoError (List Entry)) (db : Db)
      → Collects encode entries
      → P db
      → P (insert_entries flock entries db).1
  unfolding Commits
  insert_entries-kept (ok entries) db made p = elim (Option-cases (insert_ducks flock entries db)) [
    | inl e ↦ rw e p
    | inr ((rows, later), e) ↦
        let kept : Commits (some (rows, later)) =
          subst Commits e (insert_ducks-Commits entries db made p) in
        rw e kept
  ]
  insert_entries-kept (err e) db made p = p
  insert_entries-kept panic db made p = p

  pub mint_batch-kept : (amount : ℕ) (db : Db) → P db → P (mint_batch flock amount encode db).1
  unfolding mint_batch
  mint_batch-kept amount db p =
      let highest = max_of (λ (r : DuckRow). r.flock_id == flock) (λ r. r.flock_seq) db.ducks in
      let entries = mint_loop (suc seq_max) encode amount (highest + 1) in
      elim (Bool-cases (ltb flock (2 ^ 31))) [
        | inl e ↦ rw e (
            insert_entries-kept entries db
              (mint_loop-Collects encode (suc seq_max) amount (highest + 1)) p)
        | inr e ↦ rw e p
      ]
