-- ===== src/Storage/Flocks.antt =====
-- `FlockRepo` of crates/storage/src/repos.rs. The random draws are an argument: the digits that
-- `random_range(0..36)` gives in each attempt.
pub mod Draw
use duck_voyage.Prelude.{
  ℕ, zero, suc, ◌^◌, Option, none, some, List, [], ◌∷◌, ◌++◌, ◌==◌, ltb, if◌then◌else◌, map_option,
}
use duck_voyage.Prelude.Results.{Res, ok, err, panic, ◌>>=◌, traverse}
use duck_voyage.Prelude.Text.{Text, text_eq}
use duck_voyage.Prelude.Tables.{find, select, exists, count}
use duck_voyage.Domain.Codes.{KeyGeneration, FlockCode, chars_of}
use duck_voyage.Domain.BoundedText.{FlockLabel}
use duck_voyage.Domain.Profanity.{matches}
use duck_voyage.Domain.Entities.{Key, Flock}
use duck_voyage.Storage.Rows.{RepoError, sql, corrupt, flock, FlockRow, try_flock}
use duck_voyage.Storage.Db.{Db, Repo}

-- A query for all rows, each converted; the first that fails decides.
abbrev pub collect_rows {ℓ κ} :
    {A : Type ℓ} {B : Type κ} → (A → Res RepoError B) → List A → Res RepoError (List B)
collect_rows f [] = ok []
collect_rows f (r ∷ rs) = f r >>= λ b. collect_rows f rs >>= λ bs. ok (b ∷ bs)

-- INSERT … ON CONFLICT (flock_code) DO NOTHING RETURNING …, which fails on an owner who is no user.
unfoldable pub insert_flock : Text → KeyGeneration → Key → Option Text → Repo (Option FlockRow)
insert_flock candidate generation owner label db =
    let row : FlockRow = record {
      id = db.next_id;
      flock_code = candidate;
      key_generation = generation;
      owner_user_id = owner;
      label = label;
      created_at = db.now;
    } in
    if exists (λ r. text_eq r.flock_code candidate) db.flocks
    then (ok none, db)
    else if exists (λ u. u.id == owner) db.users
    then (ok (some row), record db { flocks = db.flocks ++ row ∷ []; next_id = suc db.next_id })
    else (err sql, db)

-- `if let Some(row) = row { return row.try_into(); }`, or else the attempts that are left.
abbrev pub stored_or :
    Res RepoError (Option FlockRow) × Db → Res RepoError Flock × Db → Res RepoError Flock × Db
stored_or (ok (some row), db) again = (try_flock row, db)
stored_or (ok none, db) again = again
stored_or (err e, db) again = (err e, db)
stored_or (panic, db) again = (panic, db)

-- The loop of `FlockRepo::create`, with the attempts that are left. `i16::try_from` panics on a
-- generation from 2 ^ 15 on; `char_of` does on a draw that is no digit.
unfoldable pub draw_flock : ℕ → (ℕ → List ℕ) → Key → KeyGeneration → Option Text → Repo Flock
draw_flock zero draw owner generation label db = (err (corrupt flock), db)
draw_flock (suc attempts) draw owner generation label db =
    let again = draw_flock attempts draw owner generation label db in
    elim (chars_of (draw attempts)) [
      | none ↦ (panic, db)
      | some candidate ↦
          if matches candidate
          then again
          else if ltb generation (2 ^ 15)
          then stored_or (insert_flock candidate generation owner label db) again
          else (panic, db)
    ]

-- `FlockRepo::create`: 64 attempts.
unfoldable pub create_flock : (ℕ → List ℕ) → Key → KeyGeneration → Option FlockLabel → Repo Flock
unfolding draw_flock
create_flock draw owner generation label =
    draw_flock 64 draw owner generation (map_option (λ l. l.as_str) label)

-- `by_id`, `by_code`, `for_owner` and `count_for_owner`. The column `created_at` grows with the
-- position in the table, so ORDER BY created_at is the order of the table.
unfoldable pub flock_by_id : Key → Db → Res RepoError (Option Flock)
flock_by_id id db = traverse try_flock (find (λ r. r.id == id) db.flocks)

unfoldable pub flock_by_code : FlockCode → Db → Res RepoError (Option Flock)
flock_by_code code db = traverse try_flock (find (λ r. text_eq r.flock_code code.as_str) db.flocks)

unfoldable pub flocks_for_owner : Key → Db → Res RepoError (List Flock)
flocks_for_owner owner db =
    collect_rows try_flock (select (λ r. r.owner_user_id == owner) db.flocks)

unfoldable pub count_for_owner : Key → Db → Res RepoError ℕ
count_for_owner owner db = ok (count (λ r. r.owner_user_id == owner) db.flocks)
