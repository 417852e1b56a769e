-- ===== src/Storage/Ducks.antt =====
-- `DuckRepo` of crates/storage/src/repos.rs: minting, the two steps of the lifecycle, and moderation.
pub mod Mint
pub mod Lifecycle
pub mod Uniqueness
pub mod Made
use duck_voyage.Prelude.{
  ℕ, zero, suc, ◌+◌, ◌^◌, Bool, true, false, not, Option, none, some, is_some, List, [], ◌∷◌, ◌++◌,
  ◌==◌, ◌&&◌, ◌||◌, ltb, if◌then◌else◌, map_option,
}
use duck_voyage.Prelude.Results.{Res, ok, err, panic, ◌>>=◌, traverse, map_err}
use duck_voyage.Prelude.Text.{Text, text_eq}
use duck_voyage.Prelude.Tables.{find, select, update, exists, count, max_of}
use duck_voyage.Domain.Codes.{FlockSeq, DuckCode, new_seq, seq_max}
use duck_voyage.Domain.BoundedText.{DuckName, DuckDescription, PhotoRef}
use duck_voyage.Domain.Entities.{Timestamp, Key, Duck}
use duck_voyage.Storage.Rows.{RepoError, sql, flock_full, DuckRow, try_duck}
use duck_voyage.Storage.Db.{Db, Repo}
use duck_voyage.Storage.Users.{coalesce}
use duck_voyage.Storage.Flocks.{collect_rows}

abbrev pub Entry : Type 0
Entry = FlockSeq × DuckCode

abbrev pub prepend : Option DuckCode → FlockSeq → List Entry → List Entry
prepend none seq rest = rest
prepend (some code) seq rest = (seq, code) ∷ rest

-- Entries still wanted behind a candidate.
abbrev pub still : Option DuckCode → ℕ → ℕ
still none missing = suc missing
still (some code) missing = missing

-- The `while` loop of `mint_batch`: `missing` entries are wanted, from `candidate` on. Each round
-- raises the candidate, so `seq_max + 1` rounds are enough; with no fuel left the model panics.
pub mint_loop : ℕ → (FlockSeq → Option DuckCode) → ℕ → ℕ → Res RepoError (List Entry)
mint_loop fuel encode zero candidate = ok []
mint_loop zero encode (suc missing) candidate = panic
mint_loop (suc fuel) encode (suc missing) candidate =
    map_err (λ _. flock_full) (new_seq candidate) >>= λ seq.
    mint_loop fuel encode (still (encode seq) missing) (suc candidate) >>= λ rest.
    ok (prepend (encode seq) seq rest)

-- The constraints that an INSERT into `duck` can violate.
abbrev pub conflicts : Key → Entry → DuckRow → Bool
conflicts flock entry r =
    text_eq r.code entry.1.as_str || (r.flock_id == flock && r.flock_seq == entry.0.get)

abbrev pub new_row : Key → Entry → Db → DuckRow
new_row flock entry db = record {
  id = db.next_id;
  code = entry.1.as_str;
  flock_id = flock;
  flock_seq = entry.0.get;
  name = none;
  description = none;
  originated_at = none;
  set_sail_at = none;
  deleted_at = none;
  comments_locked_at = none;
  origin_photo_key = none;
  origin_photo_content_type = none;
  created_at = db.now;
}

-- INSERT INTO duck … SELECT FROM UNNEST …, a row at a time; `none` is a violated UNIQUE
-- or foreign key.
unfoldable pub insert_ducks : Key → List Entry → Db → Option (List DuckRow × Db)
insert_ducks flock [] db = some ([], db)
insert_ducks flock (entry ∷ entries) db =
    let row = new_row flock entry db in
    let rest =
      insert_ducks flock entries
        (record db { ducks = db.ducks ++ row ∷ []; next_id = suc db.next_id }) in
    if exists (conflicts flock entry) db.ducks || not (exists (λ f. f.id == flock) db.flocks)
    then none
    else map_option (λ (p : List DuckRow × Db). (row ∷ p.0, p.1)) rest

-- The end of the transaction: rolled back on an error, committed before the rows are converted.
abbrev pub commit_mint : Db → Option (List DuckRow × Db) → Res RepoError (List Duck) × Db
commit_mint db none = (err sql, db)
commit_mint db (some (rows, db')) = (collect_rows try_duck rows, db')

abbrev pub insert_entries : Key → Res RepoError (List Entry) → Repo (List Duck)
insert_entries flock (ok entries) db = commit_mint db (insert_ducks flock entries db)
insert_entries flock (err e) db = (err e, db)
insert_entries flock panic db = (panic, db)

-- `DuckRepo::mint_batch`. The advisory lock serialises mints, and its key is an i32.
unfoldable pub mint_batch : Key → ℕ → (FlockSeq → Option DuckCode) → Repo (List Duck)
unfolding mint_loop insert_ducks
mint_batch flock amount encode db =
    let highest = max_of (λ r. r.flock_id == flock) (λ r. r.flock_seq) db.ducks in
    let minted = insert_entries flock (mint_loop (suc seq_max) encode amount (highest + 1)) db in
    if ltb flock (2 ^ 31) then minted else (panic, db)

-- `DuckRepo::by_id` and `by_flock_and_seq`
unfoldable pub duck_by_id : Key → Db → Res RepoError (Option Duck)
duck_by_id id db = traverse try_duck (find (λ r. r.id == id) db.ducks)

unfoldable pub by_flock_and_seq : Key → FlockSeq → Db → Res RepoError (Option Duck)
by_flock_and_seq flock seq db =
    traverse try_duck (find (λ r. r.flock_id == flock && r.flock_seq == seq.get) db.ducks)

-- UPDATE duck SET f WHERE test RETURNING …, one row at most.
unfoldable pub update_duck : (DuckRow → Bool) → (DuckRow → DuckRow) → Repo (Option Duck)
update_duck test f db = (
  traverse try_duck (map_option f (find test db.ducks)),
  record db { ducks = update test f db.ducks },
)

-- `DuckRepo::stage`
abbrev pub stage_row : Timestamp → DuckDescription → Option DuckName → PhotoRef → DuckRow → DuckRow
stage_row now description name photo r = record r {
  originated_at = some now;
  description = some description.as_str;
  name = map_option (λ (n : DuckName). n.as_str) name;
  origin_photo_key = some photo.key.as_str;
  origin_photo_content_type = some photo.content_type;
}

abbrev pub can_stage : Key → DuckRow → Bool
can_stage id r = r.id == id && not (is_some r.originated_at)

unfoldable pub stage : Key → DuckDescription → Option DuckName → PhotoRef → Repo (Option Duck)
unfolding update_duck
stage id description name photo db =
    update_duck (can_stage id) (stage_row db.now description name photo) db

-- `DuckRepo::set_sail`
abbrev pub sail_row : Timestamp → DuckRow → DuckRow
sail_row now r = record r { set_sail_at = some now }

abbrev pub can_sail : Key → DuckRow → Bool
can_sail id r = r.id == id && (is_some r.originated_at && not (is_some r.set_sail_at))

unfoldable pub set_sail : Key → Repo (Option Duck)
unfolding update_duck
set_sail id db = update_duck (can_sail id) (sail_row db.now) db

-- `DuckRepo::set_deleted` and `set_comments_locked`:
-- CASE WHEN $2 THEN COALESCE(column, now()) ELSE NULL END
abbrev pub toggled : Bool → Timestamp → Option Timestamp → Option Timestamp
toggled true now column = coalesce column (some now)
toggled false now column = none

unfoldable pub set_deleted : Key → Bool → Repo (Option Duck)
unfolding update_duck
set_deleted id deleted db =
    update_duck (λ r. r.id == id)
      (λ r. record r { deleted_at = toggled deleted db.now r.deleted_at }) db

unfoldable pub set_comments_locked : Key → Bool → Repo (Option Duck)
unfolding update_duck
set_comments_locked id locked db =
    update_duck (λ r. r.id == id)
      (λ r. record r { comments_locked_at = toggled locked db.now r.comments_locked_at }) db

-- `DuckRepo::unoriginated_count_for_owner`; the join finds one flock for a duck.
abbrev pub owned_by : Key → Db → DuckRow → Bool
owned_by owner db r = exists (λ f. f.id == r.flock_id && f.owner_user_id == owner) db.flocks

unfoldable pub unoriginated_count_for_owner : Key → Db → Res RepoError ℕ
unoriginated_count_for_owner owner db = ok (
    count
      (λ r. owned_by owner db r && (not (is_some r.originated_at) && not (is_some r.deleted_at)))
      db.ducks)
