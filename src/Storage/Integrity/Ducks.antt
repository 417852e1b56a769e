-- ===== src/Storage/Integrity/Ducks.antt =====
-- Ducks of crates/storage/src/repos.rs: their statements keep every foreign key.
use duck_voyage.Prelude.{◌≡◌, refl, ℕ, Bool, Option, ◌==◌, subst, sym, ap, arith, All-append}
use duck_voyage.Prelude.Tables.{update}
use duck_voyage.Prelude.Tables.Laws
use duck_voyage.Domain.Codes.{FlockSeq, DuckCode}
use duck_voyage.Domain.BoundedText.{DuckName, DuckDescription, PhotoRef}
use duck_voyage.Domain.Entities.{Key}
use duck_voyage.Storage.Rows.{DuckRow}
use duck_voyage.Storage.Db.{Db}
use duck_voyage.Storage.Kept.{with_duck, mint_batch-kept}
use duck_voyage.Storage.Ducks.{
  Entry, mint_batch, update_duck, stage, set_sail, set_deleted, set_comments_locked, can_stage,
  stage_row, can_sail, sail_row, toggled,
}
use duck_voyage.Storage.Integrity.{HasFlock, HasDuck, Intact}
use duck_voyage.Storage.Integrity.Growth.{widen, Wider-tables}

-- One row of an INSERT into `duck`.
with_duck-Intact :
    (flock : Key) (entry : Entry) (db : Db)
    → HasFlock db flock
    → Intact db
    → Intact (with_duck flock entry db)
with_duck-Intact flock entry db known i =
    let (f, d, s, c, o, n) =
      widen db (with_duck flock entry db)
        (Wider-tables (λ id h. h) (λ id h. h)
          (λ id. Laws.exists-append_left (λ (x : DuckRow). x.id == id) db.ducks _) refl refl
          (omega arith))
        i in
    (f, All-append _ db.ducks _ d (known, tt), s, c, o, n)

pub mint_batch-Intact :
    (flock : Key) (amount : ℕ) (encode : FlockSeq → Option DuckCode) (db : Db)
    → Intact db
    → Intact (mint_batch flock amount encode db).1
mint_batch-Intact flock amount encode =
    mint_batch-kept Intact flock encode (λ entry db made. with_duck-Intact flock entry db) amount

-- An UPDATE that leaves the keys of a duck.
update_duck-Intact :
    (test : DuckRow → Bool) (f : DuckRow → DuckRow) (db : Db)
    → ((r : DuckRow) → ((f r).id ≡ r.id) × ((f r).flock_id ≡ r.flock_id))
    → Intact db
    → Intact (update_duck test f db).1
unfolding update_duck
update_duck-Intact test f db keeps i =
    let after : Db = record db { ducks = update test f db.ducks } in
    let kept : (id : Key) → HasDuck db id → HasDuck after id = λ id h. rw (
      Laws.exists-update test (λ (d : DuckRow). d.id == id) f db.ducks
          (λ r. ap (λ k. k == id) (keeps r).0),
      h,
    ) in
    let (fl, d, s, c, o, n) =
      widen db after (Wider-tables (λ id h. h) (λ id h. h) kept refl refl (omega arith)) i in
    (
      fl,
      Laws.All-update test f db.ducks (λ r h. h)
          (λ r h _. subst (HasFlock after) (sym (keeps r).1) h) d,
      s,
      c,
      o,
      n,
    )

pub stage-Intact :
    (id : Key) (description : DuckDescription) (name : Option DuckName) (photo : PhotoRef) (db : Db)
    → Intact db
    → Intact (stage id description name photo db).1
unfolding stage
stage-Intact id description name photo db =
    update_duck-Intact (can_stage id) (stage_row db.now description name photo) db
      (λ r. (refl, refl))

pub set_sail-Intact : (id : Key) (db : Db) → Intact db → Intact (set_sail id db).1
unfolding set_sail
set_sail-Intact id db = update_duck-Intact (can_sail id) (sail_row db.now) db (λ r. (refl, refl))

pub set_deleted-Intact :
    (id : Key) (deleted : Bool) (db : Db) → Intact db → Intact (set_deleted id deleted db).1
unfolding set_deleted
set_deleted-Intact id deleted db =
    update_duck-Intact (λ r. r.id == id)
      (λ r. record r { deleted_at = toggled deleted db.now r.deleted_at }) db (λ r. (refl, refl))

pub set_comments_locked-Intact :
    (id : Key) (locked : Bool) (db : Db) → Intact db → Intact (set_comments_locked id locked db).1
unfolding set_comments_locked
set_comments_locked-Intact id locked db =
    update_duck-Intact (λ r. r.id == id)
      (λ r. record r { comments_locked_at = toggled locked db.now r.comments_locked_at }) db
      (λ r. (refl, refl))
