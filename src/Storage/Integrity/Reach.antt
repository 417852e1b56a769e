-- ===== src/Storage/Integrity/Reach.antt =====
-- The repositories' calls of crates/storage/src/repos.rs as steps, and what every sequence of them keeps.
use duck_voyage.Prelude.{
  ◌≡◌, refl, ℕ, Bool, none, some, Option, List, [], ◌==◌, subst, Bool-cases, inl, inr,
  if◌then◌else◌,
}
use duck_voyage.Prelude.Results.{ok}
use duck_voyage.Prelude.Text.{Text}
use duck_voyage.Prelude.Tables.{exists}
use duck_voyage.Domain.Codes.{KeyGeneration, FlockSeq, DuckCode}
use duck_voyage.Domain.BoundedText.{
  OidcSubject, FlockLabel, CommentBody, DuckName, DuckDescription, PhotoRef,
}
use duck_voyage.Domain.Entities.{Key, Timestamp}
use duck_voyage.Storage.Db.{Db}
use duck_voyage.Storage.Users.{upsert}
use duck_voyage.Storage.Flocks.{create_flock}
use duck_voyage.Storage.Ducks.{mint_batch, stage, set_sail, set_deleted, set_comments_locked}
use duck_voyage.Storage.Sightings.{NewSighting, log, delete_sighting}
use duck_voyage.Storage.Social.{
  add_comment, delete_comment, follow, unfollow, mark_all_read, StoredLoginFlow, put_flow,
  take_flow,
}
use duck_voyage.Storage.Admin.{
  delete_flock, delete_user, flock_photo_keys, user_photo_keys, deletable,
}
use duck_voyage.Storage.Integrity.{Intact}
use duck_voyage.Storage.Integrity.Accounts.{
  upsert-Intact, create_flock-Intact, add_comment-Intact, delete_comment-Intact, follow-Intact,
  unfollow-Intact, mark_all_read-Intact, put_flow-Intact, take_flow-Intact,
}
use duck_voyage.Storage.Integrity.Ducks.{
  mint_batch-Intact, stage-Intact, set_sail-Intact, set_deleted-Intact, set_comments_locked-Intact,
}
use duck_voyage.Storage.Integrity.Sightings.{log-Intact, delete_sighting-Intact}
use duck_voyage.Storage.Integrity.Deletion.{no_dangling_flock, delete_flock-Intact}
use duck_voyage.Storage.Integrity.Users.{no_dangling_user, delete_user-Intact}

-- A call of a repository that changes the tables, with its arguments, or a move of the clock.
pub data Call : Type 0 where
  clock : Timestamp → Call
  upserting : OidcSubject → Option Text → Option Text → Bool → Call
  creating : (ℕ → List ℕ) → Key → KeyGeneration → Option FlockLabel → Call
  minting : Key → ℕ → (FlockSeq → Option DuckCode) → Call
  staging : Key → DuckDescription → Option DuckName → PhotoRef → Call
  launching : Key → Call
  hiding locking : Key → Bool → Call
  logging : NewSighting → Call
  removing_sighting : Key → Key → Call
  commenting : Key → Key → CommentBody → Call
  removing_comment : Key → Key → Call
  following unfollowing : Key → Key → Call
  reading : Key → Call
  putting : StoredLoginFlow → Call
  taking : Text → Call
  removing_flock removing_user : Key → Call

-- The tables after a call, whatever it returned.
unfoldable pub perform : Call → Db → Db
perform (clock now) db = record db { now = now }
perform (upserting oidc name email grant) db = (upsert oidc name email grant db).1
perform (creating draw owner generation label) db = (create_flock draw owner generation label db).1
perform (minting flock amount encode) db = (mint_batch flock amount encode db).1
perform (staging duck description name photo) db = (stage duck description name photo db).1
perform (launching duck) db = (set_sail duck db).1
perform (hiding duck deleted) db = (set_deleted duck deleted db).1
perform (locking duck locked) db = (set_comments_locked duck locked db).1
perform (logging new) db = (log new db).1
perform (removing_sighting id duck) db = (delete_sighting id duck db).1
perform (commenting duck user body) db = (add_comment duck user body db).1
perform (removing_comment id duck) db = (delete_comment id duck db).1
perform (following user duck) db = (follow user duck db).1
perform (unfollowing user duck) db = (unfollow user duck db).1
perform (reading user) db = (mark_all_read user db).1
perform (putting flow) db = (put_flow flow db).1
perform (taking state) db = (take_flow state db).1
perform (removing_flock flock) db = (delete_flock flock db).1
perform (removing_user user) db = (delete_user user db).1

-- The tables that calls lead to, in any order.
pub data Reach (start : Db) : Db → Type 0 where
  here : Reach start start
  next :
      {now later : Db} (call : Call)
      → Reach start now
      → perform call now ≡ later
      → Reach start later

-- The tables as the migrations leave them: vessels and lines at most.
pub record IsSeeded (db : Db) : Type 0 where
  pub no_flocks : db.flocks ≡ []
  pub no_ducks : db.ducks ≡ []
  pub no_sightings : db.sightings ≡ []
  pub no_comments : db.comments ≡ []
  pub no_follows : db.follows ≡ []
  pub no_notifications : db.notifications ≡ []

IsSeeded-Intact : (db : Db) → IsSeeded db → Intact db
IsSeeded-Intact db s =
    rw (s.no_flocks, s.no_ducks, s.no_sightings, s.no_comments, s.no_follows, s.no_notifications)
      (tt, tt, tt, tt, tt, tt)

perform-Intact : (call : Call) (db : Db) → Intact db → Intact (perform call db)
unfolding perform
perform-Intact (clock now) db i = i
perform-Intact (upserting oidc name email grant) db i = upsert-Intact oidc name email grant db i
perform-Intact (creating draw owner generation label) db i =
    create_flock-Intact draw owner generation label db i
perform-Intact (minting flock amount encode) db i = mint_batch-Intact flock amount encode db i
perform-Intact (staging duck description name photo) db i =
    stage-Intact duck description name photo db i
perform-Intact (launching duck) db i = set_sail-Intact duck db i
perform-Intact (hiding duck deleted) db i = set_deleted-Intact duck deleted db i
perform-Intact (locking duck locked) db i = set_comments_locked-Intact duck locked db i
perform-Intact (logging new) db i = log-Intact new db i
perform-Intact (removing_sighting id duck) db i = delete_sighting-Intact id duck db i
perform-Intact (commenting duck user body) db i = add_comment-Intact duck user body db i
perform-Intact (removing_comment id duck) db i = delete_comment-Intact id duck db i
perform-Intact (following user duck) db i = follow-Intact user duck db i
perform-Intact (unfollowing user duck) db i = unfollow-Intact user duck db i
perform-Intact (reading user) db i = mark_all_read-Intact user db i
perform-Intact (putting flow) db i = put_flow-Intact flow db i
perform-Intact (taking state) db i = take_flow-Intact state db i
perform-Intact (removing_flock flock) db i = delete_flock-Intact flock db i
perform-Intact (removing_user user) db i = delete_user-Intact user db i

-- However the calls of the repositories that change the tables and the moves of the clock are
-- interleaved, with whatever arguments, tables that were reached from seeded ones hold no dangling
-- foreign key, and every notification names the duck of its sighting.
pub Reach-Intact : {start db : Db} → Reach start db → IsSeeded start → Intact db
Reach-Intact here s = IsSeeded-Intact _ s
Reach-Intact (next call r e) s = subst Intact e (perform-Intact call _ (Reach-Intact r s))

module _ {start db : Db} (reached : Reach start db) (seeded : IsSeeded start) where
  -- In tables that were reached from seeded ones, deleting a flock never fails on a foreign key:
  -- it gives the keys of the photos if the flock exists, and nothing otherwise.
  pub delete_flock-succeeds :
      (flock : Key)
      → (delete_flock flock db).0
        ≡ ok (
            if exists (λ f. f.id == flock) db.flocks
            then some (flock_photo_keys flock db)
            else none)
  unfolding delete_flock
  delete_flock-succeeds flock = rw (no_dangling_flock flock db (Reach-Intact reached seeded)) refl

  -- In tables that were reached from seeded ones, deleting a user never fails on a foreign key: it
  -- gives the keys of the photos if the user exists and is no administrator, and nothing
  -- otherwise.
  pub delete_user-succeeds :
      (user : Key)
      → (delete_user user db).0
        ≡ ok (if exists (deletable user) db.users then some (user_photo_keys user db) else none)
  unfolding delete_user
  delete_user-succeeds user =
      let free = no_dangling_user user db (Reach-Intact reached seeded) in
      elim (Bool-cases (exists (deletable user) db.users)) [
        | inl e ↦ rw (free, e) refl
        | inr e ↦ rw (free, e) refl
      ]
