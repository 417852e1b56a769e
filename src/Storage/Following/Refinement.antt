-- ===== src/Storage/Following/Refinement.antt =====
-- The table `duck_follow` as a set of followers (crates/storage/src/repos.rs): every call does to the rows
-- what its event does to the set.
use duck_voyage.Prelude.{
  ◌≡◌, refl, Bool, true, not, List, [], ◌∷◌, ◌==◌, ◌&&◌, ◌||◌, arith, Bool-cases, inl, inr, sym, ap,
  ◌∙◌,
}
use duck_voyage.Prelude.Results.{ok}
use duck_voyage.Prelude.Tables.{exists, delete}
use duck_voyage.Prelude.Tables.Laws
use duck_voyage.Domain.Entities.{Key, Timestamp}
use duck_voyage.Storage.Db.{FollowRow, Db}
use duck_voyage.Storage.Ducks.{stage, set_sail, set_deleted, set_comments_locked}
use duck_voyage.Storage.Sightings.{
  add_follow, follows_duck, NewSighting, references, log, delete_sighting,
}
use duck_voyage.Storage.Social.{
  known, follow, unfollow, is_following, delete_comment, mark_all_read, take_flow,
}
use duck_voyage.Storage.Admin.{
  on_duck, in_flock, in_flocks_of, deletable, delete_flock, delete_user,
}
use duck_voyage.Storage.Integrity.{Intact}
use duck_voyage.Storage.Integrity.Deletion.{no_dangling_flock}
use duck_voyage.Storage.Integrity.Users.{no_dangling_user}
use duck_voyage.Storage.Integrity.Reach.{
  Call, clock, upserting, creating, minting, staging, launching, hiding, locking, logging,
  removing_sighting, commenting, removing_comment, following, unfollowing, reading, putting, taking,
  removing_flock, removing_user, perform, Reach, here, next, IsSeeded, Reach-Intact,
}
use duck_voyage.Storage.Following.{
  Followers, Event, began, ended, gone, idle, after, followers, event, history,
}
use duck_voyage.Storage.Following.Untouched.{
  upsert-follows, create_flock-follows, mint_batch-follows, add_comment-follows, put_flow-follows,
}

-- The set that the rows stand for.
abbrev in_rows : List FollowRow → Followers
in_rows rows u d = exists (follows_duck u d) rows

both-eq : (a b c d : Key) → (a == b && c == d) ≡ true → (a ≡ b) × (c ≡ d)
both-eq a b c d h = ground arith

module _ (u d : Key) where
  in_rows-delete :
      (test : FollowRow → Bool) (goes : Bool) (rows : List FollowRow)
      → ((r : FollowRow) → follows_duck u d r ≡ true → test r ≡ goes)
      → in_rows (delete test rows) u d ≡ (in_rows rows u d && not goes)
  in_rows-delete test goes [] f = refl
  in_rows-delete test goes (r ∷ rows) f =
      let later = in_rows-delete test goes rows f in
      elim (Bool-cases (follows_duck u d r)) [
        | inl e ↦ let same = f r e in ground arith
        | inr e ↦ ground arith
      ]

  in_rows-add_follow :
      (user duck : Key) (now : Timestamp) (rows : List FollowRow)
      → in_rows (add_follow user duck now rows) u d ≡ (in_rows rows u d || (user == u && duck == d))
  in_rows-add_follow user duck now rows = elim (Bool-cases (exists (follows_duck user duck) rows)) [
    | inr e ↦ rw (e, Laws.exists-append (follows_duck u d) rows) (ground arith)
    | inl e ↦ elim (Bool-cases (user == u && duck == d)) [
      | inr t ↦ rw (e, t) (ground arith)
      | inl t ↦
          let (a, b) = both-eq user u duck d t in
          let here : exists (follows_duck u d) rows ≡ true = rw (sym a, sym b) e in rw (e, here)
    ]
  ]

  in_rows-follow :
      (user duck : Key) (db : Db)
      → in_rows (follow user duck db).1.follows u d
        ≡ after (event (following user duck) db) (in_rows db.follows) u d
  unfolding follow
  in_rows-follow user duck db = elim (Bool-cases (known duck user db)) [
    | inl e ↦ rw e (in_rows-add_follow user duck db.now db.follows)
    | inr e ↦ rw e
  ]

  in_rows-log :
      (new : NewSighting) (db : Db)
      → in_rows (log new db).1.follows u d ≡ after (event (logging new) db) (in_rows db.follows) u d
  unfolding log
  in_rows-log new db = elim (Bool-cases (references new db)) [
    | inl e ↦ rw e (in_rows-add_follow new.user_id new.duck_id db.now db.follows)
    | inr e ↦ rw e
  ]

  in_rows-unfollow :
      (user duck : Key) (db : Db)
      → in_rows (unfollow user duck db).1.follows u d
        ≡ after (event (unfollowing user duck) db) (in_rows db.follows) u d
  unfolding unfollow
  in_rows-unfollow user duck db =
      in_rows-delete (follows_duck user duck) (u == user && d == duck) db.follows
        (λ r h. let (a, b) = both-eq r.user_id u r.duck_id d h in rw (a, b))

  in_rows-delete_flock :
      (flock : Key) (db : Db)
      → Intact db
      → in_rows (delete_flock flock db).1.follows u d
        ≡ after (event (removing_flock flock) db) (in_rows db.follows) u d
  unfolding delete_flock
  in_rows-delete_flock flock db i = rw (no_dangling_flock flock db i) (
      in_rows-delete (λ r. on_duck (in_flock flock) db r.duck_id) (on_duck (in_flock flock) db d)
        db.follows (λ r h. let (a, b) = both-eq r.user_id u r.duck_id d h in rw b))

  in_rows-delete_user :
      (user : Key) (db : Db)
      → Intact db
      → in_rows (delete_user user db).1.follows u d
        ≡ after (event (removing_user user) db) (in_rows db.follows) u d
  unfolding delete_user
  in_rows-delete_user user db i =
      let free = no_dangling_user user db i in
      let goes = on_duck (in_flocks_of user db) db in
      elim (Bool-cases (exists (deletable user) db.users)) [
        | inl e ↦
            rw (free, e)
              (in_rows-delete (λ r. r.user_id == user || goes r.duck_id) (u == user || goes d)
                db.follows (λ r h. let (a, b) = both-eq r.user_id u r.duck_id d h in rw (a, b)))
        | inr e ↦ rw (free, e)
      ]

  -- A call of the repositories, as its event.
  in_rows-perform :
      (call : Call) (db : Db)
      → Intact db
      → in_rows (perform call db).follows u d ≡ after (event call db) (in_rows db.follows) u d
  unfolding perform stage set_sail set_deleted set_comments_locked delete_sighting delete_comment
      mark_all_read take_flow
  in_rows-perform (clock now) db i = refl
  in_rows-perform (upserting oidc name email grant) db i =
      ap (λ rows. in_rows rows u d) (upsert-follows oidc name email grant db)
  in_rows-perform (creating draw owner generation label) db i =
      ap (λ rows. in_rows rows u d) (create_flock-follows draw owner generation label db)
  in_rows-perform (minting flock amount encode) db i =
      ap (λ rows. in_rows rows u d) (mint_batch-follows flock amount encode db)
  in_rows-perform (commenting duck user body) db i =
      ap (λ rows. in_rows rows u d) (add_comment-follows duck user body db)
  in_rows-perform (putting flow) db i = ap (λ rows. in_rows rows u d) (put_flow-follows flow db)
  in_rows-perform (staging duck description name photo) db i = refl
  in_rows-perform (launching duck) db i = refl
  in_rows-perform (hiding duck deleted) db i = refl
  in_rows-perform (locking duck locked) db i = refl
  in_rows-perform (removing_sighting id duck) db i = refl
  in_rows-perform (removing_comment id duck) db i = refl
  in_rows-perform (reading user) db i = refl
  in_rows-perform (taking state) db i = refl
  in_rows-perform (logging new) db i = in_rows-log new db
  in_rows-perform (following user duck) db i = in_rows-follow user duck db
  in_rows-perform (unfollowing user duck) db i = in_rows-unfollow user duck db
  in_rows-perform (removing_flock flock) db i = in_rows-delete_flock flock db i
  in_rows-perform (removing_user user) db i = in_rows-delete_user user db i

-- What an event makes of a pair depends on the set at that pair only.
after-local :
    (e : Event) (set other : Followers) (u d : Key)
    → set u d ≡ other u d
    → after e set u d ≡ after e other u d
after-local (began user duck) set other u d h = rw h
after-local (ended user duck) set other u d h = rw h
after-local (gone users ducks) set other u d h = rw h
after-local idle set other u d h = h

in_rows-followers :
    {start db : Db} (reached : Reach start db)
    → IsSeeded start
    → (u d : Key) → in_rows db.follows u d ≡ followers (history reached) u d
in_rows-followers here s u d = ap (λ rows. in_rows rows u d) s.no_follows
in_rows-followers (next {now} call r e) s u d =
    ap (λ db. in_rows db.follows u d) (sym e)
    ∙ in_rows-perform u d call now (Reach-Intact r s)
    ∙ after-local (event call now) (in_rows now.follows) (followers (history r)) u d
        (in_rows-followers r s u d)

-- In tables that were reached from seeded ones, `is_following` answers from the set of followers
-- that the calls built: a user who follows a duck or logs a find of it joins, if the rows referred
-- to exist, one who unfollows leaves, the followers of a deleted flock's ducks leave, and so do a
-- deleted user and the followers of that user's ducks; no other call makes a difference.
pub is_following-followers :
    {start db : Db} (reached : Reach start db)
    → IsSeeded start
    → (user duck : Key) → is_following user duck db ≡ ok (followers (history reached) user duck)
unfolding is_following
is_following-followers reached s user duck = ap ok (in_rows-followers reached s user duck)
