-- ===== src/Storage/Integrity/Accounts.antt =====
-- Users, flocks, comments, follows and login flows of crates/storage/src/repos.rs: their statements keep
-- every foreign key.
use duck_voyage.Prelude.{
  ◌≡◌, refl, ℕ, suc, ◌+◌, Bool, true, Option, some, List, [], ◌∷◌, ◌++◌, ◌==◌, All, arith,
  Bool-cases, Option-cases, inl, inr, ltb, All-append, map_option,
}
use duck_voyage.Prelude.Text.{Text, text_eq}
use duck_voyage.Prelude.Tables.{find, exists, update, delete}
use duck_voyage.Prelude.Tables.Laws
use duck_voyage.Domain.Codes.{KeyGeneration}
use duck_voyage.Domain.BoundedText.{OidcSubject, FlockLabel, CommentBody}
use duck_voyage.Domain.Entities.{Key, Timestamp}
use duck_voyage.Storage.Rows.{FlockRow, UserRow}
use duck_voyage.Storage.Db.{FollowRow, Db}
use duck_voyage.Storage.Users.{upsert, same_identity, merge_user}
use duck_voyage.Storage.Flocks.{create_flock}
use duck_voyage.Storage.Kept.{with_flock, draw_flock-kept}
use duck_voyage.Storage.Sightings.{add_follow, follows_duck}
use duck_voyage.Storage.Social.{
  known, add_comment, delete_comment, follow, unfollow, mark_all_read, unread_of, StoredLoginFlow,
  put_flow, take_flow, flow_life,
}
use duck_voyage.Storage.Integrity.{HasUser, HasDuck, Intact}
use duck_voyage.Storage.Integrity.Growth.{widen, Wider-tables, alike}

pub upsert-Intact :
    (oidc : OidcSubject) (display_name email : Option Text) (grant_admin : Bool) (db : Db)
    → Intact db
    → Intact (upsert oidc display_name email grant_admin db).1
unfolding upsert
upsert-Intact oidc display_name email grant_admin db i =
    elim (Option-cases (find (same_identity oidc) db.users)) [
      | inl e ↦
          let row : UserRow = record {
            id = db.next_id;
            issuer = oidc.issuer;
            subject = oidc.subject;
            display_name = display_name;
            email = email;
            is_admin = grant_admin;
            created_at = db.now;
          } in
          let after : Db = record db { users = db.users ++ row ∷ []; next_id = suc db.next_id } in
          rw (e, upsert)
            (widen db after
              (Wider-tables
                (λ id. Laws.exists-append_left (λ (u : UserRow). u.id == id) db.users (row ∷ []))
                (λ id h. h) (λ id h. h) refl refl (omega arith))
              i)
      | inr (r, e) ↦
          let merge = merge_user display_name email grant_admin in
          let after : Db = record db { users = update (same_identity oidc) merge db.users } in
          let kept : (id : Key) → HasUser db id → HasUser after id = λ id h. rw (
            Laws.exists-update (same_identity oidc) (λ (u : UserRow). u.id == id) merge db.users
                (λ u. refl),
            h,
          ) in
          rw (e, upsert)
            (widen db after (Wider-tables kept (λ id h. h) (λ id h. h) refl refl (omega arith)) i)
    ]

with_flock-Intact :
    (candidate : Text) (generation : KeyGeneration) (owner : Key) (label : Option Text) (db : Db)
    → HasUser db owner
    → Intact db
    → Intact (with_flock candidate generation owner label db)
with_flock-Intact candidate generation owner label db known i =
    let (f, d, s, c, o, n) =
      widen db (with_flock candidate generation owner label db)
        (Wider-tables (λ id h. h)
          (λ id. Laws.exists-append_left (λ (x : FlockRow). x.id == id) db.flocks _) (λ id h. h)
          refl refl (omega arith))
        i in
    (All-append _ db.flocks _ f (known, tt), d, s, c, o, n)

pub create_flock-Intact :
    (draw : ℕ → List ℕ) (owner : Key) (generation : KeyGeneration) (label : Option FlockLabel)
    (db : Db)
    → Intact db
    → Intact (create_flock draw owner generation label db).1
unfolding create_flock
create_flock-Intact draw owner generation label db i =
    let text = map_option (λ l. l.as_str) label in
    draw_flock-kept Intact draw owner generation text
      (λ k candidate later d g x. with_flock-Intact candidate generation owner text later) 64 db i

-- A `duck` and a `user` that `known` found.
known-both :
    (duck user : Key) (db : Db) → known duck user db ≡ true → HasDuck db duck × HasUser db user
known-both duck user db h = ground arith

pub add_comment-Intact :
    (duck user : Key) (body : CommentBody) (db : Db)
    → Intact db
    → Intact (add_comment duck user body db).1
unfolding add_comment
add_comment-Intact duck user body db i = elim (Bool-cases (known duck user db)) [
  | inr e ↦ rw e i
  | inl e ↦
      let (f, d, s, c, o, n) =
        widen db (record db { next_id = suc db.next_id })
          (alike refl refl refl refl refl (omega arith)) i in
      rw e (f, d, s, All-append _ db.comments _ c (known-both duck user db e, tt), o, n)
]

pub delete_comment-Intact :
    (comment duck : Key) (db : Db) → Intact db → Intact (delete_comment comment duck db).1
unfolding delete_comment
delete_comment-Intact comment duck db (f, d, s, c, o, n) =
    (f, d, s, Laws.All-delete _ db.comments (λ r h _. h) c, o, n)

pub add_follow-All :
    (P : FollowRow → Type 0) (user duck : Key) (now : Timestamp) (fs : List FollowRow)
    → All P fs
    → P (record { user_id = user; duck_id = duck; created_at = now })
    → All P (add_follow user duck now fs)
add_follow-All P user duck now fs h p = elim (Bool-cases (exists (follows_duck user duck) fs)) [
  | inl e ↦ rw e h
  | inr e ↦ rw e (All-append P fs _ h (p, tt))
]

pub follow-Intact : (user duck : Key) (db : Db) → Intact db → Intact (follow user duck db).1
unfolding follow
follow-Intact user duck db (f, d, s, c, o, n) = elim (Bool-cases (known duck user db)) [
  | inr e ↦ rw e (f, d, s, c, o, n)
  | inl e ↦
      rw e
        (f, d, s, c, add_follow-All _ user duck db.now db.follows o (known-both duck user db e), n)
]

pub unfollow-Intact : (user duck : Key) (db : Db) → Intact db → Intact (unfollow user duck db).1
unfolding unfollow
unfollow-Intact user duck db (f, d, s, c, o, n) =
    (f, d, s, c, Laws.All-delete _ db.follows (λ r h _. h) o, n)

pub mark_all_read-Intact : (user : Key) (db : Db) → Intact db → Intact (mark_all_read user db).1
unfolding mark_all_read
mark_all_read-Intact user db (f, d, s, c, o, n) = (
  f,
  d,
  s,
  c,
  o,
  Laws.All-update (unread_of user) (λ r. record r { read_at = some db.now }) db.notifications
      (λ r h. h) (λ r h _. h) n,
)

pub put_flow-Intact : (flow : StoredLoginFlow) (db : Db) → Intact db → Intact (put_flow flow db).1
unfolding put_flow
put_flow-Intact flow db i =
    elim (Bool-cases (
      exists (λ f. text_eq f.state flow.state)
        (delete (λ f. ltb (f.created_at + flow_life) db.now) db.flows))) [
          | inl e ↦ rw e i
          | inr e ↦ rw e i
        ]

pub take_flow-Intact : (state : Text) (db : Db) → Intact db → Intact (take_flow state db).1
unfolding take_flow
take_flow-Intact state db i = i
