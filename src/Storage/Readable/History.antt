-- ===== src/Storage/Readable/History.antt =====
-- The rows that sequences of calls of crates/storage/src/repos.rs leave, where the arguments of each call
-- were parsed.
use duck_voyage.Prelude.{◌+◌, Bool, Option, Bool-cases, Option-cases, inl, inr, ltb, subst}
use duck_voyage.Prelude.Text.{Text, text_eq}
use duck_voyage.Prelude.Tables.{find, exists, delete}
use duck_voyage.Prelude.Tables.Laws
use duck_voyage.Domain.BoundedText.{OidcSubject, CommentBody}
use duck_voyage.Domain.BoundedText.Trimming.{IsParsed}
use duck_voyage.Domain.Entities.{Key}
use duck_voyage.Storage.Db.{Db}
use duck_voyage.Storage.Users.{upsert, same_identity}
use duck_voyage.Storage.Social.{
  known, add_comment, delete_comment, follow, unfollow, mark_all_read, StoredLoginFlow, put_flow,
  take_flow, flow_life,
}
use duck_voyage.Storage.Admin.{
  delete_flock, delete_user, in_flock, on_duck, dangles, touches, drop_ducks, drop_user, deletable,
}
use duck_voyage.Storage.Ducks.Lifecycle.{IsParsedName}
use duck_voyage.Storage.Flocks.Draw.{IsParsedLabel}
use duck_voyage.Storage.Integrity.Reach.{
  Call, clock, upserting, creating, minting, staging, launching, hiding, locking, logging,
  removing_sighting, commenting, removing_comment, following, unfollowing, reading, putting, taking,
  removing_flock, removing_user, perform, Reach, here, next, IsSeeded,
}
use duck_voyage.Storage.Readable.{Readable}
use duck_voyage.Storage.Readable.Calls.{
  AreDraws, Encodes, IsParsedNote, IsPoint, create_flock-Readable, mint_batch-Readable,
  stage-Readable, set_sail-Readable, set_deleted-Readable, set_comments_locked-Readable,
  log-Readable, delete_sighting-Readable,
}

-- The arguments of a call that the handlers parse: the draws are base-36 digits, the codec's codes
-- parse, the texts are bounded texts, and a point is in range.
abbrev pub Parsed : Call → Type 0
Parsed (creating draw owner generation label) = AreDraws draw × IsParsedLabel label
Parsed (minting flock amount encode) = Encodes encode
Parsed (staging duck description name photo) = IsParsed 2000 description × IsParsedName name
Parsed (logging new) = IsParsedNote new.note × IsPoint new.coordinates
Parsed _ = Unit

-- Each call of a history was made with parsed arguments.
abbrev pub AllParsed : {start db : Db} → Reach start db → Type 0
AllParsed here = Unit
AllParsed (next call r e) = Parsed call × AllParsed r

upsert-Readable :
    (oidc : OidcSubject) (name email : Option Text) (grant : Bool) (db : Db)
    → Readable db
    → Readable (upsert oidc name email grant db).1
unfolding upsert
upsert-Readable oidc name email grant db h =
    elim (Option-cases (find (same_identity oidc) db.users)) [
      | inl e ↦ rw (e, upsert) h
      | inr (r, e) ↦ rw (e, upsert) h
    ]

add_comment-Readable :
    (duck user : Key) (body : CommentBody) (db : Db)
    → Readable db
    → Readable (add_comment duck user body db).1
unfolding add_comment
add_comment-Readable duck user body db h = elim (Bool-cases (known duck user db)) [
  | inl e ↦ rw e h
  | inr e ↦ rw e h
]

follow-Readable : (user duck : Key) (db : Db) → Readable db → Readable (follow user duck db).1
unfolding follow
follow-Readable user duck db h = elim (Bool-cases (known duck user db)) [
  | inl e ↦ rw e h
  | inr e ↦ rw e h
]

put_flow-Readable : (flow : StoredLoginFlow) (db : Db) → Readable db → Readable (put_flow flow db).1
unfolding put_flow
put_flow-Readable flow db h =
    elim (Bool-cases (
      exists (λ f. text_eq f.state flow.state)
        (delete (λ f. ltb (f.created_at + flow_life) db.now) db.flows))) [
          | inl e ↦ rw e h
          | inr e ↦ rw e h
        ]

delete_flock-Readable : (flock : Key) (db : Db) → Readable db → Readable (delete_flock flock db).1
unfolding delete_flock
delete_flock-Readable flock db (f, d, s) =
    let dropped = drop_ducks (in_flock flock) db in
    elim (Bool-cases
      (exists (dangles (λ x. on_duck (in_flock flock) db x.duck_id) db) dropped.notifications)) [
        | inl e ↦ rw e (f, d, s)
        | inr e ↦ rw e (
          Laws.All-delete _ db.flocks (λ r h _. h) f,
          Laws.All-delete _ db.ducks (λ r h _. h) d,
          Laws.All-delete _ db.sightings (λ r h _. h) s,
        )
      ]

delete_user-Readable : (user : Key) (db : Db) → Readable db → Readable (delete_user user db).1
unfolding delete_user
delete_user-Readable user db (f, d, s) =
    let dropped = drop_user user db in
    elim (Bool-cases (exists (dangles (touches user db) db) dropped.notifications)) [
      | inl e ↦ rw e (f, d, s)
      | inr e ↦ elim (Bool-cases (exists (deletable user) db.users)) [
        | inr k ↦ rw (e, k) (f, d, s)
        | inl k ↦
            rw (e, k)
              (
                Laws.All-delete _ db.flocks (λ r h _. h) f,
                Laws.All-delete _ db.ducks (λ r h _. h) d,
                Laws.All-delete _ db.sightings (λ r h _. h) s,
              )
      ]
    ]

perform-Readable : (call : Call) (db : Db) → Parsed call → Readable db → Readable (perform call db)
unfolding perform delete_comment unfollow mark_all_read take_flow
perform-Readable (clock now) db p h = h
perform-Readable (upserting oidc name email grant) db p h =
    upsert-Readable oidc name email grant db h
perform-Readable (creating draw owner generation label) db (drawn, parsed) h =
    create_flock-Readable draw owner generation label db drawn parsed h
perform-Readable (minting flock amount encode) db p h =
    mint_batch-Readable flock amount encode db p h
perform-Readable (staging duck description name photo) db (hd, hn) h =
    stage-Readable duck description name photo db hd hn h
perform-Readable (launching duck) db p h = set_sail-Readable duck db h
perform-Readable (hiding duck deleted) db p h = set_deleted-Readable duck deleted db h
perform-Readable (locking duck locked) db p h = set_comments_locked-Readable duck locked db h
perform-Readable (logging new) db (note, point) h = log-Readable new db note point h
perform-Readable (removing_sighting id duck) db p h = delete_sighting-Readable id duck db h
perform-Readable (commenting duck user body) db p h = add_comment-Readable duck user body db h
perform-Readable (removing_comment id duck) db p h = h
perform-Readable (following user duck) db p h = follow-Readable user duck db h
perform-Readable (unfollowing user duck) db p h = h
perform-Readable (reading user) db p h = h
perform-Readable (putting flow) db p h = put_flow-Readable flow db h
perform-Readable (taking state) db p h = h
perform-Readable (removing_flock flock) db p h = delete_flock-Readable flock db h
perform-Readable (removing_user user) db p h = delete_user-Readable user db h

IsSeeded-Readable : (db : Db) → IsSeeded db → Readable db
IsSeeded-Readable db s = rw (s.no_flocks, s.no_ducks, s.no_sightings) (tt, tt, tt)

-- However the calls of the repositories that change the tables and the moves of the clock are
-- interleaved, with arguments that were parsed, tables that were reached from seeded ones hold no
-- row of a flock, a duck or a sighting that cannot be read: each flock and sighting becomes an
-- entity, and each duck has a lifecycle, a code and a number.
pub Reach-Readable :
    {start db : Db} (reached : Reach start db) → AllParsed reached → IsSeeded start → Readable db
Reach-Readable here p s = IsSeeded-Readable _ s
Reach-Readable (next call r e) (p, ps) s =
    subst Readable e (perform-Readable call _ p (Reach-Readable r ps s))
