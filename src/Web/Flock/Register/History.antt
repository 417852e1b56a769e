-- ===== src/Web/Flock/Register/History.antt =====
-- Minting (crates/web/src/handlers/flock.rs over crates/storage/src/repos.rs) in tables that sequences of
-- calls lead to.
use duck_voyage.Prelude.{
  ◌≡◌, suc, ◌+◌, Bool, Option, some, ◌==◌, arith, subst, ltb, Bool-cases, Option-cases, inl, inr,
}
use duck_voyage.Prelude.Text.{Text, text_eq}
use duck_voyage.Prelude.Tables.{find, exists, delete}
use duck_voyage.Domain.Codec.{Ff1, DuckCodec, get}
use duck_voyage.Domain.BoundedText.{OidcSubject, CommentBody}
use duck_voyage.Domain.Entities.{Key}
use duck_voyage.Storage.Rows.{DuckRow, FlockRow}
use duck_voyage.Storage.Db.{Db}
use duck_voyage.Storage.Users.{upsert, same_identity}
use duck_voyage.Storage.Ducks.{
  stage, set_sail, set_deleted, set_comments_locked, update_duck, can_stage, stage_row, can_sail,
  sail_row, toggled,
}
use duck_voyage.Storage.Sightings.{NewSighting, references, log, delete_sighting}
use duck_voyage.Storage.Social.{
  known, add_comment, delete_comment, follow, unfollow, mark_all_read, StoredLoginFlow, put_flow,
  take_flow, flow_life,
}
use duck_voyage.Storage.Admin.{
  delete_flock, delete_user, in_flock, in_flocks_of, on_duck, dangles, touches, drop_ducks,
  drop_user, deletable,
}
use duck_voyage.Storage.Flocks.Draw.{IsParsedLabel}
use duck_voyage.Storage.Integrity.Reach.{
  Call, clock, upserting, creating, minting, staging, launching, hiding, locking, logging,
  removing_sighting, commenting, removing_comment, following, unfollowing, reading, putting, taking,
  removing_flock, removing_user, perform, Reach, here, next, IsSeeded,
}
use duck_voyage.Storage.Readable.Calls.{AreDraws}
use duck_voyage.Web.Flock.Register.{Seated, Register}
use duck_voyage.Web.Flock.Register.Kept.{
  grow, prune, amend, create_flock-Register, Mints, mint_batch-Register,
}

module _ (fpe : Ff1) (codec : DuckCodec fpe) where
  -- A call as the handlers make it, as far as codes are concerned: a flock is created under a
  -- generation with a key, and a mint is for a stored flock, by the codes of that flock.
  abbrev pub Handled : Call → Db → Type 0
  Handled (creating draw owner generation label) db =
      AreDraws draw
      × IsParsedLabel label
      × ((c : fpe.Cipher) × (get generation codec.ciphers ≡ some c))
  Handled (minting flock amount encode) db = Mints fpe codec flock encode db
  Handled _ db = Unit

  -- Each call of a history was made so.
  abbrev pub AllHandled : {start db : Db} → Reach start db → Type 0
  AllHandled here = Unit
  AllHandled (next {now} call r e) = Handled call now × AllHandled r

  upsert-Register :
      (oidc : OidcSubject) (name email : Option Text) (grant : Bool) (db : Db)
      → Register fpe codec db
      → Register fpe codec (upsert oidc name email grant db).1
  unfolding upsert
  upsert-Register oidc name email grant db h =
      elim (Option-cases (find (same_identity oidc) db.users)) [
        | inl e ↦
            rw (e, upsert)
              (grow fpe codec db.next_id (suc db.next_id) db.flocks db.ducks (omega arith) h)
        | inr (r, e) ↦ rw (e, upsert) h
      ]

  add_comment-Register :
      (duck user : Key) (body : CommentBody) (db : Db)
      → Register fpe codec db
      → Register fpe codec (add_comment duck user body db).1
  unfolding add_comment
  add_comment-Register duck user body db h = elim (Bool-cases (known duck user db)) [
    | inl e ↦ rw e (grow fpe codec db.next_id (suc db.next_id) db.flocks db.ducks (omega arith) h)
    | inr e ↦ rw e h
  ]

  follow-Register :
      (user duck : Key) (db : Db)
      → Register fpe codec db
      → Register fpe codec (follow user duck db).1
  unfolding follow
  follow-Register user duck db h = elim (Bool-cases (known duck user db)) [
    | inl e ↦ rw e h
    | inr e ↦ rw e h
  ]

  put_flow-Register :
      (flow : StoredLoginFlow) (db : Db)
      → Register fpe codec db
      → Register fpe codec (put_flow flow db).1
  unfolding put_flow
  put_flow-Register flow db h =
      elim (Bool-cases (
        exists (λ f. text_eq f.state flow.state)
          (delete (λ f. ltb (f.created_at + flow_life) db.now) db.flows))) [
            | inl e ↦ rw e h
            | inr e ↦ rw e h
          ]

  log-Register :
      (new : NewSighting) (db : Db) → Register fpe codec db → Register fpe codec (log new db).1
  unfolding log
  log-Register new db h = elim (Bool-cases (references new db)) [
    | inr e ↦ rw e h
    | inl e ↦ rw e (grow fpe codec db.next_id _ db.flocks db.ducks (omega arith) h)
  ]

  -- Rows that are deleted take nothing from the register of the others.
  pruned :
      (p : FlockRow → Bool) (q : DuckRow → Bool) (db : Db)
      → Register fpe codec db
      → Register fpe codec (record db { flocks = delete p db.flocks; ducks = delete q db.ducks })
  pruned p q db = prune fpe codec p q db.next_id db.flocks db.ducks

  delete_flock-Register :
      (flock : Key) (db : Db) → Register fpe codec db → Register fpe codec (delete_flock flock db).1
  unfolding delete_flock
  delete_flock-Register flock db h =
      let dropped = drop_ducks (in_flock flock) db in
      elim (Bool-cases
        (exists (dangles (λ x. on_duck (in_flock flock) db x.duck_id) db) dropped.notifications)) [
          | inl e ↦ rw e h
          | inr e ↦ rw e (pruned (λ f. f.id == flock) (in_flock flock) db h)
        ]

  delete_user-Register :
      (user : Key) (db : Db) → Register fpe codec db → Register fpe codec (delete_user user db).1
  unfolding delete_user
  delete_user-Register user db h =
      let dropped = drop_user user db in
      elim (Bool-cases (exists (dangles (touches user db) db) dropped.notifications)) [
        | inl e ↦ rw e h
        | inr e ↦ elim (Bool-cases (exists (deletable user) db.users)) [
          | inr k ↦ rw (e, k) h
          | inl k ↦ rw (e, k) (pruned (λ f. f.owner_user_id == user) (in_flocks_of user db) db h)
        ]
      ]

  updated :
      (test : DuckRow → Bool) (g : DuckRow → DuckRow) (db : Db)
      → ((d : DuckRow)
          → Seated fpe codec db.next_id db.flocks d
          → Seated fpe codec db.next_id db.flocks (g d))
      → Register fpe codec db
      → Register fpe codec (update_duck test g db).1
  unfolding update_duck
  updated test g db = amend fpe codec test g db.next_id db.flocks db.ducks

  perform-Register :
      (call : Call) (db : Db)
      → Handled call db
      → Register fpe codec db
      → Register fpe codec (perform call db)
  unfolding perform stage set_sail set_deleted set_comments_locked delete_sighting delete_comment
      unfollow mark_all_read take_flow
  perform-Register (clock now) db p h = h
  perform-Register (upserting oidc name email grant) db p h =
      upsert-Register oidc name email grant db h
  perform-Register (creating draw owner generation label) db (drawn, parsed, (c, keyed)) h =
      create_flock-Register fpe codec draw owner generation label db drawn parsed c keyed h
  perform-Register (minting flock amount encode) db p h =
      mint_batch-Register fpe codec flock amount encode db p h
  perform-Register (staging duck description name photo) db p h =
      updated (can_stage duck) (stage_row db.now description name photo) db (λ d k. k) h
  perform-Register (launching duck) db p h =
      updated (can_sail duck) (sail_row db.now) db (λ d k. k) h
  perform-Register (hiding duck deleted) db p h =
      updated (λ r. r.id == duck)
        (λ r. record r { deleted_at = toggled deleted db.now r.deleted_at }) db (λ d k. k) h
  perform-Register (locking duck locked) db p h =
      updated (λ r. r.id == duck)
        (λ r. record r { comments_locked_at = toggled locked db.now r.comments_locked_at }) db
        (λ d k. k) h
  perform-Register (logging new) db p h = log-Register new db h
  perform-Register (removing_sighting id duck) db p h = h
  perform-Register (commenting duck user body) db p h = add_comment-Register duck user body db h
  perform-Register (removing_comment id duck) db p h = h
  perform-Register (following user duck) db p h = follow-Register user duck db h
  perform-Register (unfollowing user duck) db p h = h
  perform-Register (reading user) db p h = h
  perform-Register (putting flow) db p h = put_flow-Register flow db h
  perform-Register (taking state) db p h = h
  perform-Register (removing_flock flock) db p h = delete_flock-Register flock db h
  perform-Register (removing_user user) db p h = delete_user-Register user db h

  pub Reach-Register :
      {start db : Db} (reached : Reach start db)
      → AllHandled reached
      → IsSeeded start
      → Register fpe codec db
  Reach-Register here p s = rw (s.no_flocks, s.no_ducks) (tt, tt, tt)
  Reach-Register (next call r e) (p, ps) s =
      subst (Register fpe codec) e (perform-Register call _ p (Reach-Register r ps s))
