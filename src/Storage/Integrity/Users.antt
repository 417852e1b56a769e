-- ===== src/Storage/Integrity/Users.antt =====
-- `AdminRepo::delete_user` (crates/storage/src/repos.rs) keeps every foreign key, and none of its
-- statements violates one.
use duck_voyage.Prelude.{◌≡◌, Bool, false, ◌==◌, ◌&&◌, ◌||◌, All, arith, Bool-cases, inl, inr}
use duck_voyage.Prelude.Tables.{exists, delete}
use duck_voyage.Prelude.Tables.Laws
use duck_voyage.Domain.Entities.{Key}
use duck_voyage.Storage.Rows.{UserRow}
use duck_voyage.Storage.Db.{NotificationRow, Db}
use duck_voyage.Storage.Admin.{
  in_flocks_of, on_duck, dangles, touches, drop_user, deletable, delete_user,
}
use duck_voyage.Storage.Integrity.{HasUser, HasDuck, NotificationLinked, Intact}
use duck_voyage.Storage.Integrity.Deletion.{stays, either, kept_notification}

module _ (user : Key) (db : Db) where
  -- What goes with the user: the ducks of the user's flocks.
  abbrev goes : Key → Bool
  goes = on_duck (in_flocks_of user db) db

  untouched :
      (n : NotificationRow)
      → NotificationLinked db n
      → dangles (λ s. s.user_id == user) db n ≡ false
      → goes n.duck_id ≡ false
      → dangles (touches user db) db n ≡ false
  untouched n (hu, hd, hs, ht, hn) mine e =
      either n.sighting_id n.duck_id (λ s. s.user_id == user) (λ s. goes s.duck_id) db.sightings
        mine (stays n.sighting_id n.duck_id goes db.sightings ht e)

  neither : (a b : Bool) → (a || b) ≡ false → (a ≡ false) × (b ≡ false)
  neither a b h = ground arith

  spared : (a b c : Bool) → (a || (b || c)) ≡ false → (a ≡ false) × (b ≡ false) × (c ≡ false)
  spared a b c h = ground arith

  -- No notification that `delete_user` leaves until it deletes the sightings is of one of them.
  pub no_dangling_user :
      Intact db → exists (dangles (touches user db) db) (drop_user user db).notifications ≡ false
  no_dangling_user (f, d, s, c, o, n) =
      let free : All (λ r. dangles (touches user db) db r ≡ false)
          (drop_user user db).notifications =
        Laws.All-delete
          (λ r. r.user_id == user || (dangles (λ x. x.user_id == user) db r || goes r.duck_id))
          db.notifications
          (λ r linked e.
            let (_, mine, off) =
              spared (r.user_id == user) (dangles (λ x. x.user_id == user) db r) (goes r.duck_id)
                e in
            untouched r linked mine off)
          n in
      Laws.exists-none (dangles (touches user db) db) (drop_user user db).notifications (λ r h. h)
        free

  after_user : Db
  after_user = record (drop_user user db) { users = delete (deletable user) db.users }

  kept_duck : (id : Key) → HasDuck db id → goes id ≡ false → HasDuck after_user id
  unfolding after_user
  kept_duck id h e = Laws.exists-delete_kept (in_flocks_of user db) (λ x. x.id == id) db.ducks e h

  kept_user : (id : Key) → HasUser db id → (id == user) ≡ false → HasUser after_user id
  unfolding after_user
  kept_user id h e =
      Laws.exists-delete_kept (deletable user) (λ x. x.id == id) db.users
        (Laws.exists-never (λ (x : UserRow). x.id == id && deletable user x) db.users
          (λ x. ground arith))
        h

  -- The tables without a user, the user's flocks and sightings, and all that hangs off them.
  drop_user-Intact : Intact db → Intact after_user
  unfolding after_user
  drop_user-Intact (f, d, s, c, o, n) = (
    Laws.All-delete (λ r. r.owner_user_id == user) db.flocks
        (λ r h e. kept_user r.owner_user_id h e) f,
    Laws.All-delete (in_flocks_of user db) db.ducks
        (λ r h e.
          Laws.exists-delete_kept (λ x. x.owner_user_id == user) (λ x. x.id == r.flock_id) db.flocks
            e h)
        d,
    Laws.All-delete (touches user db) db.sightings
        (λ r (hd, hv, hu, hn) e.
          let (mine, off) = neither (r.user_id == user) (goes r.duck_id) e in
          (kept_duck r.duck_id hd off, hv, kept_user r.user_id hu mine, hn))
        s,
    Laws.All-delete (λ r. r.user_id == user || goes r.duck_id) db.comments
        (λ r (hd, hu) e.
          let (mine, off) = neither (r.user_id == user) (goes r.duck_id) e in
          (kept_duck r.duck_id hd off, kept_user r.user_id hu mine))
        c,
    Laws.All-delete (λ r. r.user_id == user || goes r.duck_id) db.follows
        (λ r (hd, hu) e.
          let (mine, off) = neither (r.user_id == user) (goes r.duck_id) e in
          (kept_duck r.duck_id hd off, kept_user r.user_id hu mine))
        o,
    Laws.All-delete
        (λ r. r.user_id == user || (dangles (λ x. x.user_id == user) db r || goes r.duck_id))
        db.notifications
        (λ r (hu, hd, hs, ht, hn) e.
          let (told, mine, off) =
            spared (r.user_id == user) (dangles (λ x. x.user_id == user) db r) (goes r.duck_id) e in
          let away = untouched r (hu, hd, hs, ht, hn) mine off in
          let (hs', ht') =
            kept_notification (touches user db) db r.sighting_id r.duck_id away hs ht in
          (kept_user r.user_id hu told, kept_duck r.duck_id hd off, hs', ht', hn))
        n,
  )

  pub delete_user-Intact : Intact db → Intact (delete_user user db).1
  unfolding delete_user after_user
  delete_user-Intact i = elim (Bool-cases (exists (deletable user) db.users)) [
    | inl e ↦ rw (no_dangling_user i, e) (drop_user-Intact i)
    | inr e ↦ rw (no_dangling_user i, e) i
  ]
