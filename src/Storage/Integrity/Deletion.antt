-- ===== src/Storage/Integrity/Deletion.antt =====
-- `AdminRepo::delete_flock` (crates/storage/src/repos.rs) keeps every foreign key, and none of its
-- statements violates one.
use duck_voyage.Prelude.{
  ==→eq, ◌≡◌, refl, Bool, true, false, List, [], ◌∷◌, ◌==◌, ◌&&◌, ◌||◌, All, arith, Bool-cases, inl,
  inr,
}
use duck_voyage.Prelude.Tables.{exists, delete}
use duck_voyage.Prelude.Tables.Laws
use duck_voyage.Domain.Entities.{Key}
use duck_voyage.Storage.Rows.{SightingRow}
use duck_voyage.Storage.Db.{Db}
use duck_voyage.Storage.Sightings.{of_duck}
use duck_voyage.Storage.Admin.{in_flock, on_duck, dangles, drop_ducks, delete_flock}
use duck_voyage.Storage.Integrity.{HasDuck, strays, Intact}

module _ (id duck : Key) where
  -- Where a duck stays, no sighting of the notification's id is of a duck that goes.
  pub stays :
      (gone : Key → Bool) (ss : List SightingRow)
      → exists (strays id duck) ss ≡ false
      → gone duck ≡ false
      → exists (λ s. s.id == id && gone s.duck_id) ss ≡ false
  stays gone [] h e = refl
  stays gone (s ∷ ss) h e = elim (Bool-cases (s.duck_id == duck)) [
    | inl same ↦
        let off : gone s.duck_id ≡ false = rw (==→eq s.duck_id duck same) e in
        ground (arith, stays gone ss)
    | inr other ↦ ground (arith, stays gone ss)
  ]

  pub either :
      (p q : SightingRow → Bool) (ss : List SightingRow)
      → exists (λ s. s.id == id && p s) ss ≡ false
      → exists (λ s. s.id == id && q s) ss ≡ false
      → exists (λ s. s.id == id && (p s || q s)) ss ≡ false
  either p q [] h e = refl
  either p q (s ∷ ss) h e = ground (arith, either p q ss)

  narrow :
      (p : SightingRow → Bool) (ss : List SightingRow)
      → exists (λ s. s.id == id && p s) ss ≡ false
      → exists (λ s. of_duck id duck s && p s) ss ≡ false
  narrow p [] h = refl
  narrow p (s ∷ ss) h = ground (arith, narrow p ss)

-- What a notification that stays keeps, where the sightings under a test go.
pub kept_notification :
    (p : SightingRow → Bool) (db : Db) (id duck : Key)
    → exists (λ s. s.id == id && p s) db.sightings ≡ false
    → exists (of_duck id duck) db.sightings ≡ true
    → exists (strays id duck) db.sightings ≡ false
    → let after = delete p db.sightings in
      (exists (of_duck id duck) after ≡ true) × (exists (strays id duck) after ≡ false)
kept_notification p db id duck h named strange = (
  Laws.exists-delete_kept p (of_duck id duck) db.sightings (narrow id duck p db.sightings h) named,
  Laws.exists-delete_none p (strays id duck) db.sightings strange,
)

-- A row of another id is found after rows of one id go.
pub apart : (x a b : Key) → (a == b) ≡ false → (x == a && x == b) ≡ false
apart x a b h = ground arith

-- No notification that `delete_flock` leaves until it deletes the sightings is of one of them.
pub no_dangling_flock :
    (flock : Key) (db : Db)
    → Intact db
    → exists
        (dangles (λ s. on_duck (in_flock flock) db s.duck_id) db)
        (drop_ducks (in_flock flock) db).notifications
      ≡ false
no_dangling_flock flock db (f, d, s, c, o, n) =
    let gone : Key → Bool = on_duck (in_flock flock) db in
    let hangs = dangles (λ s. gone s.duck_id) db in
    let free : All (λ r. hangs r ≡ false) (drop_ducks (in_flock flock) db).notifications =
      Laws.All-delete (λ r. gone r.duck_id) db.notifications
        (λ r (hu, hd, hs, ht, hn). stays r.sighting_id r.duck_id gone db.sightings ht) n in
    Laws.exists-none hangs (drop_ducks (in_flock flock) db).notifications (λ r h. h) free

-- The tables without a flock, its ducks and all that hangs off them.
pub drop_flock-Intact :
    (flock : Key) (db : Db)
    → Intact db
    → Intact
        (record (drop_ducks (in_flock flock) db) { flocks = delete (λ f. f.id == flock) db.flocks })
drop_flock-Intact flock db (f, d, s, c, o, n) =
    let test = in_flock flock in
    let gone : Key → Bool = on_duck test db in
    let after : Db = record (drop_ducks test db) {
      flocks = delete (λ f. f.id == flock) db.flocks;
    } in
    let kept : (id : Key) → HasDuck db id → gone id ≡ false → HasDuck after id =
      λ id h e. Laws.exists-delete_kept test (λ x. x.id == id) db.ducks e h in
    (
      Laws.All-delete (λ r. r.id == flock) db.flocks (λ r h _. h) f,
      Laws.All-delete test db.ducks
          (λ r h e.
            Laws.exists-delete_kept (λ x. x.id == flock) (λ x. x.id == r.flock_id) db.flocks
              (Laws.exists-never (λ x. x.id == r.flock_id && x.id == flock) db.flocks
                (λ x. apart x.id r.flock_id flock e))
              h)
          d,
      Laws.All-delete (λ r. gone r.duck_id) db.sightings
          (λ r (hd, hv, hu, hn) e. (kept r.duck_id hd e, hv, hu, hn)) s,
      Laws.All-delete (λ r. gone r.duck_id) db.comments (λ r (hd, hu) e. (kept r.duck_id hd e, hu))
          c,
      Laws.All-delete (λ r. gone r.duck_id) db.follows (λ r (hd, hu) e. (kept r.duck_id hd e, hu))
          o,
      Laws.All-delete (λ r. gone r.duck_id) db.notifications
          (λ r (hu, hd, hs, ht, hn) e.
            let away = stays r.sighting_id r.duck_id gone db.sightings ht e in
            let (hs', ht') =
              kept_notification (λ x. gone x.duck_id) db r.sighting_id r.duck_id away hs ht in
            (hu, kept r.duck_id hd e, hs', ht', hn))
          n,
    )

pub delete_flock-Intact : (flock : Key) (db : Db) → Intact db → Intact (delete_flock flock db).1
unfolding delete_flock
delete_flock-Intact flock db i = rw (no_dangling_flock flock db i) (drop_flock-Intact flock db i)
