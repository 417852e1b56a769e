-- ===== src/Storage/Integrity/Growth.antt =====
-- The statements of crates/storage/src/repos.rs that add rows or change columns keep every foreign key.
use duck_voyage.Prelude.{◌≡◌, ◌<◌, ◌≤◌, true, false, arith}
use duck_voyage.Prelude.Tables.{exists}
use duck_voyage.Prelude.Tables.Laws
use duck_voyage.Domain.Entities.{Key}
use duck_voyage.Storage.Db.{Db}
use duck_voyage.Storage.Sightings.{of_duck}
use duck_voyage.Storage.Integrity.{HasUser, HasFlock, HasDuck, HasVessel, strays, Linked, Intact}

-- Every row that `a` has to offer to a foreign key, `b` offers too.
pub record Wider (a b : Db) : Type 0 where
  pub users : (id : Key) → HasUser a id → HasUser b id
  pub flocks : (id : Key) → HasFlock a id → HasFlock b id
  pub ducks : (id : Key) → HasDuck a id → HasDuck b id
  pub vessels : (id : Key) → HasVessel a id → HasVessel b id
  pub named :
      (s d : Key)
      → exists (of_duck s d) a.sightings ≡ true
      → exists (of_duck s d) b.sightings ≡ true
  pub strange :
      (s d : Key)
      → s < a.next_id
      → exists (strays s d) a.sightings ≡ false
      → exists (strays s d) b.sightings ≡ false
  pub next : a.next_id ≤ b.next_id

pub widen : (a b : Db) → Wider a b → Intact a → Linked b a
widen a b w (f, d, s, c, o, n) =
    let next : a.next_id ≤ b.next_id = w.next in
    (
      Laws.All-map a.flocks (λ r h. w.users r.owner_user_id h) f,
      Laws.All-map a.ducks (λ r h. w.flocks r.flock_id h) d,
      Laws.All-map a.sightings
          (λ r (hd, hv, hu, hn).
            (w.ducks r.duck_id hd, w.vessels r.vessel_id hv, w.users r.user_id hu, omega arith))
          s,
      Laws.All-map a.comments (λ r (hd, hu). (w.ducks r.duck_id hd, w.users r.user_id hu)) c,
      Laws.All-map a.follows (λ r (hd, hu). (w.ducks r.duck_id hd, w.users r.user_id hu)) o,
      Laws.All-map a.notifications
          (λ r (hu, hd, hs, ht, hn). (
            w.users r.user_id hu,
            w.ducks r.duck_id hd,
            w.named r.sighting_id r.duck_id hs,
            w.strange r.sighting_id r.duck_id hn ht,
            omega arith,
          ))
          n,
    )

-- The sightings and vessels stay, and nothing else that a foreign key names is lost.
pub Wider-tables :
    {a b : Db}
    → ((id : Key) → HasUser a id → HasUser b id)
    → ((id : Key) → HasFlock a id → HasFlock b id)
    → ((id : Key) → HasDuck a id → HasDuck b id)
    → b.vessels ≡ a.vessels
    → b.sightings ≡ a.sightings
    → a.next_id ≤ b.next_id
    → Wider a b
Wider-tables hu hf hd v s n = record {
  users = hu;
  flocks = hf;
  ducks = hd;
  vessels = λ id h. rw (v, h);
  named = λ x d h. rw (s, h);
  strange = λ x d low h. rw (s, h);
  next = n;
}

-- Tables that differ in rows that nothing refers to, and in the clock.
pub alike :
    {a b : Db}
    → b.users ≡ a.users
    → b.flocks ≡ a.flocks
    → b.ducks ≡ a.ducks
    → b.vessels ≡ a.vessels
    → b.sightings ≡ a.sightings
    → a.next_id ≤ b.next_id
    → Wider a b
alike u f d v s n = Wider-tables (λ id h. rw (u, h)) (λ id h. rw (f, h)) (λ id h. rw (d, h)) v s n
