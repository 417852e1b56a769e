-- ===== src/Storage/Readable/Reads.antt =====
-- The queries of crates/storage/src/repos.rs for flocks, ducks and sightings, over rows that can be read.
use duck_voyage.Prelude.{
  ◌≡◌, refl, Bool, Option, none, some, List, [], ◌∷◌, All, ◌==◌, ◌&&◌, Option-cases, inl, inr,
}
use duck_voyage.Prelude.Results.{Res, ok, ◌>>=◌, traverse, >>=-eq-ok}
use duck_voyage.Prelude.Text.{text_eq}
use duck_voyage.Prelude.Tables.{find}
use duck_voyage.Prelude.Tables.Laws
use duck_voyage.Domain.Codes.{FlockCode, FlockSeq}
use duck_voyage.Domain.Coords.{F64, Coordinates}
use duck_voyage.Domain.Entities.{Key}
use duck_voyage.Storage.Rows.{
  RepoError, SightingRow, try_flock, try_duck, try_sighting, coordinates_of, photo_of,
}
use duck_voyage.Storage.Db.{Db}
use duck_voyage.Storage.Flocks.{collect_rows, flock_by_id, flock_by_code, flocks_for_owner}
use duck_voyage.Storage.Ducks.{duck_by_id, by_flock_and_seq}
use duck_voyage.Storage.Sightings.{sighting_by_id}
use duck_voyage.Storage.Views.{zipped, view_sighting, sightings_for_duck, for_flock}
use duck_voyage.Storage.Boards.Order.{sort-All}
use duck_voyage.Storage.Integrity.Reach.{Reach, IsSeeded}
use duck_voyage.Storage.Readable.{Converts, Readable, try_duck-Converts}
use duck_voyage.Storage.Readable.History.{AllParsed, Reach-Readable}

-- A query gives a value.
abbrev pub Succeeds {ℓ κ} : {E : Type ℓ} {A : Type κ} → Res E A → Type (ℓ ⊔ κ)
Succeeds {A} m = (a : A) × (m ≡ ok a)

pub >>=-Succeeds {ℓ κ μ} :
    {E : Type ℓ} {A : Type κ} {B : Type μ} (m : Res E A) (f : A → Res E B)
    → Succeeds m
    → ((a : A) → Succeeds (f a))
    → Succeeds (m >>= f)
>>=-Succeeds m f (a, e) h = rw e (h a)

module _ {A B : Type 0} (f : A → Res RepoError B) where
  traverse-Succeeds :
      (test : A → Bool) (rows : List A)
      → All (Converts f) rows
      → Succeeds (traverse f (find test rows))
  traverse-Succeeds test rows h = elim (Option-cases (find test rows)) [
    | inl e ↦ (none, rw e refl)
    | inr (r, e) ↦
        let (b, k) = Laws.find-All test (Converts f) rows r h e in (some b, rw (e, k) refl)
  ]

  pub collect_rows-Succeeds :
      (rows : List A) → All (Converts f) rows → Succeeds (collect_rows f rows)
  collect_rows-Succeeds [] h = ([], refl)
  collect_rows-Succeeds (r ∷ rows) ((b, e), h) =
      let (bs, k) = collect_rows-Succeeds rows h in (b ∷ bs, rw (e, k) refl)

zipped-Succeeds :
    (lat lon : Option F64) (c : Option Coordinates)
    → coordinates_of lat lon ≡ ok c
    → Succeeds (zipped lat lon)
zipped-Succeeds none none c e = (none, refl)
zipped-Succeeds none (some lon) c e = (none, refl)
zipped-Succeeds (some lat) none c e = (none, refl)
zipped-Succeeds (some lat) (some lon) c e = (c, e)

view_sighting-Converts :
    (db : Db) (r : SightingRow) → Converts try_sighting r → Converts (view_sighting db) r
unfolding try_sighting
view_sighting-Converts db r (s, e) =
    let (photo, h1, k1) = >>=-eq-ok (photo_of r.photo_key r.photo_content_type) _ e in
    let (point, h2, k2) = >>=-eq-ok (coordinates_of r.latitude r.longitude) _ k1 in
    >>=-Succeeds (zipped r.latitude r.longitude) _ (zipped-Succeeds r.latitude r.longitude point h2)
      (λ c. (_, refl))

module _ (db : Db) (readable : Readable db) where
  flock_by_id-Succeeds : (id : Key) → Succeeds (flock_by_id id db)
  unfolding flock_by_id
  flock_by_id-Succeeds id = traverse-Succeeds try_flock (λ r. r.id == id) db.flocks readable.0

  pub flock_by_code-Succeeds : (code : FlockCode) → Succeeds (flock_by_code code db)
  unfolding flock_by_code
  flock_by_code-Succeeds code =
      traverse-Succeeds try_flock (λ r. text_eq r.flock_code code.as_str) db.flocks readable.0

  flocks_for_owner-Succeeds : (owner : Key) → Succeeds (flocks_for_owner owner db)
  unfolding flocks_for_owner
  flocks_for_owner-Succeeds owner =
      collect_rows-Succeeds try_flock _
        (Laws.All-select (λ r. r.owner_user_id == owner) db.flocks (λ r h e. h) readable.0)

  ducks : All (Converts try_duck) db.ducks
  ducks = Laws.All-map db.ducks try_duck-Converts readable.1

  duck_by_id-Succeeds : (id : Key) → Succeeds (duck_by_id id db)
  unfolding duck_by_id
  duck_by_id-Succeeds id = traverse-Succeeds try_duck (λ r. r.id == id) db.ducks ducks

  pub by_flock_and_seq-Succeeds :
      (flock : Key) (seq : FlockSeq) → Succeeds (by_flock_and_seq flock seq db)
  unfolding by_flock_and_seq
  by_flock_and_seq-Succeeds flock seq =
      traverse-Succeeds try_duck (λ r. r.flock_id == flock && r.flock_seq == seq.get) db.ducks ducks

  for_flock-Succeeds : (flock : Key) → Succeeds (for_flock flock db)
  unfolding for_flock
  for_flock-Succeeds flock = collect_rows-Succeeds _ _ (
      sort-All _ _ _ (
        Laws.All-select (λ d. d.flock_id == flock) db.ducks
          (λ r h e. >>=-Succeeds (try_duck r) _ h (λ d. (_, refl))) ducks))

  sighting_by_id-Succeeds : (id : Key) → Succeeds (sighting_by_id id db)
  unfolding sighting_by_id
  sighting_by_id-Succeeds id =
      traverse-Succeeds try_sighting (λ r. r.id == id) db.sightings readable.2

  sightings_for_duck-Succeeds : (duck : Key) → Succeeds (sightings_for_duck duck db)
  unfolding sightings_for_duck
  sightings_for_duck-Succeeds duck = collect_rows-Succeeds (view_sighting db) _ (
      sort-All _ _ _ (
        Laws.All-select (λ s. s.duck_id == duck) db.sightings
          (λ r h e. view_sighting-Converts db r h) readable.2))

-- In tables that were reached from seeded ones by calls with parsed arguments, the queries for a
-- flock by id or code, the flocks of an owner, a duck by id or by flock and number, the ducks of a
-- flock, a sighting by id and the sightings of a duck all give a value, for every argument; none
-- of these eight reports a corrupt row.
pub Reach-reads :
    {start db : Db} (reached : Reach start db)
    → AllParsed reached
    → IsSeeded start
    → ((id : Key) → Succeeds (flock_by_id id db))
      × ((code : FlockCode) → Succeeds (flock_by_code code db))
      × ((owner : Key) → Succeeds (flocks_for_owner owner db))
      × ((id : Key) → Succeeds (duck_by_id id db))
      × ((flock : Key) (seq : FlockSeq) → Succeeds (by_flock_and_seq flock seq db))
      × ((flock : Key) → Succeeds (for_flock flock db))
      × ((id : Key) → Succeeds (sighting_by_id id db))
      × ((duck : Key) → Succeeds (sightings_for_duck duck db))
Reach-reads {db} reached parsed seeded =
    let h = Reach-Readable reached parsed seeded in
    (
      flock_by_id-Succeeds db h,
      flock_by_code-Succeeds db h,
      flocks_for_owner-Succeeds db h,
      duck_by_id-Succeeds db h,
      by_flock_and_seq-Succeeds db h,
      for_flock-Succeeds db h,
      sighting_by_id-Succeeds db h,
      sightings_for_duck-Succeeds db h,
    )
