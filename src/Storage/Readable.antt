-- ===== src/Storage/Readable.antt =====
-- The rows that `TryFrom` (crates/storage/src/rows.rs) turns into entities, and the statements of
-- crates/storage/src/repos.rs that leave only such rows.
pub mod Calls
pub mod History
pub mod Reads
use duck_voyage.Prelude.{◌≡◌, refl, true, Option, none, some, is_some, All}
use duck_voyage.Prelude.Results.{Res, ok, map_err, traverse, >>=-eq-ok}
use duck_voyage.Prelude.Text.{Text}
use duck_voyage.Domain.Codes.{new_seq, parse_duck}
use duck_voyage.Domain.BoundedText.{DuckName, DuckDescription, PhotoRef, parse_bounded}
use duck_voyage.Domain.BoundedText.Trimming.{IsParsed, reparsed}
use duck_voyage.Domain.Entities.{Key, Timestamp, DuckDetails, DuckLifecycle, sailing}
use duck_voyage.Storage.Rows.{
  corrupt, duck, DuckRow, try_duck, try_flock, try_sighting, lifecycle_of, set_sailing,
}
use duck_voyage.Storage.Db.{Db}
use duck_voyage.Storage.Ducks.{Entry, new_row, stage_row, sail_row}
use duck_voyage.Storage.Ducks.Lifecycle.{lifecycle, IsParsedName, reparsed_name}

-- A row becomes an entity.
abbrev pub Converts {ℓ κ μ} :
    {E : Type ℓ} {A : Type κ} {B : Type μ} → (A → Res E B) → A → Type (ℓ ⊔ μ)
Converts {B} f r = (b : B) × (f r ≡ ok b)

-- The parts of a duck's row that `TryFrom` reads.
abbrev pub IsWhole : DuckRow → Type 0
IsWhole r = Converts lifecycle r × Converts parse_duck r.code × Converts new_seq r.flock_seq

-- Every flock, duck and sighting can be read.
abbrev pub Readable : Db → Type 0
Readable db =
    All (Converts try_flock) db.flocks
    × All IsWhole db.ducks
    × All (Converts try_sighting) db.sightings

pub try_duck-Converts : (r : DuckRow) → IsWhole r → Converts try_duck r
unfolding try_duck
try_duck-Converts r ((l, e), (c, h), (s, k)) = (
  record {
    id = r.id;
    code = c;
    flock_id = r.flock_id;
    seq = s;
    lifecycle = l;
    deleted_at = r.deleted_at;
    comments_locked_at = r.comments_locked_at;
    created_at = r.created_at;
  },
  rw (e, h, k) refl,
)

-- A new duck, of a number in range and a code that parses.
pub new_row-IsWhole :
    (flock : Key) (entry : Entry) (db : Db)
    → new_seq entry.0.get ≡ ok entry.0
    → parse_duck entry.1.as_str ≡ ok entry.1
    → IsWhole (new_row flock entry db)
unfolding lifecycle_of
new_row-IsWhole flock entry db h e = ((_, refl), (_, e), (_, h))

abbrev details : Timestamp → DuckDescription → Option DuckName → PhotoRef → DuckDetails
details now d name photo = record { defined_at = now; description = d; name = name; photo = photo }

pub stage_row-IsWhole :
    (now : Timestamp) (d : DuckDescription) (name : Option DuckName) (photo : PhotoRef)
    (r : DuckRow)
    → IsParsed 2000 d
    → IsParsedName name
    → IsWhole r
    → IsWhole (stage_row now d name photo r)
unfolding lifecycle_of
stage_row-IsWhole now d name photo r hd hn (l, c, s) = (
  (
    set_sailing (details now d name photo) r.set_sail_at,
    rw (reparsed 2000 d hd, reparsed_name name hn) refl,
  ),
  c,
  s,
)

sailed :
    (o s : Option Timestamp) (d k t n : Option Text) (later : Timestamp) (l : DuckLifecycle)
    → is_some o ≡ true
    → lifecycle_of o s d k t n ≡ ok l
    → (l' : DuckLifecycle) × (lifecycle_of o (some later) d k t n ≡ ok l')
unfolding lifecycle_of
sailed none s d k t n later l h e = cc
sailed (some o) s none k t n later l h e = cc
sailed (some o) s (some d) none t n later l h e = cc
sailed (some o) s (some d) (some k) none n later l h e = cc
sailed (some o) s (some d) (some k) (some t) n later l h e =
    let (b, h0, h1) = >>=-eq-ok (map_err (λ _. corrupt duck) (parse_bounded 2000 d)) _ e in
    let (m, h2, h3) =
      >>=-eq-ok (traverse (λ x. map_err (λ _. corrupt duck) (parse_bounded 80 x)) n) _ h1 in
    (
      sailing (details o b m (record { key = record { as_str = k }; content_type = t })) later,
      rw (h0, h2) refl,
    )

-- A staged duck may set sail.
pub sail_row-IsWhole :
    (now : Timestamp) (r : DuckRow)
    → is_some r.originated_at ≡ true
    → IsWhole r
    → IsWhole (sail_row now r)
sail_row-IsWhole now r h ((l, e), c, s) = (
  sailed r.originated_at r.set_sail_at r.description r.origin_photo_key r.origin_photo_content_type
      r.name now l h e,
  c,
  s,
)
