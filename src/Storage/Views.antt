-- ===== src/Storage/Views.antt =====
-- The read models of crates/storage/src/summaries.rs that a duck's page and the flock dashboard show,
-- and the queries of crates/storage/src/repos.rs that fill them.
use duck_voyage.Prelude.{
  ℕ, Bool, Option, none, some, is_some, List, [], ◌∷◌, ◌==◌, ltb, if◌then◌else◌, map, map_option,
  and_then,
}
use duck_voyage.Prelude.Results.{Res, ok, ◌>>=◌, map_err}
use duck_voyage.Prelude.Text.{Text}
use duck_voyage.Prelude.Tables.{find, select, count}
use duck_voyage.Domain.Coords.{F64, Coordinates, new_coordinates}
use duck_voyage.Domain.Entities.{Timestamp, Key, Duck}
use duck_voyage.Storage.Rows.{
  RepoError, corrupt, sighting, DuckRow, SightingRow, VesselRow, try_duck,
}
use duck_voyage.Storage.Db.{CommentRow, OperatorRow, LineRow, Db}
use duck_voyage.Storage.Flocks.{collect_rows}

-- ORDER BY key, with rows of one key in the order of the table.
module _ {A : Type 0} (before : A → A → Bool) where
  unfoldable pub place : A → List A → List A
  place a [] = a ∷ []
  place a (b ∷ bs) = if before b a then b ∷ place a bs else a ∷ b ∷ bs

  unfoldable pub sort : List A → List A
  unfolding place
  sort [] = []
  sort (a ∷ as') = place a (sort as')

pub record SightingView : Type 0 where
  pub id : Key
  pub seen_at : Timestamp
  pub vessel_name : Text
  pub by_display_name : Option Text
  pub note : Option Text
  pub has_photo : Bool
  pub coordinates : Option Coordinates
  pub created_at : Timestamp

-- `latitude.zip(longitude)`, range-checked.
abbrev pub zipped : Option F64 → Option F64 → Res RepoError (Option Coordinates)
zipped (some lat) (some lon) =
    map_err (λ _. corrupt sighting) (new_coordinates lat lon) >>= λ c. ok (some c)
zipped _ _ = ok none

abbrev pub user_name : Key → Db → Option Text
user_name id db = and_then (find (λ u. u.id == id) db.users) (λ u. u.display_name)

abbrev pub vessel_name : Key → Db → Text
vessel_name id db = elim (find (λ v. v.id == id) db.vessels) [ none ↦ [] | some v ↦ v.name ]

abbrev pub view_sighting : Db → SightingRow → Res RepoError SightingView
view_sighting db r = zipped r.latitude r.longitude >>= λ coordinates. ok (record {
  id = r.id;
  seen_at = r.seen_at;
  vessel_name = vessel_name r.vessel_id db;
  by_display_name = user_name r.user_id db;
  note = r.note;
  has_photo = is_some r.photo_key;
  coordinates = coordinates;
  created_at = r.created_at;
})

-- `SightingRepo::for_duck`, newest first. The foreign keys make both joins find one row.
unfoldable pub sightings_for_duck : Key → Db → Res RepoError (List SightingView)
unfolding sort
sightings_for_duck duck db = collect_rows (view_sighting db) (
    sort (λ (a b : SightingRow). ltb b.seen_at a.seen_at)
      (select (λ s. s.duck_id == duck) db.sightings))

pub record CommentView : Type 0 where
  pub id : Key
  pub by_display_name : Option Text
  pub body : Text
  pub created_at : Timestamp

-- `CommentRepo::for_duck`, oldest first.
unfoldable pub comments_for_duck : Key → Db → Res RepoError (List CommentView)
unfolding sort
comments_for_duck duck db = ok (
    map
      (λ (c : CommentRow). record {
        id = c.id;
        by_display_name = user_name c.user_id db;
        body = c.body;
        created_at = c.created_at;
      })
      (sort (λ (a b : CommentRow). ltb a.created_at b.created_at)
        (select (λ c. c.duck_id == duck) db.comments)))

pub record FlockDuckStatus : Type 0 where
  pub duck : Duck
  pub sighting_count : ℕ

-- `DuckRepo::for_flock`
unfoldable pub for_flock : Key → Db → Res RepoError (List FlockDuckStatus)
unfolding sort
for_flock flock db =
    collect_rows
      (λ r. try_duck r >>= λ d.
        ok (record { duck = d; sighting_count = count (λ s. s.duck_id == r.id) db.sightings }))
      (sort (λ (a b : DuckRow). ltb a.flock_seq b.flock_seq)
        (select (λ d. d.flock_id == flock) db.ducks))

pub record VesselOption : Type 0 where
  pub id : Key
  pub name : Text
  pub line : Option Text

abbrev pub line_of : Db → VesselRow → Option Text
line_of db v =
    and_then (find (λ (o : OperatorRow). o.vessel_id == v.id) db.operators)
      (λ o. map_option (λ (l : LineRow). l.name) (find (λ l. l.id == o.cruise_line_id) db.lines))

-- `VesselRepo::options`. A vessel has one current operator at most (vessel_operator_current_idx).
-- ORDER BY names follows the collation of the database, an argument here.
unfoldable pub vessel_options :
    (VesselOption → VesselOption → Bool) → Db → Res RepoError (List VesselOption)
unfolding sort
vessel_options collation db = ok (
    sort collation (
      map (λ (v : VesselRow). record { id = v.id; name = v.name; line = line_of db v }) db.vessels))
