-- ===== src/Storage/Boards.antt =====
-- The read models of crates/storage/src/summaries.rs for the front page, the missing ducks, `/me` and
-- `/admin`, and the queries of crates/storage/src/repos.rs that fill them. Rows that a query orders alike
-- come in the order of the table; SQL leaves their order open.
pub mod Order
pub mod Silence
use duck_voyage.Prelude.{
  ℕ, Bool, true, false, not, Option, none, some, is_some, List, [], ◌∷◌, ◌==◌, ◌&&◌, ◌||◌, ltb,
  if◌then◌else◌, map, map_option, and_then, take, length,
}
use duck_voyage.Prelude.Results.{Res, ok, err, ◌>>=◌, map_err}
use duck_voyage.Prelude.Text.{Text}
use duck_voyage.Prelude.Int.{ℤ, pos, negsuc}
use duck_voyage.Prelude.Tables.{find, select, count, exists}
use duck_voyage.Domain.Codes.{DuckCode, FlockCode, parse_duck, parse_flock}
use duck_voyage.Domain.Entities.{Timestamp, Key}
use duck_voyage.Storage.Rows.{
  RepoError, sql, corrupt, duck, flock, DuckRow, FlockRow, UserRow, SightingRow, VesselRow,
}
use duck_voyage.Storage.Db.{FollowRow, NotificationRow, Db}
use duck_voyage.Storage.Flocks.{collect_rows}
use duck_voyage.Storage.Views.{sort}

-- LIMIT $1; a negative limit is an error of the database.
abbrev pub limited {ℓ} : {A : Type ℓ} → ℤ → List A → Res RepoError (List A)
limited (pos n) rows = ok (take n rows)
limited (negsuc n) rows = err sql

-- COUNT(DISTINCT …)
abbrev pub distinct : List Key → List Key
distinct [] = []
distinct (k ∷ ks) = let rest = distinct ks in if exists (λ j. j == k) ks then rest else k ∷ rest

-- An inner join: the rows that have a partner, with it.
abbrev pub kept {ℓ} : {A : Type ℓ} → Option A → List A → List A
kept none rest = rest
kept (some a) rest = a ∷ rest

abbrev pub joined {ℓ κ} : {A : Type ℓ} {B : Type κ} → (A → Option B) → List A → List B
joined partner [] = []
joined partner (a ∷ rest) = kept (partner a) (joined partner rest)

abbrev pub head {ℓ} : {A : Type ℓ} → List A → Option A
head [] = none
head (a ∷ rest) = some a

pub record DuckSummary : Type 0 where
  pub code : DuckCode
  pub name : Option Text
  pub sighting_count : ℕ
  pub unique_vessels : ℕ
  pub last_seen_at : Timestamp
  pub last_vessel_name : Text

-- A row that the four lists of ducks select: the duck, its last sighting, and the vessel of it.
pub record BoardRow : Type 0 where
  pub duck : DuckRow
  pub sighting_count : ℕ
  pub unique_vessels : ℕ
  pub last : SightingRow
  pub vessel : VesselRow

abbrev pub of_this : Key → SightingRow → Bool
of_this id s = s.duck_id == id

-- ORDER BY s.seen_at DESC
abbrev pub newer : SightingRow → SightingRow → Bool
newer a b = ltb b.seen_at a.seen_at

-- JOIN LATERAL (… ORDER BY s.seen_at DESC LIMIT 1) last
unfoldable pub last_sighting : Key → Db → Option SightingRow
unfolding sort
last_sighting id db = head (sort newer (select (of_this id) db.sightings))

abbrev pub board_row : Db → DuckRow → Option BoardRow
board_row db d = and_then (last_sighting d.id db) (λ last.
    map_option
      (λ (v : VesselRow). record {
        duck = d;
        sighting_count = count (of_this d.id) db.sightings;
        unique_vessels = length (
            distinct (map (λ (s : SightingRow). s.vessel_id) (select (of_this d.id) db.sightings)));
        last = last;
        vessel = v;
      })
      (find (λ v. v.id == last.vessel_id) db.vessels))

-- FROM duck d JOIN … WHERE d.deleted_at IS NULL
unfoldable pub board : Db → List BoardRow
unfolding last_sighting
board db = joined (board_row db) (select (λ (d : DuckRow). not (is_some d.deleted_at)) db.ducks)

unfoldable pub summary : BoardRow → Res RepoError DuckSummary
summary r = map_err (λ _. corrupt duck) (parse_duck r.duck.code) >>= λ code. ok (record {
  code = code;
  name = r.duck.name;
  sighting_count = r.sighting_count;
  unique_vessels = r.unique_vessels;
  last_seen_at = r.last.seen_at;
  last_vessel_name = r.vessel.name;
})

-- ORDER BY column DESC, last.seen_at DESC
abbrev pub ahead_by : (BoardRow → ℕ) → BoardRow → BoardRow → Bool
ahead_by column a b = ltb (column b) (column a) || (column a == column b && newer a.last b.last)

-- ORDER BY last.seen_at ASC
abbrev pub longer_silent : BoardRow → BoardRow → Bool
longer_silent a b = ltb a.last.seen_at b.last.seen_at

-- `DuckRepo::most_traveled`
unfoldable pub most_traveled : ℤ → Db → Res RepoError (List DuckSummary)
unfolding board sort summary
most_traveled limit db =
    limited limit (sort (ahead_by (λ r. r.unique_vessels)) (board db)) >>= λ rows.
    collect_rows summary rows

-- `DuckRepo::most_sighted`
unfoldable pub most_sighted : ℤ → Db → Res RepoError (List DuckSummary)
unfolding board sort summary
most_sighted limit db =
    limited limit (sort (ahead_by (λ r. r.sighting_count)) (board db)) >>= λ rows.
    collect_rows summary rows

-- `DuckRepo::longest_since_sighting`
unfoldable pub longest_since_sighting : ℤ → Db → Res RepoError (List DuckSummary)
unfolding board sort summary
longest_since_sighting limit db =
    limited limit (sort longer_silent (board db)) >>= λ rows. collect_rows summary rows

abbrev pub silent_since : Timestamp → BoardRow → Bool
silent_since cutoff r = ltb r.last.seen_at cutoff

-- The rows of `missing_since`, and the query.
unfoldable pub missing_rows : Timestamp → Db → List BoardRow
unfolding board sort
missing_rows cutoff db = sort longer_silent (select (silent_since cutoff) (board db))

-- `DuckRepo::missing_since`
unfoldable pub missing_since : Timestamp → Db → Res RepoError (List DuckSummary)
unfolding missing_rows summary
missing_since cutoff db = collect_rows summary (missing_rows cutoff db)
