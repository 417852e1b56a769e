-- ===== src/Storage/Overviews.antt =====
-- The read models of crates/storage/src/summaries.rs for the latest finds, `/me` and `/admin`, and the
-- queries of crates/storage/src/repos.rs that fill them.
pub mod Complete
pub mod Newest
use duck_voyage.Prelude.{
  ℕ, Bool, true, false, not, Option, none, some, is_some, List, [], ◌∷◌, ◌==◌, ◌&&◌, ltb,
  if◌then◌else◌, map, map_option, and_then,
}
use duck_voyage.Prelude.Results.{Res, ok, err, ◌>>=◌, map_err}
use duck_voyage.Prelude.Text.{Text}
use duck_voyage.Prelude.Int.{ℤ}
use duck_voyage.Prelude.Tables.{find, select, count, exists}
use duck_voyage.Domain.Codes.{DuckCode, FlockCode, parse_duck, parse_flock}
use duck_voyage.Domain.Entities.{Timestamp, Key}
use duck_voyage.Storage.Rows.{
  RepoError, corrupt, duck, flock, DuckRow, FlockRow, UserRow, SightingRow, VesselRow,
}
use duck_voyage.Storage.Db.{CommentRow, FollowRow, NotificationRow, Db}
use duck_voyage.Storage.Flocks.{collect_rows}
use duck_voyage.Storage.Views.{sort}
use duck_voyage.Storage.Boards.{limited, joined, newer}

abbrev pub code_of : DuckRow → Res RepoError DuckCode
code_of d = map_err (λ _. corrupt duck) (parse_duck d.code)

abbrev pub duck_of : Key → Db → Option DuckRow
duck_of id db = find (λ d. d.id == id) db.ducks

abbrev pub vessel_of : Key → Db → Option VesselRow
vessel_of id db = find (λ v. v.id == id) db.vessels

abbrev pub user_of : Key → Db → Option UserRow
user_of id db = find (λ u. u.id == id) db.users

pub record RecentFind : Type 0 where
  pub duck_code : DuckCode
  pub duck_name : Option Text
  pub vessel_name : Text
  pub by_display_name : Option Text
  pub seen_at : Timestamp

-- A sighting joined to its duck, its vessel and its finder.
pub record FindRow : Type 0 where
  pub sighting : SightingRow
  pub duck : DuckRow
  pub vessel : VesselRow
  pub finder : UserRow

abbrev pub find_row : Db → SightingRow → Option FindRow
find_row db s =
    and_then (find (λ (d : DuckRow). d.id == s.duck_id && not (is_some d.deleted_at)) db.ducks)
      (λ d. and_then (vessel_of s.vessel_id db) (λ v.
        map_option (λ (u : UserRow). record { sighting = s; duck = d; vessel = v; finder = u })
          (user_of s.user_id db)))

abbrev pub latest_first : FindRow → FindRow → Bool
latest_first a b = newer a.sighting b.sighting

-- `SightingRepo::recent`
unfoldable pub recent : ℤ → Db → Res RepoError (List RecentFind)
unfolding sort
recent limit db = limited limit (sort latest_first (joined (find_row db) db.sightings)) >>= λ rows.
    collect_rows
      (λ r. code_of r.duck >>= λ code. ok (record {
        duck_code = code;
        duck_name = r.duck.name;
        vessel_name = r.vessel.name;
        by_display_name = r.finder.display_name;
        seen_at = r.sighting.seen_at;
      }))
      rows

pub record MySighting : Type 0 where
  pub duck_code : DuckCode
  pub duck_name : Option Text
  pub vessel_name : Text
  pub seen_at : Timestamp

pub record MineRow : Type 0 where
  pub sighting : SightingRow
  pub duck : DuckRow
  pub vessel : VesselRow

abbrev pub mine_row : Db → SightingRow → Option MineRow
mine_row db s = and_then (duck_of s.duck_id db) (λ d.
    map_option (λ (v : VesselRow). record { sighting = s; duck = d; vessel = v })
      (vessel_of s.vessel_id db))

-- The rows of `SightingRepo::for_user`, and the query.
unfoldable pub mine_rows : Key → Db → List MineRow
mine_rows user db = joined (mine_row db) (select (λ s. s.user_id == user) db.sightings)

unfoldable pub sightings_for_user : Key → Db → Res RepoError (List MySighting)
unfolding sort mine_rows
sightings_for_user user db =
    collect_rows
      (λ r. code_of r.duck >>= λ code. ok (record {
        duck_code = code;
        duck_name = r.duck.name;
        vessel_name = r.vessel.name;
        seen_at = r.sighting.seen_at;
      }))
      (sort (λ (a b : MineRow). newer a.sighting b.sighting) (mine_rows user db))

pub record FollowedDuck : Type 0 where
  pub duck_code : DuckCode
  pub duck_name : Option Text
  pub followed_at : Timestamp

abbrev pub followed_row : Db → FollowRow → Option (FollowRow × DuckRow)
followed_row db f = map_option (λ d. (f, d)) (duck_of f.duck_id db)

-- `FollowRepo::followed_ducks`
unfoldable pub followed_ducks : Key → Db → Res RepoError (List FollowedDuck)
unfolding sort
followed_ducks user db =
    collect_rows
      (λ (p : FollowRow × DuckRow). code_of p.1 >>= λ code.
        ok (record { duck_code = code; duck_name = p.1.name; followed_at = p.0.created_at }))
      (sort (λ (a b : FollowRow × DuckRow). ltb b.0.created_at a.0.created_at)
        (joined (followed_row db) (select (λ f. f.user_id == user) db.follows)))

pub record NotificationView : Type 0 where
  pub duck_code : DuckCode
  pub duck_name : Option Text
  pub vessel_name : Text
  pub seen_at : Timestamp
  pub created_at : Timestamp
  pub unread : Bool

pub record FeedRow : Type 0 where
  pub notification : NotificationRow
  pub duck : DuckRow
  pub sighting : SightingRow
  pub vessel : VesselRow

abbrev pub feed_row : Db → NotificationRow → Option FeedRow
feed_row db n = and_then (duck_of n.duck_id db) (λ d.
    and_then (find (λ (s : SightingRow). s.id == n.sighting_id) db.sightings) (λ s.
      map_option
        (λ (v : VesselRow). record { notification = n; duck = d; sighting = s; vessel = v })
        (vessel_of s.vessel_id db)))

-- The rows of `NotificationRepo::feed`, and the query.
unfoldable pub feed_rows : Key → Db → List FeedRow
feed_rows user db = joined (feed_row db) (select (λ n. n.user_id == user) db.notifications)

unfoldable pub feed : Key → ℤ → Db → Res RepoError (List NotificationView)
unfolding sort feed_rows
feed user limit db =
    limited limit (
      sort (λ (a b : FeedRow). ltb b.notification.created_at a.notification.created_at)
        (feed_rows user db))
    >>= λ rows.
        collect_rows
          (λ r. code_of r.duck >>= λ code. ok (record {
            duck_code = code;
            duck_name = r.duck.name;
            vessel_name = r.vessel.name;
            seen_at = r.sighting.seen_at;
            created_at = r.notification.created_at;
            unread = not (is_some r.notification.read_at);
          }))
          rows

pub record AdminUserOverview : Type 0 where
  pub id : Key
  pub issuer : Text
  pub subject : Text
  pub display_name : Option Text
  pub email : Option Text
  pub is_admin : Bool
  pub created_at : Timestamp
  pub flocks : ℕ
  pub sightings : ℕ
  pub comments : ℕ

-- `AdminRepo::users`. ORDER BY issuer follows the collation of the database, an argument here.
unfoldable pub users_overview :
    (UserRow → UserRow → Bool) → Db → Res RepoError (List AdminUserOverview)
unfolding sort
users_overview collation db = ok (
    map
      (λ (u : UserRow). record {
        id = u.id;
        issuer = u.issuer;
        subject = u.subject;
        display_name = u.display_name;
        email = u.email;
        is_admin = u.is_admin;
        created_at = u.created_at;
        flocks = count (λ (f : FlockRow). f.owner_user_id == u.id) db.flocks;
        sightings = count (λ (s : SightingRow). s.user_id == u.id) db.sightings;
        comments = count (λ (c : CommentRow). c.user_id == u.id) db.comments;
      })
      (sort collation db.users))

pub record AdminFlockOverview : Type 0 where
  pub id : Key
  pub code : FlockCode
  pub label : Option Text
  pub owner_id : Key
  pub owner_name : Option Text
  pub ducks : ℕ
  pub sailing : ℕ
  pub sightings : ℕ
  pub created_at : Timestamp

abbrev pub duck_in : Key → DuckRow → Bool
duck_in id d = d.flock_id == id

abbrev pub sails : DuckRow → Bool
sails d = is_some d.set_sail_at && not (is_some d.deleted_at)

abbrev pub flock_overview : Db → FlockRow × UserRow → Res RepoError AdminFlockOverview
flock_overview db (f, u) = map_err (λ _. corrupt flock) (parse_flock f.flock_code) >>= λ code.
    ok (record {
      id = f.id;
      code = code;
      label = f.label;
      owner_id = f.owner_user_id;
      owner_name = u.display_name;
      ducks = count (duck_in f.id) db.ducks;
      sailing = count (λ d. duck_in f.id d && sails d) db.ducks;
      sightings =
          count (λ (s : SightingRow). exists (λ d. d.id == s.duck_id && duck_in f.id d) db.ducks)
            db.sightings;
      created_at = f.created_at;
    })

-- `AdminRepo::flocks`
unfoldable pub flocks_overview : Db → Res RepoError (List AdminFlockOverview)
unfolding sort
flocks_overview db = collect_rows (flock_overview db) (
    sort (λ (a b : FlockRow × UserRow). ltb a.0.created_at b.0.created_at)
      (joined (λ (f : FlockRow). map_option (λ u. (f, u)) (user_of f.owner_user_id db)) db.flocks))
