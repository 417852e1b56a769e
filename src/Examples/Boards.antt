-- ===== src/Examples/Boards.antt =====
-- The theorems on the pages, at tables of few rows.
use duck_voyage.Prelude.{
  ◌≡◌, ◌≤◌, refl, arith, true, false, none, some, List, [], ◌∷◌, ◌&&◌, Bool, ltb, All, length,
}
use duck_voyage.Prelude.Results.{ok}
use duck_voyage.Prelude.Int.{pos}
use duck_voyage.Prelude.Text.{codes}
use duck_voyage.Prelude.Tables.{count}
use duck_voyage.Storage.Views.{sort, place}
use duck_voyage.Storage.Boards.{
  DuckSummary, board, last_sighting, summary, longest_since_sighting, missing_rows, missing_since,
}
use duck_voyage.Storage.Boards.Order.{missing_since-longest}
use duck_voyage.Storage.Boards.Silence.{IsMissing, missing_rows-IsMissing}
use duck_voyage.Storage.Overviews.{FeedRow, feed_rows, NotificationView, feed}
use duck_voyage.Storage.Overviews.Newest.{GivesNewest, feed-GivesNewest}
use duck_voyage.Domain.Codes.{DuckCode, parse_duck}
use duck_voyage.Domain.Entities.{Timestamp}
use duck_voyage.Examples.Answered.{calls-AllParsed}
use duck_voyage.Web.State.{User}
use duck_voyage.Web.Duck.Pages.{nav}
use duck_voyage.Web.Pages.Badge.{is_unread, nav-feed}
use duck_voyage.Examples.Data.{db, label}
use duck_voyage.Examples.Reached.{calls, after, reached_after, harbour-IsSeeded}

abbrev seen : List DuckSummary
seen =
    record {
      code = label;
      name = none;
      sighting_count = 1;
      unique_vessels = 1;
      last_seen_at = 500;
      last_vessel_name = codes "Ship";
    }
    ∷ []

adrift : longest_since_sighting (pos 10) db ≡ ok seen
unfolding longest_since_sighting board last_sighting sort place summary parse_duck
    duck_voyage.Domain.Base36.digit_of duck_voyage.Domain.Base36.char_of
    duck_voyage.Domain.Damm.validate
adrift = refl

one_row : length (board db) ≤ 10
unfolding board last_sighting sort place
one_row = omega arith

missing_since-longest_example :
    (ms : List DuckSummary) × (missing_since 600 db ≡ ok ms)
    × ((test : DuckCode → Timestamp → Bool)
        → count (λ s. test s.code s.last_seen_at) ms
          ≡ count (λ s. ltb s.last_seen_at 600 && test s.code s.last_seen_at) seen)
missing_since-longest_example = missing_since-longest 600 10 db seen adrift one_row

missing_rows-IsMissing_example : All (IsMissing 600 db) (missing_rows 600 db)
missing_rows-IsMissing_example = missing_rows-IsMissing 600 db

feed-GivesNewest_example :
    (views : List NotificationView) × (feed 1 (pos 10) (after calls) ≡ ok views)
    × GivesNewest 1 10 (after calls) views
feed-GivesNewest_example =
    feed-GivesNewest (reached_after calls) calls-AllParsed harbour-IsSeeded 1 10

abbrev owner : User
owner = record { id = 1; display_name = none; is_admin = false }

nav-feed_example :
    nav (some owner) (after calls)
    ≡ ok (record {
      display_name = none;
      logged_in = true;
      is_admin = false;
      unread = count (λ (r : FeedRow). is_unread r.notification) (feed_rows 1 (after calls));
    })
nav-feed_example = nav-feed owner (reached_after calls) harbour-IsSeeded
