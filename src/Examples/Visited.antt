-- ===== src/Examples/Visited.antt =====
-- The theorem on what a page offers to one who may not moderate, at a duck that sails.
use duck_voyage.Prelude.{◌≡◌, refl, true, false, none, some, [], ◌∷◌, All}
use duck_voyage.Prelude.Results.{ok}
use duck_voyage.Prelude.Text.{codes}
use duck_voyage.Domain.Base36.{digit_of, char_of}
use duck_voyage.Domain.BoundedText.{parse_bounded}
use duck_voyage.Domain.Codes.{parse_duck, flock_code, parse_flock, payload_digits, new_seq}
use duck_voyage.Domain.Codec.{decode}
use duck_voyage.Domain.Damm.{validate}
use duck_voyage.Domain.Entities.{sailing, Duck}
use duck_voyage.Storage.Db.{Db}
use duck_voyage.Storage.Ducks.{by_flock_and_seq}
use duck_voyage.Storage.Flocks.{flock_by_code}
use duck_voyage.Storage.Rows.{DuckRow, lifecycle_of, try_duck, try_flock}
use duck_voyage.Storage.Social.{unread_count, is_following}
use duck_voyage.Storage.Views.{place, sort, sightings_for_duck, comments_for_duck, vessel_options}
use duck_voyage.Web.State.{User}
use duck_voyage.Web.Duck.{resolve, resolve_any}
use duck_voyage.Web.Duck.Pages.{nav, Page, duck_page, sailing_page, page_of, page}
use duck_voyage.Web.Views.Markup.{posts}
use duck_voyage.Web.Views.Duck.Controls.{paths}
use duck_voyage.Web.Views.Site.{of_duck, view}
use duck_voyage.Web.Views.Site.Controls.{offered}
use duck_voyage.Web.Views.Site.Strangers.{IsHarmless, page-IsHarmless}
use duck_voyage.Examples.Data.{plain, codec, db, flock, label, first_seq, duck_row, env, app}
use duck_voyage.Examples.Rendered.{display}

abbrev sailing_row : DuckRow
sailing_row = record duck_row {
  description = some (codes "A duck");
  originated_at = some 200;
  set_sail_at = some 300;
  origin_photo_key = some (codes "k");
  origin_photo_content_type = some (codes "image/jpeg");
}

abbrev sea : Db
sea = record db { ducks = sailing_row ∷ [] }

abbrev duck : Duck
duck = record {
  id = 11;
  code = label;
  flock_id = 7;
  seq = first_seq;
  lifecycle =
      sailing
        (record {
          defined_at = 200;
          description = record { as_str = codes "A duck" };
          name = none;
          photo = record { key = record { as_str = codes "k" }; content_type = codes "image/jpeg" };
        })
        300;
  deleted_at = none;
  comments_locked_at = none;
  created_at = 100;
}

abbrev visitor : User
visitor = record { id = 4; display_name = none; is_admin = false }

abbrev shown : Page
shown =
    duck_page (record { display_name = none; logged_in = true; is_admin = false; unread = 0 }) none
      (record {
        code = label;
        name = none;
        description = codes "A duck";
        since = 300;
        is_owner = false;
        can_moderate = false;
        is_following = false;
        comments_locked = false;
        sightings =
            record {
              id = 31;
              seen_at = 500;
              vessel_name = codes "Ship";
              by_display_name = none;
              note = none;
              has_photo = false;
              coordinates = none;
              created_at = 600;
            }
            ∷ [];
        comments = [];
        vessels = record { id = 21; name = codes "Ship"; line = none } ∷ [];
      })

found : resolve plain codec (codes "abc-001q") sea ≡ ok (duck, flock)
unfolding resolve resolve_any parse_duck flock_code flock_by_code try_flock decode by_flock_and_seq
    try_duck lifecycle_of digit_of char_of validate parse_flock payload_digits new_seq parse_bounded
found = refl

answered : page env app (λ a b. true) (codes "abc-001q") (some visitor) none sea ≡ ok shown
unfolding page page_of sailing_page nav unread_count is_following sightings_for_duck
    comments_for_duck vessel_options sort place
answered = rw found refl

page-IsHarmless_example :
    (posts (view display (of_duck shown)) ≡ paths (offered (of_duck shown)))
    × All IsHarmless (offered (of_duck shown))
page-IsHarmless_example =
    page-IsHarmless env app (λ a b. true) display (codes "abc-001q") (some visitor) none sea duck
      flock shown found refl answered
