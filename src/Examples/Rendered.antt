-- ===== src/Examples/Rendered.antt =====
-- The theorems on the templates, at the page of a duck that its owner looks at.
use duck_voyage.Prelude.{◌≡◌, true, false, none, some, [], ◌∷◌, All}
use duck_voyage.Prelude.Text.{codes}
use duck_voyage.Web.Duck.Pages.{Nav, duck_page}
use duck_voyage.Web.Views.Markup.{posts, unescaped}
use duck_voyage.Web.Views.Layout.{Display}
use duck_voyage.Web.Views.Duck.Controls.{IsRouted, paths}
use duck_voyage.Web.Views.Site.{Shown, of_duck, view}
use duck_voyage.Web.Views.Site.Controls.{offered}
use duck_voyage.Web.Views.Site.Routed.{view-controls}
use duck_voyage.Web.Views.Site.Unescaped.{IsFixed, unescaped-IsFixed}
use duck_voyage.Examples.Data.{label, label_digits}
use duck_voyage.Examples.Codes.{label-IsDuckCode}

abbrev pub display : Display
display = record {
  css = codes "body {}";
  geo_js = codes "go()";
  version = codes "v1";
  sha = codes "abcdef0";
  now = 100;
  date = λ ts. codes "2026-01-01";
  fixed = λ places x. codes "0.0";
}

abbrev owner : Nav
owner = record { display_name = none; logged_in = true; is_admin = false; unread = 1 }

abbrev duck_shown : Shown
duck_shown = of_duck (
    duck_page owner (some (codes "Saved")) (record {
      code = label;
      name = none;
      description = codes "A <tiny> duck";
      since = 10;
      is_owner = true;
      can_moderate = true;
      is_following = false;
      comments_locked = false;
      sightings =
          record {
            id = 31;
            seen_at = 50;
            vessel_name = codes "Ship";
            by_display_name = none;
            note = some (codes "<script>");
            has_photo = true;
            coordinates = none;
            created_at = 51;
          }
          ∷ [];
      comments =
          record { id = 41; by_display_name = none; body = codes "hi"; created_at = 60 } ∷ [];
      vessels = record { id = 21; name = codes "Ship"; line = none } ∷ [];
    }))

view-controls_example :
    (posts (view display duck_shown) ≡ paths (offered duck_shown))
    × All IsRouted (offered duck_shown)
view-controls_example = view-controls display duck_shown ((label_digits, label-IsDuckCode), tt)

unescaped-IsFixed_example : All (IsFixed display) (unescaped (view display duck_shown))
unescaped-IsFixed_example = unescaped-IsFixed display duck_shown
