-- ===== src/Web/Views/Site/Unescaped.antt =====
-- What the pages of crates/web/src/views.rs hold unescaped.
use duck_voyage.Prelude.{
  ◌≡◌, refl, Bool, true, false, Option, List, [], ◌∷◌, ◌⊎◌, inl, inr, sym, subst, if◌then◌else◌,
  Bool-cases, All, All-append, All-if, ltb,
}
use duck_voyage.Prelude.Text.{Text, codes}
use duck_voyage.Domain.Entities.{is_deleted}
use duck_voyage.Storage.Overviews.{NotificationView}
use duck_voyage.Web.Pages.{front_page, missing_page, me_page, flocks_page, admin_page}
use duck_voyage.Web.Duck.Pages.{Nav, DuckView, origination_form, staged_page, duck_page}
use duck_voyage.Web.Views.Markup.{Markup, Attr, collect, unescaped, union}
use duck_voyage.Web.Views.Markup.Pieces.{framed, All-union, collect-if, if_same}
use duck_voyage.Web.Views.Layout.{Display}
use duck_voyage.Web.Views.Duck.{duck_view, origination, staged_view}
use duck_voyage.Web.Views.Duck.Offers.{collect-duck_view, Inert-vessel_options}
use duck_voyage.Web.Views.Site.Offers.{
  collect-front_view, collect-missing_view, collect-login_view, collect-error_page,
  collect-origination, collect-staged_view, collect-flocks_view, collect-me_view,
  collect-admin_view, activity_forms, user_forms, flock_forms, card_forms, row_forms,
}
use duck_voyage.Web.Views.Site.{
  Shown, site, of_duck, login, failure, view, anonymous, front_view, missing_view, login_view,
  error_page, admin_view,
}
use duck_voyage.Web.Views.Own.{me_view, flocks_view}
use mathlib.Core.List.{append-nil}

-- A text that the program itself writes: the document type, the stylesheet or the script.
abbrev pub IsFixed : Display → Text → Type 0
IsFixed display t = (t ≡ codes "<!DOCTYPE html>") ⊎ ((t ≡ display.css) ⊎ (t ≡ display.geo_js))

abbrev no_forms : List Attr → List Text
no_forms as' = []

abbrev alone : Text → List Text
alone t = t ∷ []

module _ (display : Display) where
  none_if : (b : Bool) → All (IsFixed display) (if b then [] else [])
  none_if true = tt
  none_if false = tt

  activity-IsFixed :
      (nav : Nav) (ns : List NotificationView)
      → All (IsFixed display) (activity_forms no_forms alone display nav ns)
  activity-IsFixed nav [] = tt
  activity-IsFixed nav (n ∷ ns) = none_if (ltb 0 nav.unread)

  -- A page holds what it holds in its frame.
  framed-IsFixed :
      (nav : Nav) (body : List Text)
      → All (IsFixed display) body
      → All (IsFixed display) (framed no_forms alone display nav body)
  framed-IsFixed nav body h = elim (Bool-cases nav.logged_in) [
    | inl e ↦ rw e (inl refl, (inr (inl refl), h))
    | inr e ↦ rw e (inl refl, (inr (inl refl), h))
  ]

  -- A page that amounts to a frame and a body.
  page-IsFixed :
      (nav : Nav) (m : Markup) (body : List Text)
      → unescaped m ≡ framed no_forms alone display nav body
      → All (IsFixed display) body
      → All (IsFixed display) (unescaped m)
  page-IsFixed nav m body e h = subst (All (IsFixed display)) (sym e) (framed-IsFixed nav body h)

  duck-IsFixed :
      (nav : Nav) (flash : Option Text) (v : DuckView)
      → All (IsFixed display) (unescaped (duck_view display nav flash v))
  unfolding collect
  duck-IsFixed nav flash v =
      page-IsFixed nav (duck_view display nav flash v) _
        (collect-duck_view no_forms alone display nav flash v)
        (simp
          (
            collect-if no_forms alone v.is_following,
            collect-if no_forms alone v.comments_locked,
            Inert-vessel_options no_forms alone v.vessels,
            if_same,
            append-nil,
          )
          (All-append (IsFixed display) (if nav.logged_in then display.geo_js ∷ [] else []) _
            (All-if (IsFixed display) nav.logged_in _ (inr (inr refl), tt))
            (All-append (IsFixed display) (union _ v.sightings) _
              (All-union (IsFixed display) _ v.sightings (λ s. none_if v.can_moderate))
              (All-union (IsFixed display) _ v.comments (λ c. none_if v.can_moderate)))))

-- No page holds anything unescaped but the document type, the stylesheet and the script for
-- locations.
pub unescaped-IsFixed :
    (display : Display) (s : Shown) → All (IsFixed display) (unescaped (view display s))
unfolding collect
unescaped-IsFixed display (site (front_page nav latest traveled seen adrift)) =
    page-IsFixed display nav (front_view display nav latest traveled seen adrift) []
      (collect-front_view no_forms alone display nav latest traveled seen adrift) tt
unescaped-IsFixed display (site (missing_page nav ducks)) =
    page-IsFixed display nav (missing_view display nav ducks) []
      (collect-missing_view no_forms alone display nav ducks) tt
unescaped-IsFixed display (site (me_page nav ns ss fs)) =
    page-IsFixed display nav (me_view display nav ns ss fs) _
      (collect-me_view no_forms alone display nav ns ss fs) (activity-IsFixed display nav ns)
unescaped-IsFixed display (site (flocks_page nav flash flocks max)) =
    page-IsFixed display nav (flocks_view display nav flash flocks max) _
      (collect-flocks_view no_forms alone display nav flash flocks max)
      (All-union (IsFixed display) (card_forms no_forms alone display) flocks (λ p.
        All-union (IsFixed display) (row_forms no_forms alone display) p.1
          (λ s. none_if display (is_deleted s.duck))))
unescaped-IsFixed display (site (admin_page nav flash providers users flocks)) =
    page-IsFixed display nav (admin_view display nav flash providers users flocks) _
      (collect-admin_view no_forms alone display nav flash providers users flocks)
      (All-append (IsFixed display) (union (user_forms no_forms alone display) users) _
        (All-union (IsFixed display) (user_forms no_forms alone display) users
          (λ u. none_if display u.is_admin))
        (All-union (IsFixed display) (flock_forms no_forms alone display) flocks (λ f. tt)))
unescaped-IsFixed display (of_duck (origination_form nav code)) =
    page-IsFixed display nav (origination display nav code) []
      (collect-origination no_forms alone display nav code) tt
unescaped-IsFixed display (of_duck (staged_page nav code d)) =
    page-IsFixed display nav (staged_view display nav code d) []
      (collect-staged_view no_forms alone display nav code d) tt
unescaped-IsFixed display (of_duck (duck_page nav flash v)) = duck-IsFixed display nav flash v
unescaped-IsFixed display (login page) =
    page-IsFixed display page.chrome (login_view display page) []
      (collect-login_view no_forms alone display page) tt
unescaped-IsFixed display (failure code message) =
    page-IsFixed display anonymous (error_page display code message) []
      (collect-error_page no_forms alone display code message) tt
