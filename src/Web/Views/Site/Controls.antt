-- ===== src/Web/Views/Site/Controls.antt =====
-- The controls on every page (crates/web/src/views.rs), by the handlers that crates/web/src/main.rs routes
-- them to.
use duck_voyage.Prelude.{
  ◌≡◌, refl, List, [], ◌∷◌, ◌++◌, ltb, if◌then◌else◌, map, Bool-cases, inl, inr, ap, ap₂, sym, ◌∙◌,
}
use mathlib.Core.List.{map-append}
use duck_voyage.Prelude.Text.{Text, codes}
use duck_voyage.Domain.Codes.{DuckCode}
use duck_voyage.Domain.Entities.{Flock, is_deleted}
use duck_voyage.Storage.Overviews.{NotificationView, AdminUserOverview, AdminFlockOverview}
use duck_voyage.Storage.Views.{FlockDuckStatus}
use duck_voyage.Web.Pages.{front_page, missing_page, me_page, flocks_page, admin_page}
use duck_voyage.Web.Duck.Pages.{Nav, origination_form, staged_page, duck_page}
use duck_voyage.Web.Router.{
  logout, mark_notifications_read, delete_user, delete_flock, create, mint, originate, set_sail,
  restore_duck,
}
use duck_voyage.Web.Views.Markup.{targets, posts, collect, decimal, union}
use duck_voyage.Web.Views.Markup.Pieces.{framed}
use duck_voyage.Web.Views.Layout.{Display}
use duck_voyage.Web.Views.Duck.{under}
use duck_voyage.Web.Views.Duck.Controls.{Control, paths, controls, duck_view-paths}
use duck_voyage.Web.Views.Site.{Shown, site, of_duck, login, failure, view}
use duck_voyage.Web.Views.Site.Offers.{
  collect-front_view, collect-missing_view, collect-login_view, collect-error_page,
  collect-origination, collect-staged_view, collect-flocks_view, collect-me_view,
  collect-admin_view, row_forms, card_forms, user_forms, activity_forms,
}

abbrev pub account : Nav → List Control
account nav = if nav.logged_in then (logout, codes "/logout") ∷ [] else []

abbrev pub reading : Nav → List NotificationView → List Control
reading nav [] = []
reading nav (n ∷ ns) =
    if ltb 0 nav.unread then (mark_notifications_read, codes "/me/notifications/read") ∷ [] else []

-- A deleted duck may be restored.
abbrev pub restoring : FlockDuckStatus → List Control
restoring s =
    if is_deleted s.duck then (restore_duck, under s.duck.code (codes "/restore")) ∷ [] else []

abbrev pub flock_controls : Flock × List FlockDuckStatus → List Control
flock_controls (flock, ducks) =
    (mint, codes "/flocks/" ++ decimal flock.id ++ codes "/ducks") ∷ union restoring ducks

-- A user who is no administrator may be deleted, and every flock.
abbrev pub user_controls : AdminUserOverview → List Control
user_controls u =
    if u.is_admin
    then []
    else (delete_user, codes "/admin/users/" ++ decimal u.id ++ codes "/delete") ∷ []

abbrev pub flock_removal : AdminFlockOverview → List Control
flock_removal f = (delete_flock, codes "/admin/flocks/" ++ decimal f.id ++ codes "/delete") ∷ []

abbrev pub offered : Shown → List Control
offered (site (front_page nav latest traveled seen adrift)) = account nav
offered (site (missing_page nav ducks)) = account nav
offered (site (me_page nav notifications sightings follows)) =
    account nav ++ reading nav notifications
offered (site (flocks_page nav flash flocks max)) =
    account nav ++ (create, codes "/flocks") ∷ union flock_controls flocks
offered (site (admin_page nav flash providers users flocks)) =
    account nav ++ (union user_controls users ++ union flock_removal flocks)
offered (of_duck (origination_form nav code)) =
    account nav ++ (originate, under code (codes "/originate")) ∷ []
offered (of_duck (staged_page nav code details)) =
    account nav ++ (set_sail, under code (codes "/set-sail")) ∷ []
offered (of_duck (duck_page nav flash v)) = controls nav v
offered (login page) = account page.chrome
offered (failure code message) = []

-- The ducks that a page has controls of.
abbrev pub codes_in : Shown → List DuckCode
codes_in (site (flocks_page nav flash flocks max)) =
    union (λ (p : Flock × List FlockDuckStatus). map (λ s. s.duck.code) p.1) flocks
codes_in (of_duck (origination_form nav code)) = code ∷ []
codes_in (of_duck (staged_page nav code details)) = code ∷ []
codes_in (of_duck (duck_page nav flash v)) = v.code ∷ []
codes_in _ = []

framed-paths :
    (display : Display) (nav : Nav) (body : List Control)
    → framed targets (λ t. []) display nav (paths body) ≡ paths (account nav ++ body)
framed-paths display nav body = elim (Bool-cases nav.logged_in) [
  | inl e ↦ rw e refl
  | inr e ↦ rw e refl
]

union-paths {ℓ} :
    {A : Type ℓ} (f : A → List Text) (g : A → List Control) (xs : List A)
    → ((a : A) → f a ≡ paths (g a))
    → union f xs ≡ paths (union g xs)
union-paths f g [] h = refl
union-paths f g (x ∷ xs) h = simp (h x, union-paths f g xs h, map-append)

module _ (display : Display) where
  account-paths : (nav : Nav) → framed targets (λ t. []) display nav [] ≡ paths (account nav)
  account-paths nav = elim (Bool-cases nav.logged_in) [ inl e ↦ rw e refl | inr e ↦ rw e refl ]

  restoring-paths :
      (s : FlockDuckStatus) → row_forms targets (λ t. []) display s ≡ paths (restoring s)
  restoring-paths s = elim (Bool-cases (is_deleted s.duck)) [
    | inl e ↦ rw e refl
    | inr e ↦ rw e refl
  ]

  card-paths :
      (p : Flock × List FlockDuckStatus)
      → card_forms targets (λ t. []) display p ≡ paths (flock_controls p)
  card-paths (flock, ducks) = rw (union-paths _ restoring ducks restoring-paths) refl

  user-paths :
      (u : AdminUserOverview) → user_forms targets (λ t. []) display u ≡ paths (user_controls u)
  unfolding collect
  user-paths u = elim (Bool-cases u.is_admin) [ inl e ↦ rw e refl | inr e ↦ rw e refl ]

  reading-paths :
      (nav : Nav) (ns : List NotificationView)
      → activity_forms targets (λ t. []) display nav ns ≡ paths (reading nav ns)
  reading-paths nav [] = refl
  reading-paths nav (n ∷ ns) = elim (Bool-cases (ltb 0 nav.unread)) [
    | inl e ↦ rw e refl
    | inr e ↦ rw e refl
  ]

  -- The forms of a page post to the paths of the controls, in their order.
  pub view-paths : (s : Shown) → posts (view display s) ≡ paths (offered s)
  unfolding collect
  view-paths (site (front_page nav latest traveled seen adrift)) =
      collect-front_view targets (λ t. []) display nav latest traveled seen adrift
      ∙ account-paths nav
  view-paths (site (missing_page nav ducks)) =
      collect-missing_view targets (λ t. []) display nav ducks ∙ account-paths nav
  view-paths (site (me_page nav ns ss fs)) =
      collect-me_view targets (λ t. []) display nav ns ss fs
      ∙ ap (framed targets (λ t. []) display nav) (reading-paths nav ns)
      ∙ framed-paths display nav (reading nav ns)
  view-paths (site (flocks_page nav flash flocks max)) =
      collect-flocks_view targets (λ t. []) display nav flash flocks max
      ∙ ap (λ t. framed targets (λ t. []) display nav (codes "/flocks" ∷ t))
          (union-paths _ flock_controls flocks card-paths)
      ∙ framed-paths display nav ((create, codes "/flocks") ∷ union flock_controls flocks)
  view-paths (site (admin_page nav flash providers users flocks)) =
      collect-admin_view targets (λ t. []) display nav flash providers users flocks
      ∙ ap (framed targets (λ t. []) display nav) (
          ap₂ (λ a b. a ++ b) (union-paths _ user_controls users user-paths)
            (union-paths _ flock_removal flocks (λ f. refl))
          ∙ sym (map-append _ (union user_controls users) (union flock_removal flocks)))
      ∙ framed-paths display nav (union user_controls users ++ union flock_removal flocks)
  view-paths (of_duck (origination_form nav code)) =
      collect-origination targets (λ t. []) display nav code
      ∙ framed-paths display nav ((originate, under code (codes "/originate")) ∷ [])
  view-paths (of_duck (staged_page nav code d)) =
      collect-staged_view targets (λ t. []) display nav code d
      ∙ framed-paths display nav ((set_sail, under code (codes "/set-sail")) ∷ [])
  view-paths (of_duck (duck_page nav flash v)) = duck_view-paths display nav flash v
  view-paths (login page) =
      collect-login_view targets (λ t. []) display page ∙ account-paths page.chrome
  view-paths (failure code message) = collect-error_page targets (λ t. []) display code message
