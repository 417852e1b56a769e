-- ===== src/Web/Views/Site/Routed.antt =====
-- Every form that a page of crates/web/src/views.rs shows is one that crates/web/src/main.rs routes.
use duck_voyage.Prelude.{
  ◌≡◌, refl, List, [], ◌∷◌, ◌++◌, ltb, map, All, All-append, All-append_left, All-append_right,
  All-if, Bool-cases, inl, inr,
}
use duck_voyage.Prelude.Text.{codes}
use duck_voyage.Domain.Entities.{Flock, is_deleted}
use duck_voyage.Storage.Overviews.{NotificationView, AdminUserOverview}
use duck_voyage.Storage.Views.{FlockDuckStatus}
use duck_voyage.Web.Pages.{front_page, missing_page, me_page, flocks_page, admin_page}
use duck_voyage.Web.Duck.Pages.{Nav, origination_form, staged_page, duck_page}
use duck_voyage.Web.Router.Paths.{IsCode, Fills-verb, Fills-numbered, Fills-listed}
use duck_voyage.Web.Views.Markup.{posts, union}
use duck_voyage.Web.Views.Markup.Pieces.{All-union}
use duck_voyage.Web.Views.Layout.{Display}
use duck_voyage.Web.Views.Duck.Controls.{Control, IsRouted, paths, controls-IsRouted}
use duck_voyage.Web.Views.Site.{Shown, site, of_duck, login, failure, view}
use duck_voyage.Web.Views.Site.Controls.{
  account, reading, restoring, flock_controls, user_controls, flock_removal, offered, codes_in,
  view-paths,
}

account-IsRouted : (nav : Nav) → All IsRouted (account nav)
account-IsRouted nav =
    All-if IsRouted nav.logged_in _ ((0, _, refl, refl, refl, (_, refl, refl)), tt)

-- The controls of a page under its account.
under_account :
    (nav : Nav) (rest : List Control) → All IsRouted rest → All IsRouted (account nav ++ rest)
under_account nav rest h = All-append IsRouted (account nav) rest (account-IsRouted nav) h

reading-IsRouted : (nav : Nav) (ns : List NotificationView) → All IsRouted (reading nav ns)
reading-IsRouted nav [] = tt
reading-IsRouted nav (n ∷ ns) =
    All-if IsRouted (ltb 0 nav.unread) _
      ((1, _, refl, refl, refl, (_, refl, (_, refl, (_, refl, refl)))), tt)

restoring-IsRouted :
    (ss : List FlockDuckStatus)
    → All IsCode (map (λ s. s.duck.code) ss)
    → All IsRouted (union restoring ss)
restoring-IsRouted [] h = tt
restoring-IsRouted (s ∷ ss) (valid, h) =
    All-append IsRouted (restoring s) (union restoring ss)
      (All-if IsRouted (is_deleted s.duck) _
        ((14, _, refl, refl, refl, Fills-verb s.duck.code valid (codes "restore")), tt))
      (restoring-IsRouted ss h)

flocks-IsRouted :
    (flocks : List (Flock × List FlockDuckStatus))
    → All IsCode (union (λ (p : Flock × List FlockDuckStatus). map (λ s. s.duck.code) p.1) flocks)
    → All IsRouted (union flock_controls flocks)
flocks-IsRouted [] h = tt
flocks-IsRouted ((flock, ducks) ∷ flocks) h =
    All-append IsRouted (flock_controls (flock, ducks)) (union flock_controls flocks)
      (
        (5, _, refl, refl, refl, Fills-numbered (codes "flocks") (codes "ducks") flock.id),
        restoring-IsRouted ducks (All-append_left IsCode (map (λ s. s.duck.code) ducks) _ h),
      )
      (flocks-IsRouted flocks (All-append_right IsCode (map (λ s. s.duck.code) ducks) _ h))

user-IsRouted : (u : AdminUserOverview) → All IsRouted (user_controls u)
user-IsRouted u = elim (Bool-cases u.is_admin) [
  | inl e ↦ rw e tt
  | inr e ↦ rw e ((2, _, refl, refl, refl, Fills-listed (codes "admin") (codes "users") u.id), tt)
]

offered-IsRouted : (s : Shown) → All IsCode (codes_in s) → All IsRouted (offered s)
offered-IsRouted (site (front_page nav latest traveled seen adrift)) h = account-IsRouted nav
offered-IsRouted (site (missing_page nav ducks)) h = account-IsRouted nav
offered-IsRouted (site (me_page nav ns ss fs)) h =
    under_account nav (reading nav ns) (reading-IsRouted nav ns)
offered-IsRouted (site (flocks_page nav flash flocks max)) h =
    under_account nav _ ((4, _, refl, refl, refl, (_, refl, refl)), flocks-IsRouted flocks h)
offered-IsRouted (site (admin_page nav flash providers users flocks)) h = under_account nav _ (
    All-append IsRouted (union user_controls users) _
      (All-union IsRouted user_controls users user-IsRouted)
      (All-union IsRouted flock_removal flocks
        (λ f. ((3, _, refl, refl, refl, Fills-listed (codes "admin") (codes "flocks") f.id), tt))))
offered-IsRouted (of_duck (origination_form nav code)) (valid, h) =
    under_account nav _ ((6, _, refl, refl, refl, Fills-verb code valid (codes "originate")), tt)
offered-IsRouted (of_duck (staged_page nav code d)) (valid, h) =
    under_account nav _ ((7, _, refl, refl, refl, Fills-verb code valid (codes "set-sail")), tt)
offered-IsRouted (of_duck (duck_page nav flash v)) (valid, h) = controls-IsRouted nav v valid
offered-IsRouted (login page) h = account-IsRouted page.chrome
offered-IsRouted (failure code message) h = tt

-- The forms of every page post, in order, to the paths that the controls of the page name, and
-- where the codes on the page are valid, the server has a POST route for each of these paths that
-- calls the handler of its control.
pub view-controls :
    (display : Display) (s : Shown)
    → All IsCode (codes_in s)
    → (posts (view display s) ≡ paths (offered s)) × All IsRouted (offered s)
view-controls display s h = (view-paths display s, offered-IsRouted s h)
