-- ===== src/Web/Views/Site.antt =====
-- `Page::front`, `Page::missing`, `Page::login`, `Page::error_page` and `Page::admin` of
-- crates/web/src/views.rs; and every page that a handler answers with.
pub mod Offers
pub mod Controls
pub mod Routed
pub mod Unescaped
pub mod Strangers
use duck_voyage.Prelude.{
  ℕ, Bool, true, false, not, Option, none, some, List, [], ◌∷◌, ◌++◌, if◌then◌else◌,
}
use duck_voyage.Prelude.Text.{Text, text_eq, codes}
use duck_voyage.Storage.Boards.{DuckSummary}
use duck_voyage.Storage.Overviews.{RecentFind, AdminUserOverview, AdminFlockOverview}
use duck_voyage.Auth.Error.{unknown_flow, state_mismatch}
use duck_voyage.Auth.Providers.{ProviderSummary}
use duck_voyage.Web.State.{WebError, not_found, bad_request, auth}
use duck_voyage.Web.Duck.Pages.{Nav, Page, origination_form, staged_page, duck_page}
use duck_voyage.Web.Pages.{SitePage, front_page, missing_page, me_page, flocks_page, admin_page}
use duck_voyage.Web.Auth.Login.{LoginPage}
use duck_voyage.Web.Views.Markup.{
  href, action, post, Markup, empty, text, el, form, ◌⊕◌, say, at, tag, class, when, given, each,
  or_else, decimal, number, plural,
}
use duck_voyage.Web.Views.Layout.{Display, layout, muted, heads, summary_table, finds_table}
use duck_voyage.Web.Views.Duck.{confirmed, origination, staged_view, duck_view}
use duck_voyage.Web.Views.Own.{me_view, flocks_view}

abbrev pub code_span : Text → Markup
code_span t = el "span" (class "code" ∷ []) (text t)

-- `Nav::anonymous`
abbrev pub anonymous : Nav
anonymous = record { display_name = none; logged_in = false; is_admin = false; unread = 0 }

abbrev pub provider_link : Option Text → ProviderSummary → Markup
provider_link return_to p = tag "p" (
    el "a"
      (at "hx-boost" "false"
        ∷ href (
            codes "/login/"
            ++ p.slug
            ++ elim return_to [ none ↦ [] | some rt ↦ codes "?return_to=" ++ rt ])
        ∷ [])
      (say "Continue with " ⊕ text p.display_name))

abbrev pub no_providers : List ProviderSummary → Markup
no_providers [] = muted (say "No login providers are configured.")
no_providers (p ∷ ps) = empty

abbrev pub provider_names : Bool → List ProviderSummary → Markup
provider_names later [] = empty
provider_names later (p ∷ ps) =
    when later (say ", ")
    ⊕ text p.display_name
    ⊕ say " ("
    ⊕ code_span p.slug
    ⊕ say ")"
    ⊕ provider_names true ps

abbrev pub configured : List ProviderSummary → Markup
configured [] = muted (say "None — nobody can log in.")
configured (p ∷ ps) = tag "p" (provider_names false (p ∷ ps))

abbrev pub counted : ℕ → Text → Markup
counted n what = number n ⊕ text what ⊕ plural n

-- The heading of a run of one issuer.
abbrev pub issuer_heading : Option Text → Text → Markup
issuer_heading none issuer = tag "h3" (code_span issuer)
issuer_heading (some previous) issuer =
    when (not (text_eq previous issuer)) (tag "h3" (code_span issuer))

pub data Shown : Type 0 where
  site : SitePage → Shown
  of_duck : Page → Shown
  login : LoginPage → Shown
  failure : Text → Text → Shown

module _ (display : Display) where
  -- `Page::front`
  unfoldable pub front_view :
      Nav → List RecentFind → List DuckSummary → List DuckSummary → List DuckSummary → Markup
  front_view nav latest traveled seen adrift = layout display (say "home") nav none (
      tag "p" (
        say "Found a rubber duck with a QR code on a cruise? Scanning it leads here. "
        ⊕ say "This is the registry of traveling ducks: where they started, where they've been.")
      ⊕ tag "h2" (say "Latest finds")
      ⊕ finds_table display latest
      ⊕ tag "h2" (say "Most traveled")
      ⊕ muted (say "The ducks that have seen the most distinct ships.")
      ⊕ summary_table display traveled
      ⊕ tag "h2" (say "Most seen")
      ⊕ muted (say "The most-found ducks of all.")
      ⊕ summary_table display seen
      ⊕ tag "h2" (say "Longest adrift")
      ⊕ muted (say "Once seen, now quiet the longest. Keep an eye out — they're still out there.")
      ⊕ summary_table display adrift
      ⊕ tag "h2" (say "Set your own ducks loose")
      ⊕ muted (
          say "Grab a flock of codes under "
          ⊕ el "a" (href (codes "/me/flocks") ∷ []) (say "my flocks")
          ⊕ say ", print the labels, stick them on ducks, and hide them aboard."))

  -- `Page::missing`
  unfoldable pub missing_view : Nav → List DuckSummary → Markup
  missing_view nav ducks = layout display (say "missing ducks") nav none (
      tag "p" (
        say "Ducks that were found at least once, then went silent for over a year. "
        ⊕ say "Keep an eye out — every one of them is still out there somewhere.")
      ⊕ summary_table display ducks)

  -- `Page::login`
  unfoldable pub login_view : LoginPage → Markup
  login_view page = layout display (say "log in") page.chrome none (
      tag "p" (say "Log in to record finds, comment, and follow ducks.")
      ⊕ each (provider_link page.return_to) page.providers
      ⊕ no_providers page.providers)

  -- `Page::error_page`
  unfoldable pub error_page : Text → Text → Markup
  error_page code message =
      layout display (text code) anonymous none (tag "h2" (text code) ⊕ tag "p" (text message))

  abbrev pub user_card : AdminUserOverview → Markup
  user_card u = el "div" (class "card" ∷ []) (
      tag "strong" (text (or_else u.display_name "(no name)"))
      ⊕ given u.email (λ email. say " · " ⊕ text email)
      ⊕ when u.is_admin (say " · " ⊕ el "span" (class "badge" ∷ []) (say "admin"))
      ⊕ say " · joined "
      ⊕ text (display.date u.created_at)
      ⊕ muted (
          counted u.flocks (codes " flock")
          ⊕ say " · "
          ⊕ counted u.sightings (codes " sighting")
          ⊕ say " · "
          ⊕ counted u.comments (codes " comment")
          ⊕ say " · sub "
          ⊕ code_span u.subject)
      ⊕ (if u.is_admin
          then muted (say "admins can't be deleted here — demote in the database first")
          else confirmed (codes "/admin/users/" ++ decimal u.id ++ codes "/delete")
              (codes
                "Delete this user AND all their flocks, ducks, sightings, comments, and photos? This cannot be undone.")
              (say "delete user + everything")))

  -- The users, after one of the issuer given.
  unfoldable pub user_cards : Option Text → List AdminUserOverview → Markup
  user_cards previous [] = empty
  user_cards previous (u ∷ us) =
      issuer_heading previous u.issuer ⊕ user_card u ⊕ user_cards (some u.issuer) us

  abbrev pub flock_row : AdminFlockOverview → Markup
  flock_row f = tag "tr" (
      tag "td" (code_span f.code.as_str)
      ⊕ tag "td" (text (or_else f.label "—"))
      ⊕ tag "td" (text (or_else f.owner_name "(no name)"))
      ⊕ tag "td" (number f.ducks)
      ⊕ tag "td" (number f.sailing)
      ⊕ tag "td" (number f.sightings)
      ⊕ tag "td" (text (display.date f.created_at))
      ⊕ tag "td" (
          confirmed (codes "/admin/flocks/" ++ decimal f.id ++ codes "/delete")
            (codes
              "Delete this flock AND all its ducks, sightings, comments, and photos? This cannot be undone.")
            (say "delete")))

  abbrev pub flock_table : List AdminFlockOverview → Markup
  flock_table [] = muted (say "No flocks yet.")
  flock_table (f ∷ fs) = tag "table" (
      tag "tr" (
        heads (
          codes "prefix"
          ∷ codes "label"
          ∷ codes "owner"
          ∷ codes "ducks"
          ∷ codes "sailing"
          ∷ codes "finds"
          ∷ codes "since"
          ∷ [])
        ⊕ tag "th" empty)
      ⊕ each flock_row (f ∷ fs))

  -- `Page::admin`
  unfoldable pub admin_view :
      Nav
      → Option Text
      → List ProviderSummary
      → List AdminUserOverview
      → List AdminFlockOverview
      → Markup
  admin_view nav flash providers users flocks = layout display (say "admin") nav flash (
      tag "h2" (say "Login providers configured")
      ⊕ configured providers
      ⊕ tag "h2" (say "Users")
      ⊕ user_cards none users
      ⊕ tag "h2" (say "Flocks")
      ⊕ flock_table flocks)

  -- The template that each handler calls.
  abbrev pub site_view : SitePage → Markup
  site_view (front_page nav latest traveled seen adrift) =
      front_view nav latest traveled seen adrift
  site_view (missing_page nav ducks) = missing_view nav ducks
  site_view (me_page nav notifications sightings follows) =
      me_view display nav notifications sightings follows
  site_view (flocks_page nav flash flocks max) = flocks_view display nav flash flocks max
  site_view (admin_page nav flash providers users flocks) =
      admin_view nav flash providers users flocks

  abbrev pub page_view : Page → Markup
  page_view (origination_form nav code) = origination display nav code
  page_view (staged_page nav code d) = staged_view display nav code d
  page_view (duck_page nav flash v) = duck_view display nav flash v

  -- A page of any kind.
  abbrev pub view : Shown → Markup
  view (site page) = site_view page
  view (of_duck page) = page_view page
  view (login page) = login_view page
  view (failure code message) = error_page code message

  abbrev pub expired : Markup
  expired =
      error_page (codes "login expired")
        (codes "That login attempt expired or was already used. Please log in again.")

  -- The page of an error that has one: `IntoResponse for WebError` of crates/web/src/error.rs.
  unfoldable pub error_view : WebError → Option Markup
  error_view not_found =
      some (error_page (codes "404") (codes "No such duck. Check the code and try again?"))
  error_view bad_request = none
  error_view (auth unknown_flow) = some expired
  error_view (auth state_mismatch) = some expired
  error_view _ = some (error_page (codes "500") (codes "Something went wrong on our end."))
