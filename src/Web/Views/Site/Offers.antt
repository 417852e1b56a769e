-- ===== src/Web/Views/Site/Offers.antt =====
-- What the pages of crates/web/src/views.rs other than a duck's amount to, in forms and unescaped texts.
use duck_voyage.Prelude.{
  ◌≡◌, refl, ℕ, Bool, true, false, not, Option, none, some, List, [], ◌∷◌, ◌++◌, ltb, if◌then◌else◌,
  length,
}
use mathlib.Core.List.{append-nil}
use duck_voyage.Prelude.Text.{Text, codes, text_eq}
use duck_voyage.Domain.BoundedText.{FlockLabel}
use duck_voyage.Domain.Codes.{DuckCode}
use duck_voyage.Domain.Entities.{
  DuckLifecycle, allocated, staged, sailing, Duck, Flock, DuckDetails, is_deleted,
}
use duck_voyage.Storage.Boards.{DuckSummary}
use duck_voyage.Storage.Overviews.{
  RecentFind, MySighting, FollowedDuck, NotificationView, AdminUserOverview, AdminFlockOverview,
}
use duck_voyage.Storage.Views.{FlockDuckStatus}
use duck_voyage.Auth.Providers.{ProviderSummary}
use duck_voyage.Web.Auth.Login.{LoginPage}
use duck_voyage.Web.Duck.Pages.{Nav}
use duck_voyage.Web.Views.Markup.{
  Attr, class, post, action, at, ◌⊕◌, text, say, collect, union, decimal,
}
use duck_voyage.Web.Views.Markup.Pieces.{
  Inert, Inert-given, Inert-grouped, Inert-dotted, Inert-each, Inert-plural, Inert-summary_table,
  Inert-finds_table, collect-each, collect-if, collect-when, collect-layout, framed, if_same,
}
use duck_voyage.Web.Views.Layout.{Display}
use duck_voyage.Web.Views.Duck.{under, confirmed, name_text, origination, staged_view}
use duck_voyage.Web.Views.Own.{
  stage_of, status_row, status_table, notification_card, activity, my_row, my_table, follow_row,
  follow_table, me_view, flock_card, flocks_view,
}
use duck_voyage.Web.Views.Site.{
  provider_link, no_providers, provider_names, configured, issuer_heading, front_view, missing_view,
  login_view, error_page, anonymous, user_card, user_cards, flock_row, flock_table, admin_view,
}

module _ (forms : List Attr → List Text) (raws : Text → List Text) (display : Display) where
  pub collect-front_view :
      (nav : Nav) (latest : List RecentFind) (traveled seen adrift : List DuckSummary)
      → collect forms raws (front_view display nav latest traveled seen adrift)
        ≡ framed forms raws display nav []
  unfolding collect front_view
  collect-front_view nav latest traveled seen adrift = simp (
    collect-layout forms raws display (say "home") nav none,
    Inert-finds_table forms raws display latest,
    Inert-summary_table forms raws display,
  )

  pub collect-missing_view :
      (nav : Nav) (ducks : List DuckSummary)
      → collect forms raws (missing_view display nav ducks) ≡ framed forms raws display nav []
  unfolding collect missing_view
  collect-missing_view nav ducks = simp (
    collect-layout forms raws display (say "missing ducks") nav none,
    Inert-summary_table forms raws display,
  )

  Inert-no_providers : (ps : List ProviderSummary) → Inert forms raws (no_providers ps)
  unfolding collect
  Inert-no_providers [] = refl
  Inert-no_providers (p ∷ ps) = refl

  pub collect-login_view :
      (page : LoginPage)
      → collect forms raws (login_view display page) ≡ framed forms raws display page.chrome []
  unfolding collect login_view
  collect-login_view page = simp (
    collect-layout forms raws display (say "log in") page.chrome none,
    Inert-each forms raws (provider_link page.return_to) page.providers (λ p. refl),
    Inert-no_providers page.providers,
  )

  pub collect-error_page :
      (code message : Text)
      → collect forms raws (error_page display code message)
        ≡ framed forms raws display anonymous []
  unfolding collect error_page
  collect-error_page code message =
      simp (collect-layout forms raws display (text code) anonymous none)

  pub collect-origination :
      (nav : Nav) (code : DuckCode)
      → collect forms raws (origination display nav code)
        ≡ framed forms raws display nav (
            forms (
              class "stack"
              ∷ post
              ∷ at "enctype" "multipart/form-data"
              ∷ action (under code (codes "/originate"))
              ∷ []))
  unfolding collect origination
  collect-origination nav code = simp (
    collect-layout forms raws display (say "define duck") nav none,
    Inert-grouped forms raws code,
    append-nil,
  )

  pub collect-staged_view :
      (nav : Nav) (code : DuckCode) (d : DuckDetails)
      → collect forms raws (staged_view display nav code d)
        ≡ framed forms raws display nav
            (forms (class "stack" ∷ post ∷ action (under code (codes "/set-sail")) ∷ []))
  unfolding collect staged_view
  collect-staged_view nav code d = simp (
    collect-layout forms raws display (say "ready to sail") nav none,
    Inert-grouped forms raws code,
    Inert-dotted forms raws (name_text d.name),
    append-nil,
  )

  -- The dashboard.
  abbrev pub row_forms : FlockDuckStatus → List Text
  row_forms s =
      if is_deleted s.duck
      then forms (class "inline" ∷ post ∷ action (under s.duck.code (codes "/restore")) ∷ [])
      else []

  Inert-stage_of : (d : Duck) (l : DuckLifecycle) → Inert forms raws (stage_of d l)
  unfolding collect
  Inert-stage_of d allocated = refl
  Inert-stage_of d (staged details) = refl
  Inert-stage_of d (sailing details since) = refl

  collect-status_row : (s : FlockDuckStatus) → collect forms raws (status_row s) ≡ row_forms s
  unfolding collect
  collect-status_row s = simp (
    Inert-grouped forms raws s.duck.code,
    collect-if forms raws (is_deleted s.duck),
    Inert-stage_of s.duck s.duck.lifecycle,
    collect-when forms raws (not (is_deleted s.duck)),
    if_same,
    append-nil,
  )

  collect-status_table :
      (ss : List FlockDuckStatus) → collect forms raws (status_table ss) ≡ union row_forms ss
  unfolding collect
  collect-status_table [] = refl
  collect-status_table (s ∷ ss) =
      collect-each forms raws status_row row_forms (s ∷ ss) collect-status_row

  abbrev pub card_forms : Flock × List FlockDuckStatus → List Text
  card_forms (flock, ducks) =
      forms (
        class "inline"
        ∷ post
        ∷ action (codes "/flocks/" ++ decimal flock.id ++ codes "/ducks")
        ∷ [])
      ++ union row_forms ducks

  collect-flock_card :
      (max : ℕ) (p : Flock × List FlockDuckStatus)
      → collect forms raws (flock_card display max p) ≡ card_forms p
  unfolding collect
  collect-flock_card max (flock, ducks) = simp (
    Inert-given forms raws flock.label (λ (l : FlockLabel). say " · " ⊕ text l.as_str) (λ l. refl),
    Inert-plural forms raws (length ducks),
    collect-status_table ducks,
    append-nil,
  )

  pub collect-flocks_view :
      (nav : Nav) (flash : Option Text) (flocks : List (Flock × List FlockDuckStatus)) (max : ℕ)
      → collect forms raws (flocks_view display nav flash flocks max)
        ≡ framed forms raws display nav (
            forms (class "stack" ∷ post ∷ action (codes "/flocks") ∷ []) ++ union card_forms flocks)
  unfolding collect flocks_view
  collect-flocks_view nav flash flocks max = simp (
    collect-layout forms raws display (say "my flocks") nav flash,
    collect-each forms raws (flock_card display max) card_forms flocks (collect-flock_card max),
    append-nil,
  )

  -- The own page.
  abbrev pub activity_forms : Nav → List NotificationView → List Text
  activity_forms nav [] = []
  activity_forms nav (n ∷ ns) =
      if ltb 0 nav.unread
      then forms (class "inline" ∷ post ∷ action (codes "/me/notifications/read") ∷ [])
      else []

  Inert-notification : (n : NotificationView) → Inert forms raws (notification_card display n)
  unfolding collect
  Inert-notification n = simp (
    collect-when forms raws n.unread,
    Inert-grouped forms raws n.duck_code,
    Inert-given forms raws n.duck_name (λ name. say " (" ⊕ text name ⊕ say ")") (λ t. refl),
    if_same,
  )

  collect-activity :
      (nav : Nav) (ns : List NotificationView)
      → collect forms raws (activity display nav ns) ≡ activity_forms nav ns
  unfolding collect
  collect-activity nav [] = refl
  collect-activity nav (n ∷ ns) = simp (
    collect-when forms raws (ltb 0 nav.unread),
    Inert-each forms raws (notification_card display) (n ∷ ns) Inert-notification,
    append-nil,
  )

  Inert-my_table : (ss : List MySighting) → Inert forms raws (my_table display ss)
  unfolding collect
  Inert-my_table [] = refl
  Inert-my_table (s ∷ ss) =
      Inert-each forms raws (my_row display) (s ∷ ss)
        (λ r. simp (Inert-grouped forms raws r.duck_code, Inert-dotted forms raws r.duck_name))

  Inert-follow_table : (fs : List FollowedDuck) → Inert forms raws (follow_table display fs)
  unfolding collect
  Inert-follow_table [] = refl
  Inert-follow_table (f ∷ fs) =
      Inert-each forms raws (follow_row display) (f ∷ fs)
        (λ r. simp (Inert-grouped forms raws r.duck_code, Inert-dotted forms raws r.duck_name))

  pub collect-me_view :
      (nav : Nav) (ns : List NotificationView) (ss : List MySighting) (fs : List FollowedDuck)
      → collect forms raws (me_view display nav ns ss fs)
        ≡ framed forms raws display nav (activity_forms nav ns)
  unfolding collect me_view
  collect-me_view nav ns ss fs = simp (
    collect-layout forms raws display (say "me") nav none,
    collect-activity nav ns,
    Inert-my_table ss,
    Inert-follow_table fs,
    append-nil,
  )

  -- The page of the administrators.
  Inert-names :
      (later : Bool) (ps : List ProviderSummary) → Inert forms raws (provider_names later ps)
  unfolding collect
  Inert-names later [] = refl
  Inert-names later (p ∷ ps) = simp (collect-when forms raws later, Inert-names true ps, if_same)

  Inert-configured : (ps : List ProviderSummary) → Inert forms raws (configured ps)
  unfolding collect
  Inert-configured [] = refl
  Inert-configured (p ∷ ps) = Inert-names false (p ∷ ps)

  Inert-heading :
      (previous : Option Text) (issuer : Text) → Inert forms raws (issuer_heading previous issuer)
  unfolding collect
  Inert-heading none issuer = refl
  Inert-heading (some previous) issuer =
      simp (collect-when forms raws (not (text_eq previous issuer)), if_same)

  abbrev pub user_forms : AdminUserOverview → List Text
  user_forms u =
      if u.is_admin
      then []
      else collect forms raws (
          confirmed (codes "/admin/users/" ++ decimal u.id ++ codes "/delete")
            (codes
              "Delete this user AND all their flocks, ducks, sightings, comments, and photos? This cannot be undone.")
            (say "delete user + everything"))

  collect-user_card :
      (u : AdminUserOverview) → collect forms raws (user_card display u) ≡ user_forms u
  unfolding collect
  collect-user_card u = simp (
    Inert-given forms raws u.email (λ email. say " · " ⊕ text email) (λ t. refl),
    collect-when forms raws u.is_admin,
    collect-if forms raws u.is_admin,
    Inert-plural forms raws,
    if_same,
  )

  collect-user_cards :
      (previous : Option Text) (us : List AdminUserOverview)
      → collect forms raws (user_cards display previous us) ≡ union user_forms us
  unfolding collect user_cards
  collect-user_cards previous [] = refl
  collect-user_cards previous (u ∷ us) =
      rw (
        Inert-heading previous u.issuer,
        collect-user_card u,
        collect-user_cards (some u.issuer) us,
      )

  abbrev pub flock_forms : AdminFlockOverview → List Text
  flock_forms f = collect forms raws (
      confirmed (codes "/admin/flocks/" ++ decimal f.id ++ codes "/delete")
        (codes
          "Delete this flock AND all its ducks, sightings, comments, and photos? This cannot be undone.")
        (say "delete"))

  collect-flock_table :
      (fs : List AdminFlockOverview)
      → collect forms raws (flock_table display fs) ≡ union flock_forms fs
  unfolding collect
  collect-flock_table [] = refl
  collect-flock_table (f ∷ fs) =
      collect-each forms raws (flock_row display) flock_forms (f ∷ fs) (λ r. refl)

  pub collect-admin_view :
      (nav : Nav) (flash : Option Text) (ps : List ProviderSummary) (us : List AdminUserOverview)
      (fs : List AdminFlockOverview)
      → collect forms raws (admin_view display nav flash ps us fs)
        ≡ framed forms raws display nav (union user_forms us ++ union flock_forms fs)
  unfolding collect admin_view
  collect-admin_view nav flash ps us fs = simp (
    collect-layout forms raws display (say "admin") nav flash,
    Inert-configured ps,
    collect-user_cards none us,
    collect-flock_table fs,
  )
