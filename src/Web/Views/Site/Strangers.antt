-- ===== src/Web/Views/Site/Strangers.antt =====
-- What the handler `page` of crates/web/src/handlers/duck.rs, rendered by crates/web/src/views.rs, offers to
-- one who may not moderate.
use duck_voyage.Prelude.{
  ◌≡◌, refl, Bool, true, false, not, Option, ◌&&◌, if◌then◌else◌, All, All-append, All-if,
  Bool-cases, inl, inr, sym, subst, ◌∙◌,
}
use duck_voyage.Prelude.Results.{Res, ok, err, >>=-eq-ok, ok_injective, map_err}
use duck_voyage.Prelude.Text.{Text}
use duck_voyage.Domain.Entities.{
  Timestamp, DuckLifecycle, allocated, staged, sailing, DuckDetails, Duck, Flock,
}
use duck_voyage.Storage.Db.{Db}
use duck_voyage.Storage.Views.{VesselOption, sightings_for_duck, comments_for_duck, vessel_options}
use duck_voyage.Web.State.{WebError, not_found, repo, User, Env, App}
use duck_voyage.Web.Duck.{resolve, is_owner}
use duck_voyage.Web.Duck.Pages.{
  Nav, nav, DuckView, Page, duck_page, origination_form, staged_page, following_of, moderates,
  sailing_page, page_of, page,
}
use duck_voyage.Web.Router.{
  Endpoint, delete_duck, restore_duck, lock_comments, unlock_comments, delete_comment,
  delete_sighting,
}
use duck_voyage.Web.Views.Markup.{posts}
use duck_voyage.Web.Views.Layout.{Display}
use duck_voyage.Web.Views.Duck.Controls.{
  Control, toggle_follow, paths, controls, at_sea, levers, logbook, removals, chat,
}
use duck_voyage.Web.Views.Site.{of_duck, view}
use duck_voyage.Web.Views.Site.Controls.{account, offered, view-paths}

-- The handlers for those who moderate.
abbrev pub moderating : Endpoint → Bool
moderating delete_duck = true
moderating restore_duck = true
moderating lock_comments = true
moderating unlock_comments = true
moderating delete_comment = true
moderating delete_sighting = true
moderating _ = false

abbrev pub IsHarmless : Control → Type 0
IsHarmless c = moderating c.0 ≡ false

account-IsHarmless : (nav : Nav) → All IsHarmless (account nav)
account-IsHarmless nav = All-if IsHarmless nav.logged_in _ (refl, tt)

toggled : (v : DuckView) → IsHarmless (toggle_follow v)
toggled v = elim (Bool-cases v.is_following) [ inl e ↦ rw e refl | inr e ↦ rw e refl ]

controls-IsHarmless :
    (nav : Nav) (v : DuckView) → v.can_moderate ≡ false → All IsHarmless (controls nav v)
controls-IsHarmless nav v e =
    let sea : All IsHarmless (at_sea nav v) =
      All-if IsHarmless nav.logged_in _ (refl, (toggled v, tt)) in
    let book : All IsHarmless (logbook nav v) = All-if IsHarmless nav.logged_in _ (refl, tt) in
    let talk : All IsHarmless (chat nav v) =
      All-if IsHarmless (nav.logged_in && not v.comments_locked) _ (refl, tt) in
    All-append IsHarmless (at_sea nav v) _ sea (
      All-append IsHarmless (levers v) _ (rw e tt) (
        All-append IsHarmless (logbook nav v) _ book
          (All-append IsHarmless (removals v) _ (rw e tt) talk)))

carried :
    {nav : Nav} {flash : Option Text} {v : DuckView} {p : Page}
    → ◌≡◌ {A = Res WebError Page} (ok (duck_page nav flash v)) (ok p)
    → v.can_moderate ≡ false
    → All IsHarmless (offered (of_duck p))
carried {nav} {flash} {v} h e =
    subst (λ q. All IsHarmless (offered (of_duck q))) (ok_injective h) (controls-IsHarmless nav v e)

-- A page for the owner only.
owners :
    (b : Bool) (q : Page) {p : Page}
    → ◌≡◌ {A = Res WebError Page} (if b then ok q else err not_found) (ok p)
    → All IsHarmless (offered (of_duck q))
    → All IsHarmless (offered (of_duck p))
owners true q h harmless =
    subst (λ r. All IsHarmless (offered (of_duck r))) (ok_injective h) harmless
owners false q h harmless = cc

module _ (env : Env) (app : App env) (collation : VesselOption → VesselOption → Bool) where
  open env use {fpe}

  module _ (chrome : Nav) (user : Option User) (flash : Option Text) (duck : Duck) (flock : Flock)
      (stranger : moderates user flock ≡ false) (db : Db) (p : Page) where
    sailing_page-IsHarmless :
        (d : DuckDetails) (since : Timestamp)
        → sailing_page env app collation chrome user flash duck flock d since db ≡ ok p
        → All IsHarmless (offered (of_duck p))
    unfolding sailing_page
    sailing_page-IsHarmless d since h =
        let (sightings, _, h1) = >>=-eq-ok (map_err repo (sightings_for_duck duck.id db)) _ h in
        let (comments, _, h2) = >>=-eq-ok (map_err repo (comments_for_duck duck.id db)) _ h1 in
        let (vessels, _, h3) = >>=-eq-ok (map_err repo (vessel_options collation db)) _ h2 in
        let (following, _, h4) = >>=-eq-ok (following_of user duck.id db) _ h3 in
        carried h4 stranger

    page_of-IsHarmless :
        (l : DuckLifecycle)
        → page_of env app collation chrome user flash duck flock l db ≡ ok p
        → All IsHarmless (offered (of_duck p))
    unfolding page_of
    page_of-IsHarmless allocated h =
        owners (is_owner user flock) (origination_form chrome duck.code) h
          (All-append IsHarmless (account chrome) _ (account-IsHarmless chrome) (refl, tt))
    page_of-IsHarmless (staged d) h =
        owners (is_owner user flock) (staged_page chrome duck.code d) h
          (All-append IsHarmless (account chrome) _ (account-IsHarmless chrome) (refl, tt))
    page_of-IsHarmless (sailing d since) h = sailing_page-IsHarmless d since h

  -- The page of a duck that is answered to one who may not moderate its flock has the forms that
  -- are offered with it, and none of them is for a handler that moderates: deleting or restoring
  -- the duck, locking or unlocking its comments, and deleting a comment or a sighting.
  pub page-IsHarmless :
      (display : Display) (raw : Text) (user : Option User) (flash : Option Text) (db : Db)
      (duck : Duck) (flock : Flock) (p : Page)
      → resolve fpe app.codec raw db ≡ ok (duck, flock)
      → moderates user flock ≡ false
      → page env app collation raw user flash db ≡ ok p
      → (posts (view display (of_duck p)) ≡ paths (offered (of_duck p)))
        × All IsHarmless (offered (of_duck p))
  unfolding page
  page-IsHarmless display raw user flash db duck flock p found stranger h =
      let (f, e, h1) = >>=-eq-ok (resolve fpe app.codec raw db) _ h in
      let (chrome, _, h2) = >>=-eq-ok (nav user db) _ h1 in
      let same : f ≡ (duck, flock) = ok_injective (sym e ∙ found) in
      let shown =
        subst
          (λ (x : Duck × Flock).
            page_of env app collation chrome user flash x.0 x.1 x.0.lifecycle db ≡ ok p)
          same h2 in
      (
        view-paths display (of_duck p),
        page_of-IsHarmless chrome user flash duck flock stranger db p duck.lifecycle shown,
      )
