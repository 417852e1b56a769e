-- ===== src/Web/Views/Own.antt =====
-- `Page::me` and `Page::flocks` of crates/web/src/views.rs.
use duck_voyage.Prelude.{ℕ, not, Option, none, List, [], ◌∷◌, ◌++◌, ltb, if◌then◌else◌, length}
use duck_voyage.Prelude.Text.{Text, codes}
use duck_voyage.Domain.Entities.{DuckLifecycle, allocated, staged, sailing, Duck, Flock, is_deleted}
use duck_voyage.Storage.Views.{FlockDuckStatus}
use duck_voyage.Storage.Overviews.{MySighting, FollowedDuck, NotificationView}
use duck_voyage.Web.Duck.Pages.{Nav}
use duck_voyage.Web.Views.Markup.{
  attr, href, action, post, Markup, empty, text, void, el, form, ◌⊕◌, say, at, tag, class, when,
  given, each, decimal, number, plural,
}
use duck_voyage.Web.Views.Layout.{
  Display, layout, duck_path, duck_link, dotted, muted, heads, since_text,
}
use duck_voyage.Web.Views.Duck.{under}

-- What the dashboard says of a duck.
abbrev pub stage_of : Duck → DuckLifecycle → Markup
stage_of d allocated = el "a" (href (duck_path d.code) ∷ []) (say "allocated — define it")
stage_of d (staged details) =
    el "a" (href (duck_path d.code) ∷ []) (say "staged — ready to set sail")
stage_of d (sailing details since) = say "⛵ sailing"

abbrev pub restore_form : Duck → Markup
restore_form d =
    say "deleted — "
    ⊕ form (class "inline" ∷ post ∷ action (under d.code (codes "/restore")) ∷ [])
        (tag "button" (say "restore"))

abbrev pub status_row : FlockDuckStatus → Markup
status_row s = tag "tr" (
    tag "td" (duck_link s.duck.code)
    ⊕ tag "td" (if is_deleted s.duck then restore_form s.duck else stage_of s.duck s.duck.lifecycle)
    ⊕ tag "td" (number s.sighting_count)
    ⊕ tag "td" (
        when (not (is_deleted s.duck)) (
          el "a" (href (under s.duck.code (codes "/qr.png")) ∷ at "hx-boost" "false" ∷ [])
            (say "QR"))))

abbrev pub status_table : List FlockDuckStatus → Markup
status_table [] = empty
status_table (s ∷ ss) = tag "table" (
    tag "tr" (heads (codes "code" ∷ codes "status" ∷ codes "finds" ∷ []) ⊕ tag "th" empty)
    ⊕ each status_row (s ∷ ss))

module _ (display : Display) where
  abbrev pub notification_card : NotificationView → Markup
  notification_card n = el "div" (class "card" ∷ []) (
      when n.unread (el "span" (class "badge" ∷ []) (say "new") ⊕ say " ")
      ⊕ duck_link n.duck_code
      ⊕ given n.duck_name (λ name. say " (" ⊕ text name ⊕ say ")")
      ⊕ say " was found aboard "
      ⊕ tag "strong" (text n.vessel_name)
      ⊕ say " · "
      ⊕ since_text display n.seen_at)

  abbrev pub activity : Nav → List NotificationView → Markup
  activity nav [] = muted (say "Nothing yet. Follow a duck and you'll hear when it's found.")
  activity nav (n ∷ ns) =
      when (ltb 0 nav.unread) (
        form (class "inline" ∷ post ∷ action (codes "/me/notifications/read") ∷ [])
          (tag "button" (say "mark all read")))
      ⊕ each notification_card (n ∷ ns)

  abbrev pub my_row : MySighting → Markup
  my_row s = tag "tr" (
      tag "td" (duck_link s.duck_code ⊕ dotted s.duck_name)
      ⊕ tag "td" (text s.vessel_name)
      ⊕ tag "td" (since_text display s.seen_at))

  abbrev pub my_table : List MySighting → Markup
  my_table [] = muted (say "No finds logged yet.")
  my_table (s ∷ ss) =
      tag "table" (
        tag "tr" (heads (codes "duck" ∷ codes "aboard" ∷ codes "when" ∷ [])) ⊕ each my_row (s ∷ ss))

  abbrev pub follow_row : FollowedDuck → Markup
  follow_row f = tag "tr" (
      tag "td" (duck_link f.duck_code ⊕ dotted f.duck_name)
      ⊕ tag "td" (text (display.date f.followed_at)))

  abbrev pub follow_table : List FollowedDuck → Markup
  follow_table [] = muted (say "None yet.")
  follow_table (f ∷ fs) =
      tag "table"
        (tag "tr" (heads (codes "duck" ∷ codes "following since" ∷ [])) ⊕ each follow_row (f ∷ fs))

  -- `Page::me`
  unfoldable pub me_view :
      Nav → List NotificationView → List MySighting → List FollowedDuck → Markup
  me_view nav notifications sightings follows = layout display (say "me") nav none (
      tag "h2" (say "Activity")
      ⊕ activity nav notifications
      ⊕ tag "h2" (say "Your finds")
      ⊕ my_table sightings
      ⊕ tag "h2" (say "Ducks you follow")
      ⊕ follow_table follows)

  abbrev pub flock_card : ℕ → Flock × List FlockDuckStatus → Markup
  flock_card mint_batch_max (flock, ducks) = el "div" (class "card" ∷ []) (
      el "h2" (at "style" "margin-top:0" ∷ []) (
        el "span" (class "code" ∷ []) (text flock.code.as_str ⊕ say "-")
        ⊕ given flock.label (λ label. say " · " ⊕ text label.as_str))
      ⊕ muted (
          number (length ducks)
          ⊕ say " duck"
          ⊕ plural (length ducks)
          ⊕ say " · since "
          ⊕ text (display.date flock.created_at))
      ⊕ form
          (class "inline"
            ∷ post
            ∷ action (codes "/flocks/" ++ decimal flock.id ++ codes "/ducks")
            ∷ [])
          (void "input" (
              at "type" "number"
              ∷ at "name" "count"
              ∷ at "value" "10"
              ∷ at "min" "1"
              ∷ attr "max" (decimal mint_batch_max)
              ∷ at "style" "width:5rem"
              ∷ [])
            ⊕ tag "button" (say "mint codes"))
      ⊕ status_table ducks)

  -- `Page::flocks`
  unfoldable pub flocks_view : Nav → Option Text → List (Flock × List FlockDuckStatus) → ℕ → Markup
  flocks_view nav flash flocks mint_batch_max = layout display (say "my flocks") nav flash (
      tag "p" (
        say "A flock is your own block of duck codes under one prefix. Mint codes, print "
        ⊕ say "the labels, stick them on ducks, then scan each sticker to bring its duck to life.")
      ⊕ form (class "stack" ∷ post ∷ action (codes "/flocks") ∷ []) (
          tag "label" (
            say "Label (optional, just for you)"
            ⊕ void "input"
                (at "type" "text" ∷ at "name" "label" ∷ at "placeholder" "Alaska trip 2026" ∷ []))
          ⊕ tag "button" (say "Grab a new flock"))
      ⊕ each (flock_card mint_batch_max) flocks)
