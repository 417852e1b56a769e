-- ===== src/Web/Views/Duck.antt =====
-- `Page::origination_form`, `Page::staged`, `Page::duck` and `Page::vessel_options` of
-- crates/web/src/views.rs.
pub mod Offers
pub mod Controls
use duck_voyage.Prelude.{
  ℕ, Bool, true, false, not, Option, none, some, List, [], ◌∷◌, ◌++◌, ◌==◌, if◌then◌else◌, length,
  map_option,
}
use duck_voyage.Prelude.Text.{Text, codes}
use duck_voyage.Domain.BoundedText.{DuckName}
use duck_voyage.Domain.Codes.{DuckCode}
use duck_voyage.Domain.Coords.{Coordinates}
use duck_voyage.Domain.Entities.{Key, DuckDetails}
use duck_voyage.Storage.Views.{SightingView, CommentView, VesselOption}
use duck_voyage.Web.Duck.Pages.{Nav, DuckView}
use duck_voyage.Web.Views.{group_vessels}
use duck_voyage.Web.Views.Markup.{
  attr, flag, href, src, action, post, Markup, empty, text, raw, void, el, form, ◌⊕◌, say, at, tag,
  class, when, given, each, or_else, decimal, number, plural,
}
use duck_voyage.Web.Views.Layout.{Display, layout, grouped, duck_path, dotted, muted, since_text}

abbrev pub under : DuckCode → Text → Text
under code rest = duck_path code ++ rest

abbrev pub name_text : Option DuckName → Option Text
name_text name = map_option (λ n. n.as_str) name

abbrev pub qr_link : DuckCode → Markup
qr_link code =
    el "a" (href (under code (codes "/qr.png")) ∷ at "hx-boost" "false" ∷ []) (say "QR label")

abbrev pub vessel_choice : VesselOption → Markup
vessel_choice v = el "option" (attr "value" (decimal v.id) ∷ []) (text v.name)

abbrev pub vessel_group : Text × List VesselOption → Markup
vessel_group (line, ships) = el "optgroup" (attr "label" line ∷ []) (each vessel_choice ships)

abbrev pub other_group : List VesselOption → Markup
other_group [] = empty
other_group (v ∷ vs) = el "optgroup" (at "label" "Other" ∷ []) (each vessel_choice (v ∷ vs))

-- `Page::vessel_options`
unfoldable pub vessel_options : List VesselOption → Markup
vessel_options vessels =
    let g = group_vessels (record { by_line = []; unaffiliated = [] }) vessels in
    each vessel_group g.by_line ⊕ other_group g.unaffiliated

-- A form of one button, that asks first.
abbrev pub confirmed : Text → Text → Markup → Markup
confirmed target question button =
    form
      (class "inline"
        ∷ post
        ∷ action target
        ∷ attr "onsubmit" (codes "return confirm('" ++ question ++ codes "')")
        ∷ [])
      (tag "button" button)

abbrev pub follow_form : DuckView → Markup
follow_form v =
    form
      (class "inline"
        ∷ post
        ∷ action (under v.code (if v.is_following then codes "/unfollow" else codes "/follow"))
        ∷ [])
      (tag "button" (if v.is_following then say "unfollow" else say "follow this duck"))

abbrev pub moderation_card : DuckView → Markup
moderation_card v = el "div" (class "card" ∷ []) (
    el "span" (class "muted" ∷ []) (say "moderation: ")
    ⊕ form
        (class "inline"
          ∷ post
          ∷ action (
              under v.code (
                codes "/comments/" ++ (if v.comments_locked then codes "unlock" else codes "lock")))
          ∷ [])
        (tag "button" (if v.comments_locked then say "unlock comments" else say "lock comments"))
    ⊕ say " "
    ⊕ confirmed (under v.code (codes "/delete"))
        (codes
          "Delete this duck? It disappears from the site; you can restore it from your flock page.")
        (say "delete duck"))

abbrev pub sighting_path : DuckView → SightingView → Text → Text
sighting_path v s rest = under v.code (codes "/sightings/" ++ decimal s.id ++ rest)

abbrev pub no_comments : List CommentView → Markup
no_comments [] = muted (say "No comments yet.")
no_comments (c ∷ cs) = empty

abbrev pub comment_box : Nav → DuckView → Markup
comment_box nav v =
    if v.comments_locked
    then muted (say "Comments are closed on this duck.")
    else if nav.logged_in
    then form (class "stack" ∷ post ∷ action (under v.code (codes "/comments")) ∷ []) (
        el "textarea"
          (at "name" "body"
            ∷ at "rows" "2"
            ∷ flag "required"
            ∷ at "placeholder" "Say something nice"
            ∷ [])
          empty
        ⊕ tag "button" (say "Comment"))
    else no_comments v.comments

abbrev pub unspotted : List SightingView → Markup
unspotted [] = muted (say "Not spotted yet. It's out there somewhere.")
unspotted (s ∷ ss) = empty

abbrev pub title_of : DuckView → Markup
title_of v = elim v.name [ none ↦ grouped v.code | some name ↦ text name ]

module _ (display : Display) where
  -- `Page::origination_form`
  unfoldable pub origination : Nav → DuckCode → Markup
  origination nav code = layout display (say "define duck") nav none (
      tag "h2" (say "Define duck " ⊕ el "span" (class "code" ∷ []) (grouped code))
      ⊕ tag "p" (
          say "This code is yours and hasn't been brought to life yet. Snap a photo of the "
          ⊕ say "duck and tell the world what it is — you can do this at home, before it "
          ⊕ say "travels. It stays invisible to everyone else until you set it sailing.")
      ⊕ form
          (class "stack"
            ∷ post
            ∷ at "enctype" "multipart/form-data"
            ∷ action (under code (codes "/originate"))
            ∷ [])
          (tag "label" (
              say "Photo of the duck (required)"
              ⊕ void "input" (
                  at "type" "file"
                  ∷ at "name" "photo"
                  ∷ at "accept" "image/*"
                  ∷ flag "required"
                  ∷ []))
            ⊕ tag "label" (
                say "Description (required)"
                ⊕ el "textarea"
                    (at "name" "description"
                      ∷ at "rows" "3"
                      ∷ flag "required"
                      ∷ at "placeholder" "A tiny pirate duck with an eyepatch"
                      ∷ [])
                    empty)
            ⊕ tag "label" (
                say "Name (optional)"
                ⊕ void "input" (
                    at "type" "text"
                    ∷ at "name" "name"
                    ∷ at "placeholder" "Captain Quackbeard"
                    ∷ []))
            ⊕ tag "label" (
                void "input" (at "type" "checkbox" ∷ at "name" "set_sail" ∷ at "value" "on" ∷ [])
                ⊕ say " it's already in place — set sail immediately")
            ⊕ tag "button" (say "Save the duck"))
      ⊕ muted (
          say "Left unchecked, the duck is staged: scan its sticker (or open this page) "
          ⊕ say "once it's hidden aboard and press “Set sail”."))

  -- `Page::staged`
  unfoldable pub staged_view : Nav → DuckCode → DuckDetails → Markup
  staged_view nav code d = layout display (say "ready to sail") nav none (
      tag "h2"
        (el "span" (class "code" ∷ []) (grouped code) ⊕ dotted (name_text d.name) ⊕ say " — staged")
      ⊕ void "img"
          (class "photo" ∷ src (under code (codes "/photo")) ∷ at "alt" "photo of this duck" ∷ [])
      ⊕ tag "p" (text d.description.as_str)
      ⊕ muted (
          say "Defined "
          ⊕ since_text display d.defined_at
          ⊕ say ". Only you can see this page until it sets sail.")
      ⊕ form (class "stack" ∷ post ∷ action (under code (codes "/set-sail")) ∷ [])
          (tag "button" (say "⛵ Set sail — the duck is in place"))
      ⊕ muted (qr_link code ⊕ say " · scanning the printed sticker leads right back here."))

  abbrev pub find_form : DuckView → Markup
  find_form v =
      form
        (class "stack"
          ∷ post
          ∷ at "enctype" "multipart/form-data"
          ∷ action (under v.code (codes "/sightings"))
          ∷ [])
        (tag "label" (
            say "Which ship?"
            ⊕ el "select" (at "name" "vessel_id" ∷ flag "required" ∷ []) (
                el "option" (at "value" "" ∷ flag "disabled" ∷ flag "selected" ∷ [])
                  (say "pick a vessel")
                ⊕ vessel_options v.vessels))
          ⊕ tag "label" (
              say "When? (leave as-is if just now)"
              ⊕ void "input"
                  (at "type" "datetime-local" ∷ at "name" "seen_at" ∷ at "id" "seen-at" ∷ []))
          ⊕ tag "label" (
              say "Note (optional)"
              ⊕ el "textarea"
                  (at "name" "note"
                    ∷ at "rows" "2"
                    ∷ at "placeholder" "Perched above the towel animals on deck 9"
                    ∷ [])
                  empty)
          ⊕ tag "label" (
              say "Photo (optional)"
              ⊕ void "input" (at "type" "file" ∷ at "name" "photo" ∷ at "accept" "image/*" ∷ []))
          ⊕ void "input" (at "type" "hidden" ∷ at "name" "latitude" ∷ at "id" "geo-lat" ∷ [])
          ⊕ void "input" (at "type" "hidden" ∷ at "name" "longitude" ∷ at "id" "geo-lon" ∷ [])
          ⊕ tag "div" (
              el "button" (at "type" "button" ∷ at "onclick" "duckAttachLocation()" ∷ [])
                (say "📍 attach my location")
              ⊕ say " "
              ⊕ el "span" (at "id" "geo-status" ∷ class "muted" ∷ []) empty)
          ⊕ tag "button" (say "Record the find"))
      ⊕ tag "script" (raw display.geo_js)

  -- The link to the map, and `Display for Coordinates` (crates/domain/src/coords.rs).
  abbrev pub map_link : Coordinates → Markup
  map_link c =
      el "a"
        (href (
            codes "https://www.openstreetmap.org/?mlat="
            ++ display.fixed 6 c.lat
            ++ codes "&mlon="
            ++ display.fixed 6 c.lon
            ++ codes "#map=8/"
            ++ display.fixed 4 c.lat
            ++ codes "/"
            ++ display.fixed 4 c.lon)
          ∷ at "hx-boost" "false"
          ∷ [])
        (say "📍 " ⊕ text (display.fixed 5 c.lat ++ codes ", " ++ display.fixed 5 c.lon))

  abbrev pub sighting_card : DuckView → SightingView → Markup
  sighting_card v s = el "div" (class "card" ∷ []) (
      tag "strong" (text s.vessel_name)
      ⊕ say " · "
      ⊕ since_text display s.seen_at
      ⊕ given s.by_display_name (λ by. say " · found by " ⊕ text by)
      ⊕ when v.can_moderate (
          say " "
          ⊕ confirmed (sighting_path v s (codes "/delete"))
              (codes "Delete this sighting (and its photo)?") (say "✕"))
      ⊕ given s.coordinates (λ c. say " · " ⊕ map_link c)
      ⊕ given s.note (λ note. tag "p" (text note))
      ⊕ when s.has_photo (
          void "img" (
            class "photo"
            ∷ src (sighting_path v s (codes "/photo"))
            ∷ at "alt" "sighting photo"
            ∷ at "loading" "lazy"
            ∷ [])))

  abbrev pub comment_card : DuckView → CommentView → Markup
  comment_card v c = el "div" (class "card" ∷ []) (
      el "span" (class "muted" ∷ [])
        (text (or_else c.by_display_name "someone") ⊕ say " · " ⊕ since_text display c.created_at)
      ⊕ when v.can_moderate (
          say " "
          ⊕ confirmed (under v.code (codes "/comments/" ++ decimal c.id ++ codes "/delete"))
              (codes "Delete this comment?") (say "✕"))
      ⊕ tag "p" (text c.body))

  -- `Page::duck`
  unfoldable pub duck_view : Nav → Option Text → DuckView → Markup
  duck_view nav flash v = layout display (title_of v) nav flash (
      tag "h2" (el "span" (class "code" ∷ []) (grouped v.code) ⊕ dotted v.name)
      ⊕ void "img" (
          class "photo"
          ∷ src (under v.code (codes "/photo"))
          ∷ at "alt" "origin photo of this duck"
          ∷ [])
      ⊕ tag "p" (text v.description)
      ⊕ muted (
          say "Traveling since "
          ⊕ text (display.date v.since)
          ⊕ say " · "
          ⊕ number (length v.sightings)
          ⊕ say " find"
          ⊕ plural (length v.sightings)
          ⊕ when v.is_owner (say " · yours — " ⊕ qr_link v.code))
      ⊕ when nav.logged_in (follow_form v)
      ⊕ when v.can_moderate (moderation_card v)
      ⊕ tag "h2" (say "Log a find")
      ⊕ (if nav.logged_in
          then find_form v
          else tag "p" (
              el "a" (href (codes "/login?return_to=" ++ duck_path v.code) ∷ [])
                (say "Log in to record your find")))
      ⊕ tag "h2" (say "Sighting history")
      ⊕ unspotted v.sightings
      ⊕ each (sighting_card v) v.sightings
      ⊕ tag "h2" (say "Comments")
      ⊕ each (comment_card v) v.comments
      ⊕ comment_box nav v)
