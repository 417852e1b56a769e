-- ===== src/Web/Views/Layout.antt =====
-- The frame of every page and the tables that pages share: `Page::layout`, `summary_table`, `finds_table` and
-- the texts of `When`, of crates/web/src/views.rs.
use duck_voyage.Prelude.{ℕ, Option, none, some, List, [], ◌∷◌, ◌++◌, ◌==◌, ltb, if◌then◌else◌}
use duck_voyage.Prelude.Text.{Text, codes}
use duck_voyage.Domain.Codes.{DuckCode, display_grouped}
use duck_voyage.Domain.Coords.{F64}
use duck_voyage.Domain.Entities.{Timestamp}
use duck_voyage.Storage.Boards.{DuckSummary}
use duck_voyage.Storage.Overviews.{RecentFind}
use duck_voyage.Web.Scan.{distinct_sha}
use duck_voyage.Web.Duck.Pages.{Nav}
use duck_voyage.Web.Views.{Span, hour, day, month, year, Ago, just_now, units, ago}
use duck_voyage.Web.Views.Markup.{
  flag, href, src, action, post, Markup, empty, panics, text, raw, void, el, form, ◌⊕◌, say, at,
  tag, class, when, given, each, or_else, decimal, number,
}

-- What pages show of the build, the clock and the formats of crates: `CSS` and `GEO_JS` with the stylesheet
-- and the script, `DUCK_BUILD_VERSION` and `DUCK_GIT_SHA`, the instant now, `strftime("%Y-%m-%d")`
-- of jiff, and the decimals that `{:.n}` writes of an f64.
pub record Display : Type 0 where
  pub css : Text
  pub geo_js : Text
  pub version : Text
  pub sha : Text
  pub now : Timestamp
  pub date : Timestamp → Text
  pub fixed : ℕ → F64 → Text

abbrev pub unit_name : Span → Text
unit_name hour = codes "hour"
unit_name day = codes "day"
unit_name month = codes "month"
unit_name year = codes "year"

-- The text of `When::ago`.
abbrev pub ago_text : Ago → Text
ago_text just_now = codes "just now"
ago_text (units n span) =
    decimal n ++ codes " " ++ unit_name span ++ (if n == 1 then [] else codes "s") ++ codes " ago"

-- The link to a duck, "/d/" and its code.
abbrev pub duck_path : DuckCode → Text
duck_path code = codes "/d/" ++ code.as_str

abbrev pub grouped : DuckCode → Markup
grouped code = elim (display_grouped code) [ none ↦ panics | some shown ↦ text shown ]

-- The link that tables show for a duck, and its name behind it.
abbrev pub duck_link : DuckCode → Markup
duck_link code = el "a" (class "code" ∷ href (duck_path code) ∷ []) (grouped code)

abbrev pub dotted : Option Text → Markup
dotted name = given name (λ n. say " · " ⊕ text n)

abbrev pub muted : Markup → Markup
muted body = el "p" (class "muted" ∷ []) body

abbrev pub heads : List Text → Markup
heads [] = empty
heads (t ∷ ts) = tag "th" (text t) ⊕ heads ts

module _ (display : Display) where
  abbrev pub since_text : Timestamp → Markup
  since_text ts = text (ago_text (ago display.now ts))

  -- What the header offers one who is logged in.
  abbrev pub account : Nav → Markup
  account nav =
      when nav.is_admin (el "a" (href (codes "/admin") ∷ []) (say "admin"))
      ⊕ el "a" (href (codes "/me/flocks") ∷ []) (say "my flocks")
      ⊕ el "a" (href (codes "/me") ∷ []) (
          text (or_else nav.display_name "me")
          ⊕ when (ltb 0 nav.unread) (say " " ⊕ el "span" (class "badge" ∷ []) (number nav.unread)))
      ⊕ form (class "inline" ∷ post ∷ action (codes "/logout") ∷ []) (tag "button" (say "log out"))

  abbrev pub header : Nav → Markup
  header nav = tag "header" (
      tag "h1"
        (el "a" (href (codes "/") ∷ at "style" "text-decoration:none" ∷ []) (say "🦆 duck.voyage"))
      ⊕ el "a" (href (codes "/missing") ∷ []) (say "missing ducks")
      ⊕ el "span" (class "spacer" ∷ []) empty
      ⊕ (if nav.logged_in then account nav else el "a" (href (codes "/login") ∷ []) (say "log in")))

  abbrev pub footer : Markup
  footer = tag "footer" (
      tag "span" (say "duck-tracker")
      ⊕ el "span" (class "code" ∷ []) (
          text display.version
          ⊕ given (distinct_sha display.version display.sha) (λ s. say " (" ⊕ text s ⊕ say ")"))
      ⊕ el "a" (href (codes "https://github.com/ajf/duck.voyage") ∷ at "hx-boost" "false" ∷ [])
          (say "source"))

  -- `Page::layout`; the title is a piece, since a page may show a code there.
  unfoldable pub layout : Markup → Nav → Option Text → Markup → Markup
  layout title nav flash body =
      raw (codes "<!DOCTYPE html>")
      ⊕ el "html" (at "lang" "en" ∷ []) (
          tag "head" (
            void "meta" (at "charset" "utf-8" ∷ [])
            ⊕ void "meta"
                (at "name" "viewport" ∷ at "content" "width=device-width, initial-scale=1" ∷ [])
            ⊕ tag "title" (title ⊕ say " · duck.voyage")
            ⊕ tag "style" (raw display.css)
            ⊕ el "script" (src (codes "/static/htmx.min.js") ∷ flag "defer" ∷ []) empty)
          ⊕ el "body" (at "hx-boost" "true" ∷ []) (
              header nav
              ⊕ given flash (λ message. el "div" (class "flash" ∷ []) (text message))
              ⊕ tag "main" body
              ⊕ footer))

  abbrev pub summary_row : DuckSummary → Markup
  summary_row d = tag "tr" (
      tag "td" (duck_link d.code ⊕ dotted d.name)
      ⊕ tag "td" (since_text d.last_seen_at)
      ⊕ tag "td" (text d.last_vessel_name)
      ⊕ tag "td" (number d.sighting_count)
      ⊕ tag "td" (number d.unique_vessels))

  -- `Page::summary_table`
  unfoldable pub summary_table : List DuckSummary → Markup
  summary_table [] = muted (say "Nothing here yet.")
  summary_table (d ∷ ducks) = tag "table" (
      tag "tr" (
        heads
          (codes "duck" ∷ codes "last seen" ∷ codes "aboard" ∷ codes "finds" ∷ codes "ships" ∷ []))
      ⊕ each summary_row (d ∷ ducks))

  abbrev pub find_row : RecentFind → Markup
  find_row f = tag "tr" (
      tag "td" (duck_link f.duck_code ⊕ dotted f.duck_name)
      ⊕ tag "td" (text f.vessel_name)
      ⊕ tag "td" (since_text f.seen_at)
      ⊕ tag "td" (text (or_else f.by_display_name "someone")))

  -- `Page::finds_table`
  unfoldable pub finds_table : List RecentFind → Markup
  finds_table [] = muted (say "No finds yet — the first one could be yours.")
  finds_table (f ∷ finds) = tag "table" (
      tag "tr" (heads (codes "duck" ∷ codes "aboard" ∷ codes "when" ∷ codes "found by" ∷ []))
      ⊕ each find_row (f ∷ finds))
