-- ===== src/Web/Views.antt =====
-- The logic of crates/web/src/views.rs: how long ago, and the vessel picker. The markup around it is by the
-- crate maud.
pub mod Time
pub mod Picker
pub mod Markup
pub mod Layout
pub mod Duck
pub mod Own
pub mod Site
use duck_voyage.Prelude.{
  ℕ, suc, ◌-◌, ◌*◌, ◌/◌, Bool, true, false, Option, none, some, List, [], ◌∷◌, ◌++◌, ◌==◌, ltb,
  if◌then◌else◌,
}
use duck_voyage.Prelude.Text.{Text, text_eq, codes}
use duck_voyage.Domain.Entities.{Timestamp}
use duck_voyage.Storage.Views.{VesselOption}

pub data Span : Type 0 where
  hour day month year : Span

-- The seconds that `When::ago` counts for a unit.
abbrev pub seconds_of : Span → ℕ
seconds_of hour = 3600
seconds_of day = 86400
seconds_of month = 86400 * 30
seconds_of year = 86400 * 365

-- What `When::ago` says: "just now", or a number of units.
pub data Ago : Type 0 where
  just_now : Ago
  units : ℕ → Span → Ago

abbrev pub in_units : ℕ → Span → Ago
in_units seconds span = units (seconds / seconds_of span) span

-- The `match` on the seconds.
unfoldable pub ago_of : ℕ → Ago
ago_of s =
    if ltb s 3600
    then just_now
    else if ltb s 86400
    then in_units s hour
    else if ltb s (86400 * 60)
    then in_units s day
    else if ltb s (86400 * 365 * 2)
    then in_units s month
    else in_units s year

-- `When::ago` at an instant. Both instants count from one start, and the difference stops at 0, as
-- `max(0)` has it.
unfoldable pub ago : Timestamp → Timestamp → Ago
unfolding ago_of
ago now ts = ago_of (now - ts)

-- `<` on `str`: that of the code points agrees with that of the bytes of UTF-8.
abbrev pub text_lt : Text → Text → Bool
text_lt s [] = false
text_lt [] (b ∷ t) = true
text_lt (a ∷ s) (b ∷ t) =
    let rest = text_lt s t in if ltb a b then true else if a == b then rest else false

pub record Groups : Type 0 where
  pub by_line : List (Text × List VesselOption)
  pub unaffiliated : List VesselOption

-- `by_line.entry(line).or_default().push(v)`, in a map ordered by its keys.
unfoldable pub push_entry :
    Text → VesselOption → List (Text × List VesselOption) → List (Text × List VesselOption)
push_entry line v [] = (line, v ∷ []) ∷ []
push_entry line v ((key, ships) ∷ rest) =
    let later = push_entry line v rest in
    if text_eq line key
    then (key, ships ++ v ∷ []) ∷ rest
    else if text_lt line key
    then (line, v ∷ []) ∷ (key, ships) ∷ rest
    else (key, ships) ∷ later

abbrev pub place_vessel : Groups → VesselOption → Option Text → Groups
place_vessel g v none = record g { unaffiliated = g.unaffiliated ++ v ∷ [] }
place_vessel g v (some line) = record g { by_line = push_entry line v g.by_line }

-- The `for_each` of `Page::vessel_options`.
unfoldable pub group_vessels : Groups → List VesselOption → Groups
unfolding push_entry
group_vessels g [] = g
group_vessels g (v ∷ vessels) = group_vessels (place_vessel g v v.line) vessels

-- The options that the picker shows, in order: the groups, and "Other" last.
unfoldable pub options_of : List (Text × List VesselOption) → List VesselOption
options_of [] = []
options_of ((key, ships) ∷ rest) = ships ++ options_of rest

unfoldable pub picker : List VesselOption → List VesselOption
unfolding group_vessels options_of
picker vessels =
    let g = group_vessels (record { by_line = []; unaffiliated = [] }) vessels in
    options_of g.by_line ++ g.unaffiliated
