-- ===== src/Web/Views/Picker.antt =====
-- The vessel picker of crates/web/src/views.rs offers every vessel once.
use duck_voyage.Prelude.{
  ℕ, ◌+◌, ◌≡◌, ◌≢◌, refl, arith, ap, ◌∙◌, All-append, Bool, Option, none, some, List, [], ◌∷◌, ◌++◌,
  All, if◌then◌else◌, Bool-cases, inl, inr,
}
use duck_voyage.Prelude.Text.{Text, text_eq, text_eq_sound}
use duck_voyage.Prelude.Tables.{count}
use duck_voyage.Prelude.Tables.Laws
use duck_voyage.Storage.Views.{VesselOption}
use duck_voyage.Web.Views.{
  Groups, text_lt, push_entry, place_vessel, group_vessels, options_of, picker,
}

cons_nil {ℓ} : {A : Type ℓ} {x : A} {xs : List A} → x ∷ xs ≢ []
cons_nil h = cc

snoc_nil {ℓ} : {A : Type ℓ} (x : A) (xs : List A) → xs ++ x ∷ [] ≢ []
snoc_nil x [] h = cc
snoc_nil x (y ∷ xs) h = cc

module _ (test : VesselOption → Bool) where
  push_entry-count :
      (line : Text) (v : VesselOption) (groups : List (Text × List VesselOption))
      → count test (options_of (push_entry line v groups))
        ≡ count test (options_of groups) + (if test v then 1 else 0)
  unfolding push_entry options_of
  push_entry-count line v [] = ground arith
  push_entry-count line v ((key, ships) ∷ rest) = elim (Bool-cases (text_eq line key)) [
    | inl e ↦
        rw
          (
            e,
            Laws.count-append test (ships ++ v ∷ []) (options_of rest),
            Laws.count-append test ships (v ∷ []),
            Laws.count-append test ships (options_of rest),
          )
          (omega arith)
    | inr e ↦ elim (Bool-cases (text_lt line key)) [
      | inl l ↦ rw (e, l) (omega arith)
      | inr l ↦
          let ih = push_entry-count line v rest in
          rw
            (
              e,
              l,
              Laws.count-append test ships (options_of (push_entry line v rest)),
              Laws.count-append test ships (options_of rest),
              ih,
            )
            (omega arith)
    ]
  ]

  abbrev counted : Groups → ℕ
  counted g = count test (options_of g.by_line ++ g.unaffiliated)

  place_vessel-count :
      (g : Groups) (v : VesselOption) (line : Option Text)
      → counted (place_vessel g v line) ≡ counted g + (if test v then 1 else 0)
  place_vessel-count g v none =
      rw
        (
          Laws.count-append test (options_of g.by_line) (g.unaffiliated ++ v ∷ []),
          Laws.count-append test g.unaffiliated (v ∷ []),
          Laws.count-append test (options_of g.by_line) g.unaffiliated,
        )
        (omega arith)
  place_vessel-count g v (some line) =
      rw
        (
          Laws.count-append test (options_of (push_entry line v g.by_line)) g.unaffiliated,
          push_entry-count line v g.by_line,
          Laws.count-append test (options_of g.by_line) g.unaffiliated,
        )
        (omega arith)

  group_vessels-count :
      (g : Groups) (vessels : List VesselOption)
      → counted (group_vessels g vessels) ≡ counted g + count test vessels
  unfolding group_vessels
  group_vessels-count g [] = omega arith
  group_vessels-count g (v ∷ vessels) =
      let first = place_vessel-count g v v.line in
      let later = group_vessels-count (place_vessel g v v.line) vessels in
      omega (arith, first, later)

  picker-count : (vessels : List VesselOption) → count test (picker vessels) ≡ count test vessels
  unfolding picker options_of
  picker-count vessels =
      group_vessels-count (record { by_line = []; unaffiliated = [] }) vessels ∙ omega arith

-- A group is of the vessels of its line, and of one at least.
abbrev pub IsGroup : Text × List VesselOption → Type 0
IsGroup (key, ships) = All (λ (v : VesselOption). v.line ≡ some key) ships × (ships ≢ [])

push_entry-IsGroup :
    (line : Text) (v : VesselOption) (groups : List (Text × List VesselOption))
    → v.line ≡ some line
    → All IsGroup groups
    → All IsGroup (push_entry line v groups)
unfolding push_entry
push_entry-IsGroup line v [] h _ = (((h, tt), λ e. cons_nil e), tt)
push_entry-IsGroup line v ((key, ships) ∷ rest) h ((all, some_ship), later) =
    elim (Bool-cases (text_eq line key)) [
      | inl e ↦
          let same : v.line ≡ some key = h ∙ ap some (text_eq_sound line key e) in
          rw e ((All-append _ ships (v ∷ []) all (same, tt), snoc_nil v ships), later)
      | inr e ↦ elim (Bool-cases (text_lt line key)) [
        | inl l ↦ rw (e, l) (((h, tt), λ e. cons_nil e), ((all, some_ship), later))
        | inr l ↦ rw (e, l) ((all, some_ship), push_entry-IsGroup line v rest h later)
      ]
    ]

abbrev pub IsGrouped : Groups → Type 0
IsGrouped g = All IsGroup g.by_line × All (λ (v : VesselOption). v.line ≡ none) g.unaffiliated

place_vessel-IsGrouped :
    (g : Groups) (v : VesselOption) (line : Option Text)
    → v.line ≡ line
    → IsGrouped g
    → IsGrouped (place_vessel g v line)
place_vessel-IsGrouped g v none h (lined, others) =
    (lined, All-append _ g.unaffiliated (v ∷ []) others (h, tt))
place_vessel-IsGrouped g v (some line) h (lined, others) =
    (push_entry-IsGroup line v g.by_line h lined, others)

group_vessels-IsGrouped :
    (g : Groups) (vessels : List VesselOption) → IsGrouped g → IsGrouped (group_vessels g vessels)
unfolding group_vessels
group_vessels-IsGrouped g [] h = h
group_vessels-IsGrouped g (v ∷ vessels) h =
    group_vessels-IsGrouped (place_vessel g v v.line) vessels
      (place_vessel-IsGrouped g v v.line refl h)

-- The vessel picker groups vessels by line, each group not empty and of one line, keeps those
-- without a line apart, and offers every vessel as often as it is listed.
pub picker_lem :
    (vessels : List VesselOption)
    → IsGrouped (group_vessels (record { by_line = []; unaffiliated = [] }) vessels)
      × ((test : VesselOption → Bool) → count test (picker vessels) ≡ count test vessels)
picker_lem vessels = (
  group_vessels-IsGrouped (record { by_line = []; unaffiliated = [] }) vessels (tt, tt),
  λ test. picker-count test vessels,
)
