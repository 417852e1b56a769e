-- ===== src/Web/Views/Duck/Offers.antt =====
-- What the page of a duck in crates/web/src/views.rs offers to whom: the forms of `Page::duck`.
use duck_voyage.Prelude.{
  ◌≡◌, refl, Option, List, [], ◌∷◌, ◌++◌, if◌then◌else◌, length, Bool-cases, Option-cases, inl, inr,
}
use mathlib.Core.List.{append-nil}
use duck_voyage.Prelude.Text.{Text, codes}
use duck_voyage.Storage.Views.{SightingView, CommentView, VesselOption}
use duck_voyage.Web.Duck.Pages.{Nav, DuckView}
use duck_voyage.Web.Views.{group_vessels}
use duck_voyage.Web.Views.Markup.{
  Attr, class, post, action, ◌⊕◌, text, say, collect, union, decimal, tag,
}
use duck_voyage.Web.Views.Markup.Pieces.{
  Inert, Inert-given, Inert-grouped, Inert-dotted, Inert-each, Inert-plural, collect-each,
  collect-if, collect-when, collect-layout, framed, if_same,
}
use duck_voyage.Web.Views.Layout.{Display}
use duck_voyage.Web.Views.Duck.{
  under, vessel_choice, vessel_group, other_group, vessel_options, confirmed, follow_form,
  moderation_card, find_form, sighting_path, sighting_card, comment_card, no_comments, comment_box,
  unspotted, title_of, duck_view, map_link,
}

module _ (forms : List Attr → List Text) (raws : Text → List Text) where
  Inert-other_group : (vs : List VesselOption) → Inert forms raws (other_group vs)
  unfolding collect
  Inert-other_group [] = refl
  Inert-other_group (v ∷ vs) = Inert-each forms raws vessel_choice (v ∷ vs) (λ v. refl)

  pub Inert-vessel_options : (vs : List VesselOption) → Inert forms raws (vessel_options vs)
  unfolding collect vessel_options
  Inert-vessel_options vs =
      let g = group_vessels (record { by_line = []; unaffiliated = [] }) vs in
      rw
        (Inert-each forms raws vessel_group g.by_line
          (λ p. Inert-each forms raws vessel_choice p.1 (λ v. refl)))
        (Inert-other_group g.unaffiliated)

  Inert-title : (v : DuckView) → Inert forms raws (title_of v)
  unfolding collect
  Inert-title v = elim (Option-cases v.name) [
    | inl e ↦ rw (e, title_of) (Inert-grouped forms raws v.code)
    | inr (name, e) ↦ rw (e, title_of) refl
  ]

  -- The form that asks before it deletes.
  abbrev pub removal : Text → Text → List Text
  removal target question = collect forms raws (confirmed target question (say "✕"))

  abbrev pub sighting_forms : DuckView → SightingView → List Text
  sighting_forms v s =
      if v.can_moderate
      then removal (sighting_path v s (codes "/delete"))
          (codes "Delete this sighting (and its photo)?")
      else []

  abbrev pub comment_forms : DuckView → CommentView → List Text
  comment_forms v c =
      if v.can_moderate
      then removal (under v.code (codes "/comments/" ++ decimal c.id ++ codes "/delete"))
          (codes "Delete this comment?")
      else []

  collect-sighting_card :
      (display : Display) (v : DuckView) (s : SightingView)
      → collect forms raws (sighting_card display v s) ≡ sighting_forms v s
  unfolding collect
  collect-sighting_card display v s = simp (
    Inert-given forms raws s.by_display_name (λ by. say " · found by " ⊕ text by) (λ by. refl),
    Inert-given forms raws s.coordinates (λ c. say " · " ⊕ map_link display c) (λ c. refl),
    Inert-given forms raws s.note (λ note. tag "p" (text note)) (λ n. refl),
    collect-when forms raws v.can_moderate,
    collect-when forms raws s.has_photo,
    if_same,
    append-nil,
  )

  collect-comment_card :
      (display : Display) (v : DuckView) (c : CommentView)
      → collect forms raws (comment_card display v c) ≡ comment_forms v c
  unfolding collect
  collect-comment_card display v c = simp (collect-when forms raws v.can_moderate, append-nil)

  Inert-unspotted : (ss : List SightingView) → Inert forms raws (unspotted ss)
  unfolding collect
  Inert-unspotted [] = refl
  Inert-unspotted (s ∷ ss) = refl

  Inert-no_comments : (cs : List CommentView) → Inert forms raws (no_comments cs)
  unfolding collect
  Inert-no_comments [] = refl
  Inert-no_comments (c ∷ cs) = refl

  abbrev pub box_forms : Nav → DuckView → List Text
  box_forms nav v =
      if v.comments_locked
      then []
      else if nav.logged_in
      then forms (class "stack" ∷ post ∷ action (under v.code (codes "/comments")) ∷ [])
      else []

  collect-comment_box :
      (nav : Nav) (v : DuckView) → collect forms raws (comment_box nav v) ≡ box_forms nav v
  unfolding collect
  collect-comment_box nav v = elim (Bool-cases v.comments_locked) [
    | inl e ↦ rw e refl
    | inr e ↦ elim (Bool-cases nav.logged_in) [
      | inl e' ↦ rw (e, e') (append-nil _)
      | inr e' ↦ rw (e, e') (Inert-no_comments v.comments)
    ]
  ]

  -- What the page of a duck amounts to, frame and all.
  pub collect-duck_view :
      (display : Display) (nav : Nav) (flash : Option Text) (v : DuckView)
      → collect forms raws (duck_view display nav flash v)
        ≡ framed forms raws display nav (
            (if nav.logged_in then collect forms raws (follow_form v) else [])
            ++ ((if v.can_moderate then collect forms raws (moderation_card v) else [])
                ++ ((if nav.logged_in then collect forms raws (find_form display v) else [])
                    ++ (union (sighting_forms v) v.sightings
                        ++ (union (comment_forms v) v.comments ++ box_forms nav v)))))
  unfolding collect duck_view
  collect-duck_view display nav flash v = simp (
    collect-layout forms raws display (title_of v) nav flash,
    Inert-title v,
    Inert-grouped forms raws v.code,
    Inert-dotted forms raws v.name,
    Inert-plural forms raws (length v.sightings),
    collect-when forms raws nav.logged_in,
    collect-when forms raws v.can_moderate,
    collect-when forms raws v.is_owner,
    collect-if forms raws nav.logged_in,
    Inert-unspotted v.sightings,
    collect-each forms raws (sighting_card display v) (sighting_forms v) v.sightings
        (collect-sighting_card display v),
    collect-each forms raws (comment_card display v) (comment_forms v) v.comments
        (collect-comment_card display v),
    collect-comment_box nav v,
    if_same,
    append-nil,
  )
