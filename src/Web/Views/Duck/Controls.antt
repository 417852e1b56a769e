-- ===== src/Web/Views/Duck/Controls.antt =====
-- The controls on the page of a duck (crates/web/src/views.rs), by the handlers that crates/web/src/main.rs
-- routes them to.
use duck_voyage.Prelude.{
  ◌≡◌, refl, Bool, true, false, not, Option, List, [], ◌∷◌, ◌++◌, ◌&&◌, if◌then◌else◌, map, All,
  All-append, All-if, All-each, Bool-cases, inl, inr,
}
use mathlib.Core.List.{append_assoc, map-append}
use duck_voyage.Prelude.Text.{Text, codes}
use duck_voyage.Storage.Views.{SightingView, CommentView}
use duck_voyage.Web.Duck.Pages.{Nav, DuckView}
use duck_voyage.Web.Router.{
  Endpoint, logout, follow, unfollow, lock_comments, unlock_comments, delete_duck, log_sighting,
  comment, delete_sighting, delete_comment, Posts,
}
use duck_voyage.Web.Router.Paths.{IsCode, Fills-verb, Fills-verbs, Fills-item}
use duck_voyage.Web.Views.Markup.{collect, targets, posts, decimal, union}
use duck_voyage.Web.Views.Layout.{Display}
use duck_voyage.Web.Views.Duck.{
  under, sighting_path, find_form, follow_form, moderation_card, duck_view,
}
use duck_voyage.Web.Views.Duck.Offers.{
  collect-duck_view, Inert-vessel_options, box_forms, sighting_forms, comment_forms,
}

abbrev pub Control : Type 0
Control = Endpoint × Text

abbrev pub toggle_follow : DuckView → Control
toggle_follow v =
    if v.is_following
    then (unfollow, under v.code (codes "/unfollow"))
    else (follow, under v.code (codes "/follow"))

abbrev pub toggle_lock : DuckView → Control
toggle_lock v =
    if v.comments_locked
    then (unlock_comments, under v.code (codes "/comments/unlock"))
    else (lock_comments, under v.code (codes "/comments/lock"))

abbrev pub remove_sighting : DuckView → SightingView → Control
remove_sighting v s = (delete_sighting, sighting_path v s (codes "/delete"))

abbrev pub remove_comment : DuckView → CommentView → Control
remove_comment v c =
    (delete_comment, under v.code (codes "/comments/" ++ decimal c.id ++ codes "/delete"))

abbrev pub moderation : DuckView → List Control
moderation v = map (remove_sighting v) v.sightings ++ map (remove_comment v) v.comments

abbrev pub at_sea : Nav → DuckView → List Control
at_sea nav v = if nav.logged_in then (logout, codes "/logout") ∷ toggle_follow v ∷ [] else []

abbrev pub levers : DuckView → List Control
levers v =
    if v.can_moderate
    then toggle_lock v ∷ (delete_duck, under v.code (codes "/delete")) ∷ []
    else []

abbrev pub logbook : Nav → DuckView → List Control
logbook nav v = if nav.logged_in then (log_sighting, under v.code (codes "/sightings")) ∷ [] else []

abbrev pub removals : DuckView → List Control
removals v = if v.can_moderate then moderation v else []

abbrev pub chat : Nav → DuckView → List Control
chat nav v =
    if nav.logged_in && not v.comments_locked
    then (comment, under v.code (codes "/comments")) ∷ []
    else []

-- Who is offered what: those who are logged in log out, follow, log finds and comment; those who
-- moderate lock comments, delete the duck, and delete each sighting and comment.
abbrev pub controls : Nav → DuckView → List Control
controls nav v = at_sea nav v ++ (levers v ++ (logbook nav v ++ (removals v ++ chat nav v)))

abbrev pub paths : List Control → List Text
paths cs = map (λ c. c.1) cs

posts-find_form :
    (display : Display) (v : DuckView)
    → posts (find_form display v) ≡ under v.code (codes "/sightings") ∷ []
unfolding collect
posts-find_form display v = rw (Inert-vessel_options targets (λ t. []) v.vessels) refl

posts-follow_form : (v : DuckView) → posts (follow_form v) ≡ (toggle_follow v).1 ∷ []
unfolding collect
posts-follow_form v = elim (Bool-cases v.is_following) [ inl e ↦ rw e refl | inr e ↦ rw e refl ]

posts-moderation_card :
    (v : DuckView)
    → posts (moderation_card v) ≡ (toggle_lock v).1 ∷ under v.code (codes "/delete") ∷ []
unfolding collect
posts-moderation_card v = elim (Bool-cases v.comments_locked) [
  | inl e ↦ rw e refl
  | inr e ↦ rw e refl
]

union-none {ℓ} : {A : Type ℓ} (xs : List A) → union {B = Text} (λ a. []) xs ≡ []
union-none [] = refl
union-none (x ∷ xs) = union-none xs

union-one {ℓ} :
    {A : Type ℓ} (f : A → Control) (xs : List A) → union (λ a. (f a).1 ∷ []) xs ≡ paths (map f xs)
union-one f [] = refl
union-one f (x ∷ xs) = rw (union-one f xs)

union-gated {ℓ} :
    {A : Type ℓ} (b : Bool) (f : A → Control) (xs : List A)
    → union (λ a. if b then (f a).1 ∷ [] else []) xs ≡ (if b then paths (map f xs) else [])
union-gated true f xs = union-one f xs
union-gated false f xs = union-none xs

-- The forms on each sighting and comment.
union-sightings :
    (v : DuckView)
    → union (sighting_forms targets (λ t. []) v) v.sightings
      ≡ (if v.can_moderate then paths (map (remove_sighting v) v.sightings) else [])
unfolding collect
union-sightings v = union-gated v.can_moderate (remove_sighting v) v.sightings

union-comments :
    (v : DuckView)
    → union (comment_forms targets (λ t. []) v) v.comments
      ≡ (if v.can_moderate then paths (map (remove_comment v) v.comments) else [])
unfolding collect
union-comments v = union-gated v.can_moderate (remove_comment v) v.comments

paths-box :
    (nav : Nav) (v : DuckView)
    → box_forms targets (λ t. []) nav v
      ≡ paths (
          if nav.logged_in && not v.comments_locked
          then (comment, under v.code (codes "/comments")) ∷ []
          else [])
paths-box nav v = elim (Bool-cases nav.logged_in) [
  | inl e ↦ elim (Bool-cases v.comments_locked) [ inl l ↦ rw (e, l) refl | inr l ↦ rw (e, l) refl ]
  | inr e ↦ elim (Bool-cases v.comments_locked) [ inl l ↦ rw (e, l) refl | inr l ↦ rw (e, l) refl ]
]

-- The forms on the page of a duck post to the paths of the controls, in their order.
pub duck_view-paths :
    (display : Display) (nav : Nav) (flash : Option Text) (v : DuckView)
    → posts (duck_view display nav flash v) ≡ paths (controls nav v)
unfolding collect
duck_view-paths display nav flash v =
    rw
      (
        collect-duck_view targets (λ t. []) display nav flash v,
        posts-follow_form v,
        posts-moderation_card v,
        posts-find_form display v,
        union-sightings v,
        union-comments v,
        paths-box nav v,
      )
      (elim (Bool-cases nav.logged_in) [
        | inl e ↦ elim (Bool-cases v.can_moderate) [
          | inl m ↦ rw (e, m) (simp (map-append, append_assoc))
          | inr m ↦ rw (e, m) refl
        ]
        | inr e ↦ elim (Bool-cases v.can_moderate) [
          | inl m ↦ rw (e, m) (simp (map-append, append_assoc))
          | inr m ↦ rw (e, m) refl
        ]
      ])

-- A control whose path is posted to its handler.
abbrev pub IsRouted : Control → Type 0
IsRouted c = Posts c.0 c.1

toggle_follow-IsRouted : (v : DuckView) → IsCode v.code → IsRouted (toggle_follow v)
toggle_follow-IsRouted v valid = elim (Bool-cases v.is_following) [
  | inl e ↦ rw e (12, _, refl, refl, refl, Fills-verb v.code valid (codes "unfollow"))
  | inr e ↦ rw e (10, _, refl, refl, refl, Fills-verb v.code valid (codes "follow"))
]

toggle_lock-IsRouted : (v : DuckView) → IsCode v.code → IsRouted (toggle_lock v)
toggle_lock-IsRouted v valid = elim (Bool-cases v.comments_locked) [
  | inl e ↦
      rw e (16, _, refl, refl, refl, Fills-verbs v.code valid (codes "comments") (codes "unlock"))
  | inr e ↦
      rw e (15, _, refl, refl, refl, Fills-verbs v.code valid (codes "comments") (codes "lock"))
]

moderation-IsRouted : (v : DuckView) → IsCode v.code → All IsRouted (moderation v)
moderation-IsRouted v valid =
    All-append IsRouted (map (remove_sighting v) v.sightings) _
      (All-each IsRouted (remove_sighting v) v.sightings
        (λ s. (18, _, refl, refl, refl, Fills-item v.code valid (codes "sightings") s.id)))
      (All-each IsRouted (remove_comment v) v.comments
        (λ c. (17, _, refl, refl, refl, Fills-item v.code valid (codes "comments") c.id)))

pub controls-IsRouted : (nav : Nav) (v : DuckView) → IsCode v.code → All IsRouted (controls nav v)
controls-IsRouted nav v valid =
    let verb = Fills-verb v.code valid in
    let sea : All IsRouted (at_sea nav v) =
      All-if IsRouted nav.logged_in _
        ((0, _, refl, refl, refl, (_, refl, refl)), (toggle_follow-IsRouted v valid, tt)) in
    let lever : All IsRouted (levers v) =
      All-if IsRouted v.can_moderate _
        (toggle_lock-IsRouted v valid, ((13, _, refl, refl, refl, verb (codes "delete")), tt)) in
    let book : All IsRouted (logbook nav v) =
      All-if IsRouted nav.logged_in _ ((8, _, refl, refl, refl, verb (codes "sightings")), tt) in
    let removal : All IsRouted (removals v) =
      All-if IsRouted v.can_moderate _ (moderation-IsRouted v valid) in
    let talk : All IsRouted (chat nav v) =
      All-if IsRouted (nav.logged_in && not v.comments_locked) _
        ((9, _, refl, refl, refl, verb (codes "comments")), tt) in
    All-append IsRouted (at_sea nav v) _ sea (
      All-append IsRouted (levers v) _ lever (
        All-append IsRouted (logbook nav v) _ book
          (All-append IsRouted (removals v) _ removal talk)))
