-- ===== src/Web/Views/Markup/Pieces.antt =====
-- What the pieces of the templates of crates/web/src/views.rs amount to, in forms and unescaped texts.
use duck_voyage.Prelude.{
  ◌≡◌, refl, ℕ, Bool, true, false, Option, none, some, List, [], ◌∷◌, ◌++◌, ◌==◌, if◌then◌else◌,
  Bool-cases, ltb, All, All-append, Option-cases, inl, inr,
}
use mathlib.Core.List.{append-nil}
use duck_voyage.Prelude.Text.{Text, codes}
use duck_voyage.Domain.Codes.{DuckCode, display_grouped}
use duck_voyage.Storage.Boards.{DuckSummary}
use duck_voyage.Storage.Overviews.{RecentFind}
use duck_voyage.Web.Duck.Pages.{Nav}
use duck_voyage.Web.Views.Markup.{
  Attr, class, post, action, Markup, ◌⊕◌, el, text, say, when, given, each, plural, collect, union,
}
use duck_voyage.Web.Views.Layout.{
  Display, grouped, dotted, layout, summary_row, summary_table, find_row, finds_table,
}
use duck_voyage.Web.Scan.{distinct_sha}

pub if_same {ℓ} : {A : Type ℓ} (b : Bool) (a : A) → (if b then a else a) ≡ a
if_same true a = refl
if_same false a = refl

pub All-union {ℓ κ μ} :
    {A : Type ℓ} {B : Type κ} (P : B → Type μ) (f : A → List B) (xs : List A)
    → ((a : A) → All P (f a))
    → All P (union f xs)
All-union P f [] h = tt
All-union P f (x ∷ xs) h = All-append P (f x) (union f xs) (h x) (All-union P f xs h)

module _ (forms : List Attr → List Text) (raws : Text → List Text) where
  abbrev pub Inert : Markup → Type 0
  Inert m = collect forms raws m ≡ []

  pub collect-when :
      (b : Bool) (m : Markup)
      → collect forms raws (when b m) ≡ (if b then collect forms raws m else [])
  unfolding collect
  collect-when true m = refl
  collect-when false m = refl

  pub collect-if :
      (b : Bool) (m k : Markup)
      → collect forms raws (if b then m else k)
        ≡ (if b then collect forms raws m else collect forms raws k)
  collect-if true m k = refl
  collect-if false m k = refl

  pub Inert-given {ℓ} :
      {A : Type ℓ} (o : Option A) (f : A → Markup) → ((a : A) → Inert (f a)) → Inert (given o f)
  unfolding collect
  Inert-given none f h = refl
  Inert-given (some a) f h = h a

  pub Inert-dotted : (name : Option Text) → Inert (dotted name)
  unfolding collect
  Inert-dotted none = refl
  Inert-dotted (some n) = refl

  pub Inert-plural : (n : ℕ) → Inert (plural n)
  unfolding collect
  Inert-plural n = elim (Bool-cases (n == 1)) [ inl e ↦ rw e refl | inr e ↦ rw e refl ]

  pub Inert-grouped : (code : DuckCode) → Inert (grouped code)
  unfolding collect
  Inert-grouped code = elim (Option-cases (display_grouped code)) [
    | inl e ↦ rw (e, grouped) refl
    | inr (shown, e) ↦ rw (e, grouped) refl
  ]

  pub collect-each {ℓ} :
      {A : Type ℓ} (f : A → Markup) (g : A → List Text) (xs : List A)
      → ((a : A) → collect forms raws (f a) ≡ g a)
      → collect forms raws (each f xs) ≡ union g xs
  unfolding collect each
  collect-each f g [] h = refl
  collect-each f g (x ∷ xs) h = rw (h x, collect-each f g xs h)

  pub Inert-each {ℓ} :
      {A : Type ℓ} (f : A → Markup) (xs : List A) → ((a : A) → Inert (f a)) → Inert (each f xs)
  unfolding collect each
  Inert-each f [] h = refl
  Inert-each f (x ∷ xs) h = rw (h x) (Inert-each f xs h)

  abbrev pub framed : Display → Nav → List Text → List Text
  framed display nav body =
      let account =
        if nav.logged_in
        then forms (class "inline" ∷ post ∷ action (codes "/logout") ∷ [])
        else [] in
      raws (codes "<!DOCTYPE html>") ++ (raws display.css ++ (account ++ body))

  -- The frame of a page adds the button to log out, and the stylesheet.
  pub collect-layout :
      (display : Display) (title : Markup) (nav : Nav) (flash : Option Text) (body : Markup)
      → Inert title
      → collect forms raws (layout display title nav flash body)
        ≡ framed display nav (collect forms raws body)
  unfolding collect layout
  collect-layout display title nav flash body inert =
      simp
        (
          inert,
          collect-if nav.logged_in,
          Inert-given flash (λ message. el "div" (class "flash" ∷ []) (text message)) (λ m. refl),
          Inert-given (distinct_sha display.version display.sha) (λ s. say " (" ⊕ text s ⊕ say ")")
              (λ s. refl),
          collect-when nav.is_admin,
          collect-when (ltb 0 nav.unread),
          if_same,
          append-nil,
        )
        refl

  Inert-summary_row : (display : Display) (d : DuckSummary) → Inert (summary_row display d)
  unfolding collect
  Inert-summary_row display d = simp (Inert-grouped d.code, Inert-dotted d.name)

  pub Inert-summary_table :
      (display : Display) (ducks : List DuckSummary) → Inert (summary_table display ducks)
  unfolding collect summary_table
  Inert-summary_table display [] = refl
  Inert-summary_table display (d ∷ ducks) =
      Inert-each (summary_row display) (d ∷ ducks) (Inert-summary_row display)

  Inert-find_row : (display : Display) (f : RecentFind) → Inert (find_row display f)
  unfolding collect
  Inert-find_row display f = simp (Inert-grouped f.duck_code, Inert-dotted f.duck_name)

  pub Inert-finds_table :
      (display : Display) (finds : List RecentFind) → Inert (finds_table display finds)
  unfolding collect finds_table
  Inert-finds_table display [] = refl
  Inert-finds_table display (f ∷ finds) =
      Inert-each (find_row display) (f ∷ finds) (Inert-find_row display)
