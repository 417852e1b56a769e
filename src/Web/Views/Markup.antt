-- ===== src/Web/Views/Markup.antt =====
-- The markup that the macro `html!` of crates/web/src/views.rs builds, as a tree. A sequence of pieces is
-- `◌⊕◌`; splicing a text escapes it, splicing `PreEscaped` does not.
pub mod Pieces
use duck_voyage.Prelude.{
  ℕ, zero, suc, ◌+◌, ◌/◌, ◌%◌, Bool, true, false, Option, none, some, List, [], ◌∷◌, ◌++◌, ◌==◌,
  ltb, if◌then◌else◌,
}
use Prim.Native.String.{String}
use duck_voyage.Prelude.Text.{Text, codes}

-- An attribute; those that say where a form or a link leads stand apart. `post` is method="post".
pub data Attr : Type 0 where
  attr : String → Text → Attr
  flag : String → Attr
  href src action : Text → Attr
  post : Attr

infixr 40 ◌⊕◌
pub data Markup : Type 0 where
  empty panics : Markup
  text raw : Text → Markup
  void : String → List Attr → Markup
  el : String → List Attr → Markup → Markup
  form : List Attr → Markup → Markup
  ◌⊕◌ : Markup → Markup → Markup

-- A literal, an attribute with one, and an element without attributes.
abbrev pub say : String → Markup
say s = text (codes s)

abbrev pub at : String → String → Attr
at name s = attr name (codes s)

abbrev pub tag : String → Markup → Markup
tag name body = el name [] body

abbrev pub class : String → Attr
class name = at "class" name

-- `@if`, `@if let Some(…)` and `@for`.
abbrev pub when : Bool → Markup → Markup
when true m = m
when false m = empty

abbrev pub given {ℓ} : {A : Type ℓ} → Option A → (A → Markup) → Markup
given none f = empty
given (some a) f = f a

unfoldable pub each {ℓ} : {A : Type ℓ} → (A → Markup) → List A → Markup
each f [] = empty
each f (a ∷ as') = f a ⊕ each f as'

abbrev pub or_else : Option Text → String → Text
or_else none s = codes s
or_else (some t) s = t

-- `Display` of a number. A number has fewer digits than its successor counts, so that the fuel is enough.
unfoldable pub digits : ℕ → ℕ → Text
digits zero n = []
digits (suc fuel) n =
    let rest = digits fuel (n / 10) in (if ltb n 10 then [] else rest) ++ (b'0' + n % 10) ∷ []

abbrev pub decimal : ℕ → Text
decimal n = digits (suc n) n

abbrev pub number : ℕ → Markup
number n = text (decimal n)

-- `@if n != 1 { "s" }`
abbrev pub plural : ℕ → Markup
plural n = if n == 1 then empty else say "s"

-- What a form sends its fields to, if it posts them.
abbrev pub posts_by : List Attr → Bool
posts_by [] = false
posts_by (post ∷ as') = true
posts_by (_ ∷ as') = posts_by as'

abbrev pub actions : List Attr → List Text
actions [] = []
actions (action t ∷ as') = t ∷ actions as'
actions (_ ∷ as') = actions as'

abbrev pub targets : List Attr → List Text
targets as' = if posts_by as' then actions as' else []

-- What forms and unescaped texts amount to, in the order of the page.
unfoldable pub collect : (List Attr → List Text) → (Text → List Text) → Markup → List Text
collect forms raws empty = []
collect forms raws panics = []
collect forms raws (text t) = []
collect forms raws (raw t) = raws t
collect forms raws (void name as') = []
collect forms raws (el name as' body) = collect forms raws body
collect forms raws (form as' body) = forms as' ++ collect forms raws body
collect forms raws (a ⊕ b) = collect forms raws a ++ collect forms raws b

-- The targets of the POST forms of a page, and what it holds unescaped.
abbrev pub posts : Markup → List Text
posts m = collect targets (λ t. []) m

abbrev pub unescaped : Markup → List Text
unescaped m = collect (λ as'. []) (λ t. t ∷ []) m

-- The union of what the elements of a list amount to.
abbrev pub union {ℓ κ} : {A : Type ℓ} {B : Type κ} → (A → List B) → List A → List B
union f [] = []
union f (a ∷ as') = f a ++ union f as'
