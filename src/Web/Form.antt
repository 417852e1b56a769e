-- ===== src/Web/Form.antt =====
-- `FormData` of crates/web/src/handlers/mod.rs: a multipart form collected into two maps.
use duck_voyage.Prelude.{ℕ, Option, none, some, List, [], ◌∷◌, if◌then◌else◌, and_then}
use duck_voyage.Prelude.Results.{Res, ok, err, ok_or}
use duck_voyage.Prelude.Text.{Text, text_eq, trim}
use duck_voyage.Web.State.{WebError, bad_request}

-- A field of the request as axum delivers it; its name may be missing.
pub data Field : Type 0 where
  text_field : Option Text → Text → Field
  file_field : Option Text → List ℕ → Field

-- A `HashMap` with text keys, of which single entries are read.
module _ {V : Type 0} where
  pub lookup : Text → List (Text × V) → Option V
  lookup k [] = none
  lookup k ((j, v) ∷ m) = if text_eq j k then some v else lookup k m

  pub insert : Text → V → List (Text × V) → List (Text × V)
  insert k v [] = (k, v) ∷ []
  insert k v ((j, w) ∷ m) = if text_eq j k then (k, v) ∷ m else (j, w) ∷ insert k v m

pub record FormData : Type 0 where
  pub texts : List (Text × Text)
  pub files : List (Text × List ℕ)

abbrev pub or_default : Option Text → Text
or_default none = []
or_default (some t) = t

-- One field: an empty file is left out.
pub add_field : Field → FormData → FormData
unfolding insert
add_field (text_field name t) form = record form { texts = insert (or_default name) t form.texts }
add_field (file_field name []) form = form
add_field (file_field name (b ∷ bs)) form = record form {
  files = insert (or_default name) (b ∷ bs) form.files;
}

-- `FormData::read`; a field that cannot be read is `none`.
pub read_fields : List (Option Field) → FormData → Res WebError FormData
unfolding add_field
read_fields [] form = ok form
read_fields (none ∷ fields) form = err bad_request
read_fields (some f ∷ fields) form = read_fields fields (add_field f form)

pub read_form : List (Option Field) → Res WebError FormData
unfolding read_fields
read_form fields = read_fields fields (record { texts = []; files = [] })

abbrev pub unless_blank : Text → Option Text
unless_blank t = elim (trim t) [ [] ↦ none | c ∷ cs ↦ some t ]

-- `text`, `require_text` and `file`
unfoldable pub text : FormData → Text → Option Text
unfolding lookup
text form name = and_then (lookup name form.texts) unless_blank

unfoldable pub require_text : FormData → Text → Res WebError Text
unfolding text
require_text form name = ok_or (text form name) bad_request

unfoldable pub file : FormData → Text → Option (List ℕ)
unfolding lookup
file form name = lookup name form.files
