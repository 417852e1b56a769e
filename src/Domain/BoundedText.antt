-- ===== src/Domain/BoundedText.antt =====
-- crates/domain/src/text.rs: bounded, trimmed, non-empty texts, one newtype for each bound.
pub mod Trimming
use duck_voyage.Prelude.{ℕ, zero, suc, Bool, List, [], ◌∷◌, ltb, if◌then◌else◌, length}
use duck_voyage.Prelude.Results.{Res, ok, err}
use duck_voyage.Prelude.Text.{Text, trim}

-- `TextError`
pub data TextError : Type 0 where
  empty : TextError
  too_long : ℕ → ℕ → TextError

-- What `bounded_text!` declares, for its maximum.
pub record Bounded (max_chars : ℕ) : Type 0 where
  pub as_str : Text

checked : (max_chars : ℕ) → Text → ℕ → Res TextError (Bounded max_chars)
checked max_chars trimmed zero = err empty
checked max_chars trimmed (suc n) =
    if ltb max_chars (suc n)
    then err (too_long (suc n) max_chars)
    else ok (record { as_str = trimmed })

-- `parse` of each of them; the `match` on the count is a helper.
unfoldable pub parse_bounded : (max_chars : ℕ) → Text → Res TextError (Bounded max_chars)
unfolding checked
parse_bounded max_chars raw = let trimmed = trim raw in checked max_chars trimmed (length trimmed)

abbrev pub DuckName : Type 0
DuckName = Bounded 80

abbrev pub DuckDescription : Type 0
DuckDescription = Bounded 2000

abbrev pub Note : Type 0
Note = Bounded 2000

abbrev pub CommentBody : Type 0
CommentBody = Bounded 2000

abbrev pub FlockLabel : Type 0
FlockLabel = Bounded 120

pub record PhotoKey : Type 0 where
  pub as_str : Text

pub record PhotoRef : Type 0 where
  pub key : PhotoKey
  pub content_type : Text

pub record OidcSubject : Type 0 where
  pub issuer : Text
  pub subject : Text
