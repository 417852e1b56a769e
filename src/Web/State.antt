-- ===== src/Web/State.antt =====
-- What the handlers of crates/web share: crates/web/src/error.rs, state.rs, handlers/mod.rs and the
-- typed user of crates/auth/src/session.rs.
use duck_voyage.Prelude.{ℕ, Bool, Option, List, [], ◌∷◌, ◌&&◌, ◌||◌}
use duck_voyage.Prelude.Results.{Res, map_err}
use duck_voyage.Prelude.Int.{ℤ}
use duck_voyage.Prelude.Text.{Text, text_eq}
use duck_voyage.Prelude.Exec.{Exec}
use duck_voyage.Domain.Codec.{Ff1, DuckCodec}
use duck_voyage.Domain.BoundedText.{PhotoKey}
use duck_voyage.Domain.Coords.{F64}
use duck_voyage.Domain.Entities.{Timestamp, Key}
use duck_voyage.Auth.Error.{AuthError}
use duck_voyage.Storage.Rows.{RepoError}
use duck_voyage.Storage.Db.{Db, Repo}

-- `WebError`, without the text of a bad request.
pub data WebError : Type 0 where
  not_found bad_request photo_store session : WebError
  repo : RepoError → WebError
  auth : AuthError → WebError

-- `AuthenticatedUser`
pub record User : Type 0 where
  pub id : Key
  pub display_name : Option Text
  pub is_admin : Bool

-- `Caps`
pub record Caps : Type 0 where
  pub flocks_per_user : ℤ
  pub mint_batch_max : ℕ
  pub unoriginated_max : ℤ
  pub missing_after_days : ℤ
  pub front_page_limit : ℤ

-- What the handlers use of crates that are not the program's: FF1, the object store behind
-- `PhotoStore` (`none` is its error), the image crate's decoding, bounded
-- resizing and encoding as JPEG, jiff's `strptime`,
-- and the conversion of decimals to f64.
pub record Env : Type 1 where
  pub fpe : Ff1
  pub Store : Type 0
  pub store_put : PhotoKey → List ℕ → Store → Option Store
  pub store_get : PhotoKey → Store → Option (List ℕ)
  pub store_delete : PhotoKey → Store → Option Store
  pub reencode : List ℕ → Option (List ℕ)
  pub parse_datetime : Text → Option Timestamp
  pub parse_f64 : Text → Option F64

module _ (env : Env) where
  open env use {fpe, Store}

  -- `AppState`, as far as the handlers read it.
  pub record App : Type 0 where
    pub codec : DuckCodec fpe
    pub base_url : Text
    pub caps : Caps
    pub admin_identities : List (Text × Text)

  -- What requests change: the tables, and the photo store.
  pub record World : Type 0 where
    pub db : Db
    pub store : Store

  abbrev pub Handler : Type 0 → Type 0
  Handler A = Exec World WebError A

  -- A method of a repository, run and awaited by a handler.
  abbrev pub run : {A : Type 0} → Repo A → Handler A
  run m w = let (r, db') = m w.db in (map_err repo r, record w { db = db' })

  abbrev pub read : {A : Type 0} → (Db → Res WebError A) → Handler A
  read f w = (f w.db, w)

  -- `AppState::is_admin_identity`
  pub is_admin_identity : List (Text × Text) → Text → Text → Bool
  is_admin_identity [] issuer subject = Bool.false
  is_admin_identity ((iss, sub) ∷ rest) issuer subject =
      (text_eq iss issuer && text_eq sub subject) || is_admin_identity rest issuer subject
