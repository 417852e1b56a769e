-- ===== src/Web/Duck.antt =====
-- crates/web/src/handlers/duck.rs: the scan funnel, and the handlers of a duck's page.
pub mod Handlers
pub mod Moderation
pub mod Pages
pub mod Funnel
pub mod Labels
pub mod Answers
pub mod Isolation
use duck_voyage.Prelude.{
  ℕ, ◌+◌, ◌*◌, Bool, true, false, not, Option, none, some, is_some, List, [], ◌∷◌, ◌++◌, ◌==◌, ◌&&◌,
  ◌||◌, leb, if◌then◌else◌, map_option, and_then,
}
use duck_voyage.Prelude.Results.{Res, ok, err, panic, ◌>>=◌, ◌>>◌, guard, ok_or, expect, map_err}
use duck_voyage.Prelude.Text.{Text, text_eq, codes}
use duck_voyage.Domain.Codes.{DuckCode, parse_duck, flock_code}
use duck_voyage.Domain.Codec.{Ff1, DuckCodec, decode}
use duck_voyage.Domain.Entities.{
  Key, DuckLifecycle, allocated, staged, sailing, DuckDetails, Duck, Flock, is_sailing, is_deleted,
}
use duck_voyage.Storage.Flocks.{flock_by_code}
use duck_voyage.Storage.Ducks.{by_flock_and_seq}
use duck_voyage.Storage.Db.{Db}
use duck_voyage.Web.State.{WebError, not_found, repo, User}

-- `resolve_any`: steps 1 to 4 of the validation funnel.
unfoldable pub resolve_any : (fpe : Ff1) → DuckCodec fpe → Text → Db → Res WebError (Duck × Flock)
resolve_any fpe codec raw_code db = do
  code ← map_err (λ _. not_found) (parse_duck raw_code)
  prefix ← expect (flock_code code)
  found ← map_err repo (flock_by_code prefix db)
  flock ← ok_or found not_found
  seq ← map_err (λ _. not_found) (decode fpe codec flock.generation code)
  row ← map_err repo (by_flock_and_seq flock.id seq db)
  duck ← ok_or row not_found
  guard (text_eq duck.code.as_str code.as_str) not_found
  ok (duck, flock)

-- `resolve`: the same without soft-deleted ducks.
unfoldable pub resolve : (fpe : Ff1) → DuckCodec fpe → Text → Db → Res WebError (Duck × Flock)
resolve fpe codec raw_code db = do
  found ← resolve_any fpe codec raw_code db
  guard (not (is_deleted found.0)) not_found
  ok found

-- `resolve_sailing`: only sailing ducks accept interaction.
unfoldable pub resolve_sailing :
    (fpe : Ff1) → DuckCodec fpe → Text → Db → Res WebError (Duck × Flock)
resolve_sailing fpe codec raw_code db = do
  found ← resolve fpe codec raw_code db
  guard (is_sailing found.0.lifecycle) not_found
  ok found

-- `is_owner` and `can_moderate`
abbrev pub is_owner : Option User → Flock → Bool
is_owner none flock = false
is_owner (some u) flock = u.id == flock.owner

abbrev pub can_moderate : User → Flock → Bool
can_moderate user flock = user.is_admin || user.id == flock.owner
