-- ===== src/Web/Flock.antt =====
-- crates/web/src/handlers/flock.rs: creating a flock, and minting codes into it.
pub mod Minting
pub mod Registry
pub mod Encoding
pub mod Register
use duck_voyage.Prelude.{
  ℕ, ◌+◌, Bool, true, false, not, Option, none, some, List, [], ◌∷◌, ◌==◌, ltb, leb, if◌then◌else◌,
  map_option,
}
use duck_voyage.Prelude.Results
use duck_voyage.Prelude.Int.{count_lt, count_le}
use duck_voyage.Prelude.Results.{Res, ok, err, panic, guard, ok_or, map_err, traverse, to_option}
use duck_voyage.Prelude.Text.{Text, trim, codes}
use duck_voyage.Prelude.Exec.{pure, raise, lift, ◌>>=◌, ◌>>◌}
use duck_voyage.Domain.Codes.{FlockSeq, DuckCode, new_seq}
use duck_voyage.Domain.Codec.{Ff1, DuckCodec, encode}
use duck_voyage.Domain.BoundedText.{FlockLabel, parse_bounded}
use duck_voyage.Domain.Profanity.{matches}
use duck_voyage.Domain.Entities.{Key, Flock}
use duck_voyage.Storage.Rows.{RepoError, flock_full}
use duck_voyage.Storage.Flocks.{create_flock, flock_by_id, count_for_owner}
use duck_voyage.Storage.Ducks.{mint_batch, unoriginated_count_for_owner}
use duck_voyage.Storage.Db.{Db}
use duck_voyage.Web.State.{
  WebError, not_found, bad_request, repo, User, Env, App, World, Handler, run, read,
}
use duck_voyage.Web.Form.{unless_blank}
use duck_voyage.Web.Duck.Handlers.{Redirect, bad}

-- `.filter(|f| f.owner == user.id).ok_or(NotFound)`
abbrev pub owned : User → Option Flock → Res WebError Flock
owned user none = err not_found
owned user (some f) = if f.owner == user.id then ok f else err not_found

-- `u16::clamp(1, max)`, which panics if `max` is 0.
abbrev pub clamp : ℕ → ℕ → Res WebError ℕ
clamp amount max =
    if ltb max 1
    then panic
    else if ltb amount 1
    then ok 1
    else if ltb max amount
    then ok max
    else ok amount

abbrev pub clean_code : Option DuckCode → Option DuckCode
clean_code none = none
clean_code (some code) = if matches code.as_str then none else some code

-- The closure that `mint` hands to `mint_batch`.
unfoldable pub mintable : (fpe : Ff1) → DuckCodec fpe → Flock → FlockSeq → Option DuckCode
mintable fpe codec flock seq =
    clean_code (to_option (encode fpe codec flock.generation flock.code seq))

-- `map_err` of `mint`: a full flock is the client's error.
abbrev pub mint_error : WebError → WebError
mint_error (repo flock_full) = bad_request
mint_error e = e

abbrev pub blank_to_none : Option Text → Option Text
blank_to_none none = none
blank_to_none (some l) = unless_blank l

module _ (env : Env) (app : App env) where
  open env use {fpe}

  -- `create`; `draw` gives the random digits of each attempt.
  unfoldable pub create : (ℕ → List ℕ) → User → Option Text → Handler env Redirect
  create draw user label = do
    held ← read env (λ db. map_err repo (count_for_owner user.id db))
    lift (guard (count_lt held app.caps.flocks_per_user) bad_request)
    parsed ← lift (traverse (λ l. bad (parse_bounded 120 l)) (blank_to_none label))
    run env (create_flock draw user.id app.codec.current parsed)
    pure (record { to = codes "/me/flocks?m=Flock+created" })

  -- `mint`
  unfoldable pub mint : Key → User → ℕ → Handler env Redirect
  mint flock_id user wanted = do
    row ← read env (λ db. map_err repo (flock_by_id flock_id db))
    flock ← lift (owned user row)
    amount ← lift (clamp wanted app.caps.mint_batch_max)
    unoriginated ← read env (λ db. map_err repo (unoriginated_count_for_owner user.id db))
    lift (guard (count_le (unoriginated + amount) app.caps.unoriginated_max) bad_request)
    first ← lift (Results.expect (to_option (new_seq 1)))
    lift (bad (encode fpe app.codec flock.generation flock.code first))
    duck_voyage.Prelude.Exec.map_error mint_error
        (run env (mint_batch flock.id amount (mintable fpe app.codec flock)))
    pure (record { to = codes "/me/flocks?m=Codes+minted" })
