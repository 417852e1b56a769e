-- ===== src/Web/Duck/Moderation.antt =====
-- The moderation handlers of crates/web/src/handlers/duck.rs.
use duck_voyage.Prelude.{Bool, true, false, Option, none, some, [], ◌==◌, if◌then◌else◌}
use duck_voyage.Prelude.Results.{ok, guard}
use duck_voyage.Prelude.Text.{Text, codes}
use duck_voyage.Prelude.Exec.{pure, lift, ◌>>=◌, ◌>>◌}
use duck_voyage.Domain.Entities.{Key}
use duck_voyage.Storage.Ducks
use duck_voyage.Storage.Sightings
use duck_voyage.Storage.Social
use duck_voyage.Web.State.{not_found, User, Env, App, Handler, run}
use duck_voyage.Web.Duck.{can_moderate}
use duck_voyage.Web.Duck.Handlers.{Redirect, duck_url, found, found_any, found_sailing}

module _ (env : Env) (app : App env) where
  open env use {store_delete}

  -- `delete_duck`
  unfoldable pub delete_duck : Text → User → Handler env Redirect
  delete_duck raw_code user = do
    f ← found_any env app raw_code
    lift (guard (can_moderate user f.1) not_found)
    run env (Ducks.set_deleted f.0.id true)
    pure (
        if user.id == f.1.owner
        then record { to = codes "/me/flocks?m=Duck+deleted.+You+can+restore+it+here." }
        else record { to = codes "/?m=Duck+deleted" })

  -- `restore_duck`
  unfoldable pub restore_duck : Text → User → Handler env Redirect
  restore_duck raw_code user = do
    f ← found_any env app raw_code
    lift (guard (can_moderate user f.1) not_found)
    run env (Ducks.set_deleted f.0.id false)
    pure (record { to = codes "/me/flocks?m=Duck+restored" })

  -- `set_comments_locked`, which `lock_comments` and `unlock_comments` call.
  unfoldable pub set_comments_locked : Text → User → Bool → Handler env Redirect
  set_comments_locked raw_code user locked = do
    f ← found env app raw_code
    lift (guard (can_moderate user f.1) not_found)
    run env (Ducks.set_comments_locked f.0.id locked)
    pure (duck_url f.0.code [])

  -- `delete_comment`
  unfoldable pub delete_comment : Text → Key → User → Handler env Redirect
  delete_comment raw_code comment_id user = do
    f ← found_sailing env app raw_code
    lift (guard (can_moderate user f.1) not_found)
    run env (Social.delete_comment comment_id f.0.id)
    pure (duck_url f.0.code [])

  -- The photo of a removed sighting; a failure of the store is logged and ignored.
  abbrev pub forget_photo : Option (Option Text) → Handler env Unit
  forget_photo (some (some key)) w = elim (store_delete (record { as_str = key }) w.store) [
    | none ↦ (ok tt, w)
    | some store ↦ (ok tt, record w { store = store })
  ]
  forget_photo _ w = (ok tt, w)

  -- `delete_sighting`
  unfoldable pub delete_sighting : Text → Key → User → Handler env Redirect
  delete_sighting raw_code sighting_id user = do
    f ← found_sailing env app raw_code
    lift (guard (can_moderate user f.1) not_found)
    deleted ← run env (Sightings.delete_sighting sighting_id f.0.id)
    forget_photo deleted
    pure (duck_url f.0.code [])
