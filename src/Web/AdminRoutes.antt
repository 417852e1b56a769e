-- ===== src/Web/AdminRoutes.antt =====
-- crates/web/src/handlers/admin.rs: the destructive levers. `admin` is an `AdminUser`.
use duck_voyage.Prelude.{not, Option, none, some, List, [], ◌∷◌, ◌==◌}
use duck_voyage.Prelude.Results.{ok, guard, ok_or}
use duck_voyage.Prelude.Text.{Text, codes}
use duck_voyage.Prelude.Exec.{pure, lift, ◌>>=◌, ◌>>◌}
use duck_voyage.Domain.Entities.{Key}
use duck_voyage.Storage.Admin
use duck_voyage.Web.State.{not_found, bad_request, User, Env, Handler, run}
use duck_voyage.Web.Duck.Handlers.{Redirect}

module _ (env : Env) where
  open env use {Store, store_delete}

  abbrev pub or_kept : Option Store → Store → Store
  or_kept none store = store
  or_kept (some s) store = s

  -- `cleanup_photos`: failures are logged and skipped.
  unfoldable pub cleanup_photos : List Text → Store → Store
  cleanup_photos [] store = store
  cleanup_photos (key ∷ keys) store =
      cleanup_photos keys (or_kept (store_delete (record { as_str = key }) store) store)

  abbrev pub cleaned : List Text → Handler env Unit
  cleaned keys w = (ok tt, record w { store = cleanup_photos keys w.store })

  -- `delete_flock`
  unfoldable pub delete_flock : Key → User → Handler env Redirect
  delete_flock flock_id admin = do
    deleted ← run env (Admin.delete_flock flock_id)
    keys ← lift (ok_or deleted not_found)
    cleaned keys
    pure (record { to = codes "/admin?m=Flock+deleted" })

  -- `delete_user`
  unfoldable pub delete_user : Key → User → Handler env Redirect
  delete_user target admin = do
    lift (guard (not (target == admin.id)) bad_request)
    deleted ← run env (Admin.delete_user target)
    keys ← lift (ok_or deleted bad_request)
    cleaned keys
    pure (record { to = codes "/admin?m=User+deleted" })
