-- ===== src/Storage/Users.antt =====
-- `UserRepo` and `VesselRepo::by_id` of crates/storage/src/repos.rs.
use duck_voyage.Prelude.{suc, Bool, Option, none, some, [], ◌∷◌, ◌++◌, ◌==◌, ◌&&◌, ◌||◌, map_option}
use duck_voyage.Prelude.Results.{Res, ok, traverse}
use duck_voyage.Prelude.Text.{Text, text_eq}
use duck_voyage.Prelude.Tables.{find, update}
use duck_voyage.Domain.BoundedText.{OidcSubject}
use duck_voyage.Domain.Entities.{Key, AppUser, Vessel}
use duck_voyage.Storage.Rows.{RepoError, UserRow, from_user, try_vessel}
use duck_voyage.Storage.Db.{Db, Repo}

-- COALESCE(new, old)
abbrev pub coalesce {ℓ} : {A : Type ℓ} → Option A → Option A → Option A
coalesce none old = old
coalesce (some a) old = some a

abbrev pub same_identity : OidcSubject → UserRow → Bool
same_identity oidc r = text_eq r.issuer oidc.issuer && text_eq r.subject oidc.subject

-- ON CONFLICT DO UPDATE SET …
abbrev pub merge_user : Option Text → Option Text → Bool → UserRow → UserRow
merge_user display_name email grant_admin r = record r {
  display_name = coalesce display_name r.display_name;
  email = coalesce email r.email;
  is_admin = r.is_admin || grant_admin;
}

-- `UserRepo::upsert`: the row inserted, or the one in conflict merged.
unfoldable pub upsert : OidcSubject → Option Text → Option Text → Bool → Repo AppUser
upsert oidc display_name email grant_admin db = elim (find (same_identity oidc) db.users) [
  | some r ↦ (
    ok (from_user (merge_user display_name email grant_admin r)),
    record db {
      users = update (same_identity oidc) (merge_user display_name email grant_admin) db.users;
    },
  )
  | none ↦
      let r : UserRow = record {
        id = db.next_id;
        issuer = oidc.issuer;
        subject = oidc.subject;
        display_name = display_name;
        email = email;
        is_admin = grant_admin;
        created_at = db.now;
      } in
      (ok (from_user r), record db { users = db.users ++ r ∷ []; next_id = suc db.next_id })
]

-- `UserRepo::by_id`
unfoldable pub user_by_id : Key → Db → Res RepoError (Option AppUser)
user_by_id id db = ok (map_option from_user (find (λ r. r.id == id) db.users))

-- `VesselRepo::by_id`
unfoldable pub vessel_by_id : Key → Db → Res RepoError (Option Vessel)
vessel_by_id id db = traverse try_vessel (find (λ r. r.id == id) db.vessels)
