-- ===== src/Web/Auth.antt =====
-- crates/auth/src/session.rs: the session, and where a login returns to.
pub mod ReturnTo
pub mod Login
use duck_voyage.Prelude.{
  ℕ, ◌/◌, ◌%◌, ◌+◌, Bool, true, false, not, Option, none, some, List, [], ◌∷◌, ◌++◌, ◌&&◌, ◌||◌,
  ◌==◌, leb, ltb, if◌then◌else◌, map_option,
}
use duck_voyage.Prelude.Results
use duck_voyage.Prelude.Results.{Res, ok, err, panic, guard, ok_or, map_err}
use duck_voyage.Prelude.Text.{Text, text_eq, starts_with, codes}
use duck_voyage.Prelude.Tables.{find}
use duck_voyage.Prelude.Exec.{Exec, pure, raise, lift, ◌>>=◌, ◌>>◌}
use duck_voyage.Domain.BoundedText.{OidcSubject}
use duck_voyage.Domain.Entities.{Key, AppUser}
use duck_voyage.Storage.Users.{upsert}
use duck_voyage.Storage.Social.{StoredLoginFlow, put_flow, take_flow}
use duck_voyage.Storage.Db.{Db}
use duck_voyage.Web.State.{User}
use duck_voyage.Web.Duck.Handlers.{Redirect}

-- `safe_return_to`
unfoldable pub safe_return_to : Option Text → Option Text
safe_return_to none = none
safe_return_to (some r) =
    if starts_with r (codes "/") && not (starts_with r (codes "//")) then some r else none

-- One byte of `urlencoded`: kept, or as %XX with uppercase hexadecimal digits.
abbrev pub is_kept : ℕ → Bool
is_kept b =
    (leb b'A' b && leb b b'Z')
    || ((leb b'a' b && leb b b'z')
        || ((leb b'0' b && leb b b'9') || (b == b'-' || (b == b'_' || (b == b'.' || b == b'/')))))

abbrev pub hex_digit : ℕ → ℕ
hex_digit d = if ltb d 10 then d + b'0' else d + 55

unfoldable pub encode_byte : ℕ → Text
encode_byte b = if is_kept b then b ∷ [] else b'%' ∷ hex_digit (b / 16) ∷ hex_digit (b % 16) ∷ []

-- `urlencoded`, on the bytes of the text.
unfoldable pub urlencoded : List ℕ → Text
unfolding encode_byte
urlencoded [] = []
urlencoded (b ∷ bs) = encode_byte b ++ urlencoded bs

-- `AuthRejection`, and the extractors of a session: a session that cannot be read is an error.
pub data AuthRejection : Type 0 where
  login_redirect : Text → AuthRejection
  forbidden : AuthRejection
  session_unavailable : AuthRejection

-- `AuthenticatedUser::from_request_parts`, over the lookup of the session's user; its optional
-- variant; and `AdminUser::from_request_parts`.
unfoldable pub authenticated : Option (Option User) → Text → Res AuthRejection User
authenticated none path = err session_unavailable
authenticated (some none) path = err (login_redirect path)
authenticated (some (some user)) path = ok user

unfoldable pub optional_user : Option (Option User) → Res AuthRejection (Option User)
optional_user none = err session_unavailable
optional_user (some user) = ok user

unfoldable pub admin_user : Option (Option User) → Text → Res AuthRejection User
unfolding authenticated
admin_user session path =
    Results.◌>>=◌ (authenticated session path)
      (λ user. if user.is_admin then ok user else err forbidden)

-- `IntoResponse for AuthRejection`: where it redirects to, or the status.
pub data Rejected : Type 0 where
  redirect_to : Text → Rejected
  status : ℕ → Rejected

unfoldable pub rejection_response : AuthRejection → Rejected
unfolding urlencoded
rejection_response (login_redirect path) =
    redirect_to (codes "/login?return_to=" ++ urlencoded path)
rejection_response forbidden = status 403
rejection_response session_unavailable = status 500
