-- ===== src/Auth/Apple.antt =====
-- crates/auth/src/apple.rs: what Apple discloses on the first callback, and the client secret that it
-- wants signed. The parsing of JSON and the signature (the crates serde_json and jsonwebtoken) are
-- parameters where they are used.
use duck_voyage.Prelude.{
  ℕ, suc, ◌+◌, ◌-◌, ◌*◌, Option, none, some, [], ◌∷◌, ◌++◌, ltb, if◌then◌else◌, and_then,
}
use duck_voyage.Prelude.Results.{Res, panic, ok_or}
use duck_voyage.Prelude.Int.{ℤ, pos, negsuc}
use duck_voyage.Prelude.Text.{Text, codes, trim}
use duck_voyage.Domain.Entities.{Timestamp}
use duck_voyage.Auth.Error.{AuthError, apple_secret}

pub record AppleUserName : Type 0 where
  pub first_name : Option Text
  pub last_name : Option Text

pub record AppleCallbackUser : Type 0 where
  pub name : Option AppleUserName
  pub email : Option Text

-- `.join(" ")` of the names that there are.
abbrev pub joined_names : Option Text → Option Text → Text
joined_names none none = []
joined_names none (some last) = last
joined_names (some first) none = first
joined_names (some first) (some last) = first ++ b' ' ∷ last

abbrev pub unless_empty : Text → Option Text
unless_empty [] = none
unless_empty (c ∷ s) = some (c ∷ s)

-- `AppleCallbackUser::display_name`
unfoldable pub apple_display_name : AppleCallbackUser → Option Text
apple_display_name user =
    and_then user.name (λ name. unless_empty (trim (joined_names name.first_name name.last_name)))

-- `AppleCallbackUser::email`
unfoldable pub apple_email : AppleCallbackUser → Option Text
apple_email user = and_then user.email unless_empty

pub record AppleSecret : Type 0 where
  pub team_id : Text
  pub key_id : Text
  pub private_key_pem : Text

pub record AppleClaims : Type 0 where
  pub iss : Text
  pub iat : ℤ
  pub exp : ℤ
  pub aud : Text
  pub sub : Text

-- The seconds from the earliest instant of jiff to the Unix epoch and to its latest instant.
abbrev pub epoch : ℕ
epoch = 377705023201

abbrev pub latest : ℕ
latest = 253402207200 + epoch

-- `Timestamp::as_second`
abbrev pub as_second : Timestamp → ℤ
as_second t = if ltb t epoch then negsuc (epoch - suc t) else pos (t - epoch)

-- `AppleSecret::mint` at an instant. The addition to an instant panics when it leaves the range of
-- jiff; `sign` is the signature by the key in PEM, or none.
unfoldable pub mint :
    (Text → Text → AppleClaims → Option Text) → Timestamp → AppleSecret → Text → Res AuthError Text
mint sign now secret client_id =
    if ltb latest (now + 30 * 60)
    then panic
    else ok_or
        (sign secret.private_key_pem secret.key_id (record {
          iss = secret.team_id;
          iat = as_second now;
          exp = as_second (now + 30 * 60);
          aud = codes "https://appleid.apple.com";
          sub = client_id;
        }))
        apple_secret
