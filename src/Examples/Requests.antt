-- ===== src/Examples/Requests.antt =====
-- The theorems on requests, at the duck ABC-001Q before it sails.
use duck_voyage.Prelude.{◌≡◌, refl, true, false, none, some}
use duck_voyage.Prelude.Results.{ok}
use duck_voyage.Prelude.Text.{Text, codes}
use duck_voyage.Domain.Codes.{parse_duck, flock_code, parse_flock, payload_digits, new_seq}
use duck_voyage.Domain.Base36.{digit_of, char_of}
use duck_voyage.Domain.Damm.{validate}
use duck_voyage.Domain.Codec.{decode}
use duck_voyage.Domain.Entities.{Duck, allocated}
use duck_voyage.Storage.Flocks.{flock_by_code}
use duck_voyage.Storage.Ducks.{by_flock_and_seq}
use duck_voyage.Storage.Rows.{lifecycle_of, try_duck, try_flock}
use duck_voyage.Web.State.{User}
use duck_voyage.Web.Duck.{resolve_any}
use duck_voyage.Web.Duck.Funnel.{Resolved, resolve_any_sound}
use duck_voyage.Web.Duck.Isolation.{Spares, moderation-Spares}
use duck_voyage.Web.Duck.Moderation.{
  delete_duck, restore_duck, set_comments_locked, delete_comment, delete_sighting,
}
use duck_voyage.Web.Scan.Route.{scanned, resolve_any-scanned}
use duck_voyage.Examples.Boot.{platform}
use duck_voyage.Examples.Minted.{encoded, flock-Keyed, first_seq-IsSeq}
use duck_voyage.Examples.Data.{plain, codec, db, flock, label, first_seq, env, app, world}

abbrev duck : Duck
duck = record {
  id = 11;
  code = label;
  flock_id = 7;
  seq = first_seq;
  lifecycle = allocated;
  deleted_at = none;
  comments_locked_at = none;
  created_at = 100;
}

resolved : resolve_any plain codec (codes "abc-001q") db ≡ ok (duck, flock)
unfolding resolve_any parse_duck flock_code flock_by_code try_flock decode by_flock_and_seq try_duck
    lifecycle_of digit_of char_of validate parse_flock payload_digits new_seq
resolved = refl

resolve_any_sound_example : Resolved plain codec (codes "abc-001q") db duck flock
resolve_any_sound_example = resolve_any_sound plain codec (codes "abc-001q") db duck flock resolved

abbrev owner : User
owner = record { id = 3; display_name = none; is_admin = false }

moderation-Spares_example :
    Spares 3 db (delete_duck env app (codes "abc-001q") owner world).1.db
    × Spares 3 db (restore_duck env app (codes "abc-001q") owner world).1.db
    × Spares 3 db (set_comments_locked env app (codes "abc-001q") owner true world).1.db
    × Spares 3 db (delete_comment env app (codes "abc-001q") 5 owner world).1.db
    × Spares 3 db (delete_sighting env app (codes "abc-001q") 5 owner world).1.db
moderation-Spares_example = moderation-Spares env app owner refl world (codes "abc-001q") 5 true

stored : flock_by_code flock.code db ≡ ok (some flock)
unfolding flock_by_code try_flock parse_flock digit_of char_of
stored = refl

seated : by_flock_and_seq flock.id first_seq db ≡ ok (some duck)
unfolding by_flock_and_seq try_duck lifecycle_of parse_duck digit_of char_of validate new_seq
seated = refl

resolve_any-scanned_example :
    (raw : Text) × (scanned (λ t. true) platform (codes "https://duck.voyage") label ≡ some raw)
    × (resolve_any plain codec raw db ≡ ok (duck, flock))
resolve_any-scanned_example =
    resolve_any-scanned platform (codes "https://duck.voyage") (λ t. true) plain codec flock
      flock-Keyed first_seq label duck db first_seq-IsSeq encoded refl stored seated refl
