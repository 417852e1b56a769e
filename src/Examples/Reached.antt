-- ===== src/Examples/Reached.antt =====
-- The theorems on every sequence of calls, at one sequence of them.
use duck_voyage.Prelude.{◌≡◌, refl, false, none, some, List, [], ◌∷◌, ◌==◌, if◌then◌else◌}
use duck_voyage.Prelude.Results.{ok}
use duck_voyage.Prelude.Text.{codes}
use duck_voyage.Prelude.Tables.{exists}
use duck_voyage.Storage.Db.{Db}
use duck_voyage.Storage.Admin.{
  delete_flock, delete_user, flock_photo_keys, user_photo_keys, deletable,
}
use duck_voyage.Storage.Social.{is_following}
use duck_voyage.Storage.Following.{followers, history}
use duck_voyage.Storage.Following.Refinement.{is_following-followers}
use duck_voyage.Storage.Integrity.{Intact}
use duck_voyage.Storage.Integrity.Reach.{
  Call, upserting, creating, minting, logging, following, unfollowing, removing_user, perform,
  Reach, here, next, IsSeeded, Reach-Intact, delete_flock-succeeds, delete_user-succeeds,
}
use duck_voyage.Examples.Data.{label}

abbrev harbour : Db
harbour = record {
  now = 100;
  next_id = 1;
  users = [];
  flocks = [];
  ducks = [];
  sightings = [];
  comments = [];
  follows = [];
  notifications = [];
  flows = [];
  vessels = record { id = 21; imo_number = none; name = codes "Ship"; created_at = 1 } ∷ [];
  lines = [];
  operators = [];
}

-- An owner and a finder sign in, a flock gets its first label, the owner follows the duck, and the finder
-- logs a find.
abbrev pub calls : List Call
calls =
    logging (record {
      duck_id = 4;
      vessel_id = 21;
      user_id = 2;
      seen_at = 90;
      note = none;
      photo = none;
      coordinates = none;
    })
    ∷ following 1 4
    ∷ minting 3 1 (λ seq. some label)
    ∷ creating (λ attempt. 10 ∷ 11 ∷ 12 ∷ []) 1 1 none
    ∷ upserting (record { issuer = codes "i"; subject = codes "b" }) none none false
    ∷ upserting (record { issuer = codes "i"; subject = codes "a" }) none none false
    ∷ []

-- The tables after calls, the last first.
abbrev pub after : List Call → Db
after [] = harbour
after (call ∷ calls) = perform call (after calls)

abbrev pub reached_after : (calls : List Call) → Reach harbour (after calls)
reached_after [] = here
reached_after (call ∷ calls) = next call (reached_after calls) refl

pub harbour-IsSeeded : IsSeeded harbour
harbour-IsSeeded = record {
  no_flocks = refl;
  no_ducks = refl;
  no_sightings = refl;
  no_comments = refl;
  no_follows = refl;
  no_notifications = refl;
}

Reach-Intact_example : Intact (after calls)
Reach-Intact_example = Reach-Intact (reached_after calls) harbour-IsSeeded

delete_flock-succeeds_example :
    (delete_flock 3 (after calls)).0
    ≡ ok (
        if exists (λ f. f.id == 3) (after calls).flocks
        then some (flock_photo_keys 3 (after calls))
        else none)
delete_flock-succeeds_example = delete_flock-succeeds (reached_after calls) harbour-IsSeeded 3

delete_user-succeeds_example :
    (delete_user 2 (after calls)).0
    ≡ ok (
        if exists (deletable 2) (after calls).users
        then some (user_photo_keys 2 (after calls))
        else none)
delete_user-succeeds_example = delete_user-succeeds (reached_after calls) harbour-IsSeeded 2

-- The owner unfollows the duck, then the finder is deleted.
is_following-followers_example :
    is_following 1 4 (after (removing_user 2 ∷ unfollowing 1 4 ∷ calls))
    ≡ ok (followers (history (reached_after (removing_user 2 ∷ unfollowing 1 4 ∷ calls))) 1 4)
is_following-followers_example =
    is_following-followers (reached_after (removing_user 2 ∷ unfollowing 1 4 ∷ calls))
      harbour-IsSeeded 1 4
