-- ===== src/Storage/Following.antt =====
-- `FollowRepo` (crates/storage/src/repos.rs) and the other statements on `duck_follow`, against a set of
-- followers: who follows which duck, as told by what happened and not by the rows.
pub mod Untouched
pub mod Refinement
use duck_voyage.Prelude.{Bool, true, false, not, List, [], ◌∷◌, ◌==◌, ◌&&◌, ◌||◌, if◌then◌else◌}
use duck_voyage.Prelude.Tables.{exists}
use duck_voyage.Domain.Entities.{Key}
use duck_voyage.Storage.Db.{Db}
use duck_voyage.Storage.Sightings.{references}
use duck_voyage.Storage.Social.{known}
use duck_voyage.Storage.Admin.{on_duck, in_flock, in_flocks_of, deletable}
use duck_voyage.Storage.Integrity.Reach.{
  Call, following, unfollowing, logging, removing_flock, removing_user, Reach, here, next,
}

-- Whether a user follows a duck.
abbrev pub Followers : Type 0
Followers = Key → Key → Bool

-- What may happen to the set: a user starts or stops following a duck, or users and ducks go.
pub data Event : Type 0 where
  began ended : Key → Key → Event
  gone : (Key → Bool) → (Key → Bool) → Event
  idle : Event

abbrev pub after : Event → Followers → Followers
after (began user duck) set u d = set u d || (user == u && duck == d)
after (ended user duck) set u d = set u d && not (u == user && d == duck)
after (gone users ducks) set u d = set u d && not (users u || ducks d)
after idle set u d = set u d

-- Nobody follows a duck before the first event; the last event comes first.
abbrev pub followers : List Event → Followers
followers [] u d = false
followers (e ∷ es) u d = after e (followers es) u d

-- What a call means for the set.
abbrev pub event : Call → Db → Event
event (following user duck) db = if known duck user db then began user duck else idle
event (unfollowing user duck) db = ended user duck
event (logging new) db = if references new db then began new.user_id new.duck_id else idle
event (removing_flock flock) db = gone (λ user. false) (on_duck (in_flock flock) db)
event (removing_user user) db =
    if exists (deletable user) db.users
    then gone (λ u. u == user) (on_duck (in_flocks_of user db) db)
    else idle
event call db = idle

-- The events of the calls that led to some tables.
abbrev pub history : {start db : Db} → Reach start db → List Event
history here = []
history (next {now} call r e) = event call now ∷ history r
