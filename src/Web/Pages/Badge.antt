-- ===== src/Web/Pages/Badge.antt =====
-- The badge of unread notifications (crates/web/src/handlers/mod.rs, me.rs).
use duck_voyage.Prelude.{
  ◌≡◌, refl, ap, sym, arith, Bool, true, false, not, some, is_some, List, [], ◌∷◌, ◌==◌,
}
use duck_voyage.Prelude.Results.{ok}
use duck_voyage.Prelude.Tables.{update, count}
use duck_voyage.Prelude.Tables.Laws.{count-map, count-select}
use duck_voyage.Domain.Entities.{Timestamp, Key}
use duck_voyage.Storage.Db.{NotificationRow, Db}
use duck_voyage.Storage.Social.{unread_of, unread_count, mark_all_read}
use duck_voyage.Storage.Overviews.{FeedRow, feed_rows}
use duck_voyage.Storage.Overviews.Complete.{feed_rows_complete}
use duck_voyage.Storage.Integrity.Reach.{Reach, IsSeeded}
use duck_voyage.Web.State.{User, Env, App, World}
use duck_voyage.Web.Duck.Pages.{nav}
use duck_voyage.Web.Pages.{mark_notifications_read}

abbrev pub is_unread : NotificationRow → Bool
is_unread n = not (is_some n.read_at)

-- In tables that were reached from seeded ones, the badge of a user shows how many rows of the
-- user's feed before its limit are unread.
pub nav-feed :
    {start db : Db} (user : User)
    → Reach start db
    → IsSeeded start
    → nav (some user) db
      ≡ ok (record {
        display_name = user.display_name;
        logged_in = true;
        is_admin = user.is_admin;
        unread = count (λ (r : FeedRow). is_unread r.notification) (feed_rows user.id db);
      })
unfolding nav unread_count
nav-feed {start} {db} user reached seeded =
    let (complete, _) = feed_rows_complete user.id reached seeded in
    rw
      (
        sym (count-map is_unread (λ (r : FeedRow). r.notification) (feed_rows user.id db)),
        complete,
        count-select (λ n. n.user_id == user.id) is_unread db.notifications,
      )
      refl

read_self :
    (user : Key) (now : Timestamp) (rows : List NotificationRow)
    → count (unread_of user) (update (unread_of user) (λ n. record n { read_at = some now }) rows)
      ≡ 0
read_self user now [] = refl
read_self user now (n ∷ rows) = ground (arith, read_self user now rows)

read_other :
    (user other : Key) (now : Timestamp) (rows : List NotificationRow)
    → (user == other) ≡ false
    → count (unread_of other) (update (unread_of user) (λ n. record n { read_at = some now }) rows)
      ≡ count (unread_of other) rows
read_other user other now [] h = refl
read_other user other now (n ∷ rows) h = ground (arith, read_other user other now rows)

-- Reading the notifications of a user leaves none unread, and those of others as they were.
pub mark_notifications_read_lem :
    (env : Env) (app : App env) (user : User) (w : World env)
    → let after = (mark_notifications_read env app user w).1.db in
      (unread_count user.id after ≡ ok 0)
      × ((other : Key)
          → (user.id == other) ≡ false
          → unread_count other after ≡ unread_count other w.db)
unfolding mark_notifications_read mark_all_read unread_count
mark_notifications_read_lem env app user w = (
  ap ok (read_self user.id w.db.now w.db.notifications),
  λ other h. ap ok (read_other user.id other w.db.now w.db.notifications h),
)
