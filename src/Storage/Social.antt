-- ===== src/Storage/Social.antt =====
-- `CommentRepo`, `FollowRepo`, `NotificationRepo` and `OidcFlowRepo` of crates/storage/src/repos.rs.
pub mod Flows
use duck_voyage.Prelude.{
  ℕ, suc, ◌+◌, ◌*◌, Bool, true, false, not, Option, none, some, is_some, List, [], ◌∷◌, ◌++◌, ◌==◌,
  ◌&&◌, ltb, if◌then◌else◌, map_option,
}
use duck_voyage.Prelude.Results.{Res, ok, err}
use duck_voyage.Prelude.Text.{Text, text_eq}
use duck_voyage.Prelude.Tables.{find, delete, update, exists, count}
use duck_voyage.Domain.BoundedText.{CommentBody}
use duck_voyage.Domain.Entities.{Timestamp, Key}
use duck_voyage.Storage.Rows.{RepoError, sql}
use duck_voyage.Storage.Db.{CommentRow, NotificationRow, FlowRow, Db, Repo}
use duck_voyage.Storage.Sightings.{add_follow, follows_duck}

-- The foreign keys of `duck_comment` and `duck_follow`.
abbrev pub known : Key → Key → Db → Bool
known duck user db = exists (λ d. d.id == duck) db.ducks && exists (λ u. u.id == user) db.users

-- `CommentRepo::add`
unfoldable pub add_comment : Key → Key → CommentBody → Repo Key
add_comment duck user body db =
    let row : CommentRow = record {
      id = db.next_id;
      duck_id = duck;
      user_id = user;
      body = body.as_str;
      created_at = db.now;
    } in
    if known duck user db
    then (ok db.next_id, record db { comments = db.comments ++ row ∷ []; next_id = suc db.next_id })
    else (err sql, db)

-- `CommentRepo::delete`, and whether a row was removed.
unfoldable pub delete_comment : Key → Key → Repo Bool
delete_comment comment duck db =
    let test : CommentRow → Bool = λ r. r.id == comment && r.duck_id == duck in
    (ok (exists test db.comments), record db { comments = delete test db.comments })

-- `FollowRepo`
unfoldable pub follow : Key → Key → Repo (Unit {0})
follow user duck db =
    if known duck user db
    then (ok tt, record db { follows = add_follow user duck db.now db.follows })
    else (err sql, db)

unfoldable pub unfollow : Key → Key → Repo (Unit {0})
unfollow user duck db = (ok tt, record db { follows = delete (follows_duck user duck) db.follows })

unfoldable pub is_following : Key → Key → Db → Res RepoError Bool
is_following user duck db = ok (exists (follows_duck user duck) db.follows)

-- `NotificationRepo::unread_count` and `mark_all_read`
abbrev pub unread_of : Key → NotificationRow → Bool
unread_of user n = n.user_id == user && not (is_some n.read_at)

unfoldable pub unread_count : Key → Db → Res RepoError ℕ
unread_count user db = ok (count (unread_of user) db.notifications)

unfoldable pub mark_all_read : Key → Repo (Unit {0})
mark_all_read user db = (
  ok tt,
  record db {
    notifications =
        update (unread_of user) (λ n. record n { read_at = some db.now }) db.notifications;
  },
)

-- What the login keeps between the redirect and the callback.
pub record StoredLoginFlow : Type 0 where
  pub state : Text
  pub provider : Text
  pub pkce_verifier : Text
  pub nonce : Text
  pub return_to : Option Text

-- interval '15 minutes'
abbrev pub flow_life : ℕ
flow_life = 15 * 60

-- `OidcFlowRepo::put`: the sweep, then the insert, which fails on a `state` that is taken. The two
-- statements are no transaction: the sweep stays.
unfoldable pub put_flow : StoredLoginFlow → Repo (Unit {0})
put_flow flow db =
    let swept = delete (λ (f : FlowRow). ltb (f.created_at + flow_life) db.now) db.flows in
    let row : FlowRow = record {
      state = flow.state;
      provider = flow.provider;
      pkce_verifier = flow.pkce_verifier;
      nonce = flow.nonce;
      return_to = flow.return_to;
      created_at = db.now;
    } in
    if exists (λ f. text_eq f.state flow.state) swept
    then (err sql, record db { flows = swept })
    else (ok tt, record db { flows = swept ++ row ∷ [] })

abbrev pub fresh : Text → Timestamp → FlowRow → Bool
fresh state now f = text_eq f.state state && ltb now (f.created_at + flow_life)

abbrev pub stored_flow : FlowRow → StoredLoginFlow
stored_flow f = record {
  state = f.state;
  provider = f.provider;
  pkce_verifier = f.pkce_verifier;
  nonce = f.nonce;
  return_to = f.return_to;
}

-- `OidcFlowRepo::take`: retrieve and delete.
unfoldable pub take_flow : Text → Repo (Option StoredLoginFlow)
take_flow state db = (
  ok (map_option stored_flow (find (fresh state db.now) db.flows)),
  record db { flows = delete (fresh state db.now) db.flows },
)
