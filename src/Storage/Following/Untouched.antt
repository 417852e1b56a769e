-- ===== src/Storage/Following/Untouched.antt =====
-- The statements of crates/storage/src/repos.rs that leave the table `duck_follow` alone.
use duck_voyage.Prelude.{
  ◌≡◌, refl, ℕ, ◌+◌, Bool, Option, List, Bool-cases, Option-cases, inl, inr, ltb, map_option,
}
use duck_voyage.Prelude.Text.{Text, text_eq}
use duck_voyage.Prelude.Tables.{find, exists, delete}
use duck_voyage.Domain.Codes.{KeyGeneration, FlockSeq, DuckCode}
use duck_voyage.Domain.BoundedText.{OidcSubject, FlockLabel, CommentBody}
use duck_voyage.Domain.Entities.{Key}
use duck_voyage.Storage.Db.{Db}
use duck_voyage.Storage.Users.{upsert, same_identity}
use duck_voyage.Storage.Flocks.{create_flock}
use duck_voyage.Storage.Ducks.{mint_batch}
use duck_voyage.Storage.Kept.{draw_flock-kept, mint_batch-kept}
use duck_voyage.Storage.Social.{known, add_comment, StoredLoginFlow, put_flow, flow_life}

pub upsert-follows :
    (oidc : OidcSubject) (display_name email : Option Text) (grant_admin : Bool) (db : Db)
    → (upsert oidc display_name email grant_admin db).1.follows ≡ db.follows
unfolding upsert
upsert-follows oidc display_name email grant_admin db =
    elim (Option-cases (find (same_identity oidc) db.users)) [
      | inl e ↦ rw (e, upsert) refl
      | inr (r, e) ↦ rw (e, upsert) refl
    ]

pub create_flock-follows :
    (draw : ℕ → List ℕ) (owner : Key) (generation : KeyGeneration) (label : Option FlockLabel)
    (db : Db)
    → (create_flock draw owner generation label db).1.follows ≡ db.follows
unfolding create_flock
create_flock-follows draw owner generation label db =
    draw_flock-kept (λ later. later.follows ≡ db.follows) draw owner generation
      (map_option (λ l. l.as_str) label) (λ k candidate later d g x h kept. kept) 64 db refl

pub mint_batch-follows :
    (flock : Key) (amount : ℕ) (encode : FlockSeq → Option DuckCode) (db : Db)
    → (mint_batch flock amount encode db).1.follows ≡ db.follows
mint_batch-follows flock amount encode db =
    mint_batch-kept (λ later. later.follows ≡ db.follows) flock encode
      (λ entry later made h kept. kept) amount db refl

pub add_comment-follows :
    (duck user : Key) (body : CommentBody) (db : Db)
    → (add_comment duck user body db).1.follows ≡ db.follows
unfolding add_comment
add_comment-follows duck user body db = elim (Bool-cases (known duck user db)) [
  | inl e ↦ rw e refl
  | inr e ↦ rw e refl
]

pub put_flow-follows :
    (flow : StoredLoginFlow) (db : Db) → (put_flow flow db).1.follows ≡ db.follows
unfolding put_flow
put_flow-follows flow db =
    elim (Bool-cases (
      exists (λ f. text_eq f.state flow.state)
        (delete (λ f. ltb (f.created_at + flow_life) db.now) db.flows))) [
          | inl e ↦ rw e refl
          | inr e ↦ rw e refl
        ]
