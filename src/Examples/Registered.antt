-- ===== src/Examples/Registered.antt =====
-- The theorem on minting in tables that were reached, at a flock with one label.
use duck_voyage.Prelude.{◌≡◌, refl, false, none, some, List, [], ◌∷◌, ◌==◌, arith, subst, sym}
use duck_voyage.Prelude.Results.{ok, traverse}
use duck_voyage.Prelude.Tables.{find}
use duck_voyage.Storage.Kept.{mint_batch-kept}
use duck_voyage.Prelude.Text.{codes}
use duck_voyage.Domain.Base36.{digit_of, char_of}
use duck_voyage.Domain.Codes.{parse_flock, chars_of}
use duck_voyage.Domain.Codec.{get}
use duck_voyage.Domain.Profanity.{matches}
use duck_voyage.Domain.Entities.{Flock}
use duck_voyage.Storage.Flocks.{flock_by_id, create_flock, insert_flock, draw_flock}
use duck_voyage.Storage.Rows.{FlockRow, try_flock}
use duck_voyage.Storage.Users.{upsert}
use duck_voyage.Storage.Ducks.{mint_batch}
use duck_voyage.Storage.Integrity.Reach.{Call, upserting, creating, minting, perform}
use duck_voyage.Web.Flock.{mintable}
use duck_voyage.Web.Flock.Register.History.{AllHandled}
use duck_voyage.Web.Flock.Register.Outcome.{Filled, mint_batch-Filled}
use duck_voyage.Examples.Data.{abc, plain, codec}
use duck_voyage.Examples.Reached.{after, reached_after, harbour-IsSeeded}

abbrev row : FlockRow
row = record {
  id = 2;
  flock_code = codes "ABC";
  key_generation = 1;
  owner_user_id = 1;
  label = none;
  created_at = 100;
}

abbrev stored : Flock
stored = record { id = 2; code = abc; generation = 1; owner = 1; label = none; created_at = 100 }

abbrev begun : List Call
begun =
    creating (λ attempt. 10 ∷ 11 ∷ 12 ∷ []) 1 1 none
    ∷ upserting (record { issuer = codes "i"; subject = codes "a" }) none none false
    ∷ []

-- An owner signs in, creates a flock, and mints a label.
abbrev minted : List Call
minted = minting 2 1 (mintable plain codec stored) ∷ begun

row-read : try_flock row ≡ ok stored
unfolding try_flock parse_flock digit_of char_of
row-read = refl

minted-AllHandled : AllHandled plain codec (reached_after minted)
unfolding perform upsert create_flock draw_flock insert_flock chars_of char_of matches get try_flock
    parse_flock digit_of
minted-AllHandled = (
  (row, stored, refl, row-read, refl),
  (((λ k. ((omega arith, (omega arith, (omega arith, tt))), refl)), tt, (tt, refl)), (tt, tt)),
)

same_flocks : (after minted).flocks ≡ (after begun).flocks
unfolding perform
same_flocks =
    mint_batch-kept (λ later. later.flocks ≡ (after begun).flocks) 2 (mintable plain codec stored)
      (λ entry later made known h. h) 1 (after begun) refl

begun-stored : traverse try_flock (find (λ r. r.id == 2) (after begun).flocks) ≡ ok (some stored)
unfolding perform upsert create_flock draw_flock insert_flock chars_of char_of matches try_flock
    parse_flock digit_of
begun-stored = refl

minted-stored : flock_by_id 2 (after minted) ≡ ok (some stored)
unfolding flock_by_id
minted-stored =
    subst (λ fs. traverse try_flock (find (λ r. r.id == 2) fs) ≡ ok (some stored)) (sym same_flocks)
      begun-stored

-- Two more labels.
mint_batch-Filled_example :
    Filled 2 2 (mint_batch 2 2 (mintable plain codec stored) (after minted)).0
mint_batch-Filled_example =
    mint_batch-Filled plain codec (reached_after minted) minted-AllHandled harbour-IsSeeded 2 2
      stored minted-stored
