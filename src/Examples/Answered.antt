-- ===== src/Examples/Answered.antt =====
-- The theorems on rows that can be read, at one sequence of calls.
use duck_voyage.Prelude.{◌≡◌, refl, some, arith, subst}
use duck_voyage.Prelude.Results.{ok}
use duck_voyage.Prelude.Text.{codes}
use duck_voyage.Domain.Codes.{DuckCode, FlockSeq, FlockCode, parse_duck}
use duck_voyage.Domain.Entities.{Key}
use duck_voyage.Storage.Flocks.{flock_by_id, flock_by_code, flocks_for_owner}
use duck_voyage.Storage.Ducks.{duck_by_id, by_flock_and_seq}
use duck_voyage.Storage.Sightings.{sighting_by_id}
use duck_voyage.Storage.Views.{sightings_for_duck, for_flock}
use duck_voyage.Storage.Readable.Calls.{Encodes}
use duck_voyage.Storage.Readable.History.{AllParsed}
use duck_voyage.Storage.Readable.Reads.{Succeeds, Reach-reads}
use duck_voyage.Web.Duck.{resolve_any}
use duck_voyage.Web.Duck.Answers.{Answers, resolve_any-Answers}
use duck_voyage.Examples.Data.{plain, codec, label}
use duck_voyage.Examples.Reached.{calls, after, reached_after, harbour-IsSeeded}

label-parses : parse_duck label.as_str ≡ ok label
unfolding parse_duck duck_voyage.Domain.Base36.digit_of duck_voyage.Domain.Base36.char_of
    duck_voyage.Domain.Damm.validate
label-parses = refl

label-Encodes : Encodes (λ seq. some label)
label-Encodes s c h e = subst (λ (x : DuckCode). parse_duck x.as_str ≡ ok x) (same e) label-parses
  where
    same : {a b : DuckCode} → some a ≡ some b → a ≡ b
    same e = cc

pub calls-AllParsed : AllParsed (reached_after calls)
calls-AllParsed = (
  (tt, tt),
  (
    tt,
    (
      label-Encodes,
      ((λ k. ((omega arith, (omega arith, (omega arith, tt))), refl), tt), (tt, (tt, tt))),
    ),
  ),
)

Reach-reads_example :
    ((id : Key) → Succeeds (flock_by_id id (after calls)))
    × ((code : FlockCode) → Succeeds (flock_by_code code (after calls)))
    × ((owner : Key) → Succeeds (flocks_for_owner owner (after calls)))
    × ((id : Key) → Succeeds (duck_by_id id (after calls)))
    × ((flock : Key) (seq : FlockSeq) → Succeeds (by_flock_and_seq flock seq (after calls)))
    × ((flock : Key) → Succeeds (for_flock flock (after calls)))
    × ((id : Key) → Succeeds (sighting_by_id id (after calls)))
    × ((duck : Key) → Succeeds (sightings_for_duck duck (after calls)))
Reach-reads_example = Reach-reads (reached_after calls) calls-AllParsed harbour-IsSeeded

resolve_any-Answers_example : Answers (resolve_any plain codec (codes "abc-001q") (after calls))
resolve_any-Answers_example =
    resolve_any-Answers plain codec (reached_after calls) calls-AllParsed harbour-IsSeeded
      (codes "abc-001q")
