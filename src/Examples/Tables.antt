-- ===== src/Examples/Tables.antt =====
-- The theorems on the tables, at tables of few rows.
use duck_voyage.Prelude.{◌≡◌, ◌==◌, refl, true, false, none, some}
use duck_voyage.Prelude.Results.{ok}
use duck_voyage.Prelude.Text.{codes}
use duck_voyage.Prelude.Tables.{exists}
use duck_voyage.Domain.BoundedText.{DuckDescription, DuckName, PhotoRef, parse_bounded}
use duck_voyage.Domain.Entities.{staged, sailing, DuckDetails}
use duck_voyage.Storage.Rows.{lifecycle_of}
use duck_voyage.Storage.Ducks.{stage_row, can_stage, sail_row, can_sail}
use duck_voyage.Storage.Ducks.Lifecycle.{lifecycle, lifecycle-steps}
use duck_voyage.Storage.Sightings.{NewSighting, log, delete_sighting}
use duck_voyage.Storage.Sightings.Logging.{Logged, log_lem}
use duck_voyage.Storage.Sightings.Removal.{delete_sighting-forged}
use duck_voyage.Storage.Social.{put_flow, take_flow}
use duck_voyage.Examples.Data.{duck_row, db, flow}

abbrev text : DuckDescription
text = record { as_str = codes "Yellow" }

abbrev name : DuckName
name = record { as_str = codes "Quack" }

abbrev photo : PhotoRef
photo = record { key = record { as_str = codes "p" }; content_type = codes "image/jpeg" }

abbrev kept : DuckDetails
kept = record { defined_at = 50; description = text; name = some name; photo = photo }

lifecycle-steps_example :
    (can_stage 11 duck_row ≡ true)
    × (can_sail 11 duck_row ≡ false)
    × (lifecycle (stage_row 50 text (some name) photo duck_row) ≡ ok (staged kept))
    × (can_stage 11 (stage_row 50 text (some name) photo duck_row) ≡ false)
    × (can_sail 11 (stage_row 50 text (some name) photo duck_row) ≡ true)
    × (lifecycle (sail_row 60 (stage_row 50 text (some name) photo duck_row))
        ≡ ok (sailing kept 60))
    × (can_stage 11 (sail_row 60 (stage_row 50 text (some name) photo duck_row)) ≡ false)
    × (can_sail 11 (sail_row 60 (stage_row 50 text (some name) photo duck_row)) ≡ false)
lifecycle-steps_example =
    lifecycle-steps 11 50 60 text (some name) photo duck_row (unfold lifecycle_of in refl) refl
      (codes "Yellow", unfold parse_bounded in refl) (codes "Quack", unfold parse_bounded in refl)

abbrev find : NewSighting
find = record {
  duck_id = 11;
  vessel_id = 21;
  user_id = 4;
  seen_at = 40;
  note = none;
  photo = none;
  coordinates = none;
}

log_lem_example : Logged find db (log find db).0 (log find db).1
log_lem_example = log_lem find db

delete_sighting-forged_example :
    ((delete_sighting 31 12 db).0 ≡ ok none)
    × ((delete_sighting 31 12 db).1.sightings ≡ db.sightings)
    × (exists (λ n. n.sighting_id == 31) (delete_sighting 31 12 db).1.notifications ≡ false)
delete_sighting-forged_example = delete_sighting-forged 31 12 db refl

taken : (take_flow (codes "s") (put_flow flow db).1).0 ≡ ok (some flow)
unfolding take_flow put_flow
taken = refl
