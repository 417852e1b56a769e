-- ===== src/Storage/Readable/Calls.antt =====
-- What the calls of the repositories of crates/storage/src/repos.rs do to the rows that can be read,
-- where their arguments were parsed.
use duck_voyage.Prelude.{
  ◌≡◌, refl, ℕ, ◌<◌, ◌^◌, Bool, true, false, Option, none, some, All, All-append, arith, ltb,
  length, map_option, List, ◌==◌, subst, Bool-cases, inl, inr,
}
use duck_voyage.Prelude.Results.{ok, map_err, traverse}
use duck_voyage.Prelude.Text.{Text, text_eq}
use duck_voyage.Prelude.Tables.{exists}
use duck_voyage.Prelude.Tables.Laws
use duck_voyage.Domain.Damm.Detect.{IsDigit}
use duck_voyage.Domain.Codes.{KeyGeneration, FlockSeq, DuckCode, new_seq, parse_duck, chars_of}
use duck_voyage.Domain.Codes.Glyphs.{chars_of-glyphs}
use duck_voyage.Domain.Coords.{Coordinates, new_coordinates}
use duck_voyage.Domain.BoundedText.{
  FlockLabel, DuckName, DuckDescription, Note, PhotoRef, parse_bounded,
}
use duck_voyage.Domain.BoundedText.Trimming.{IsParsed, reparsed}
use duck_voyage.Domain.Entities.{Key}
use duck_voyage.Storage.Rows.{
  DuckRow, FlockRow, UserRow, try_flock, try_sighting, photo_of, coordinates_of, corrupt, sighting,
}
use duck_voyage.Storage.Db.{Db}
use duck_voyage.Storage.Kept.{with_flock, draw_flock-kept, mint_batch-kept}
use duck_voyage.Storage.Flocks.{create_flock}
use duck_voyage.Storage.Flocks.Draw.{IsParsedLabel, column, spelt, created, try_flock-created}
use duck_voyage.Storage.Ducks.{
  mint_batch, update_duck, stage, can_stage, stage_row, set_sail, can_sail, sail_row, set_deleted,
  set_comments_locked, toggled,
}
use duck_voyage.Storage.Ducks.Lifecycle.{IsParsedName}
use duck_voyage.Storage.Sightings.{
  NewSighting, sighting_row, references, log, of_duck, delete_sighting,
}
use duck_voyage.Storage.Readable.{
  Converts, IsWhole, Readable, new_row-IsWhole, stage_row-IsWhole, sail_row-IsWhole,
}

-- Three base-36 digits in each draw.
abbrev pub AreDraws : (ℕ → List ℕ) → Type 0
AreDraws draw = (k : ℕ) → All IsDigit (draw k) × (length (draw k) ≡ 3)

-- Codes that parse, as they are.
abbrev pub Encodes : (FlockSeq → Option DuckCode) → Type 0
Encodes encode =
    (s : FlockSeq) (c : DuckCode)
    → new_seq s.get ≡ ok s
    → encode s ≡ some c
    → parse_duck c.as_str ≡ ok c

abbrev pub IsParsedNote : Option Note → Type 0
IsParsedNote none = Unit
IsParsedNote (some n) = IsParsed 2000 n

abbrev pub IsPoint : Option Coordinates → Type 0
IsPoint none = Unit
IsPoint (some c) = new_coordinates c.lat c.lon ≡ ok c

pub spelt-eq :
    (draw : ℕ → List ℕ) (k : ℕ) (candidate : Text)
    → All IsDigit (draw k)
    → chars_of (draw k) ≡ some candidate
    → spelt draw k ≡ candidate
spelt-eq draw k candidate h e = let same = chars_of-glyphs (draw k) h in cc

pub create_flock-Readable :
    (draw : ℕ → List ℕ) (owner : Key) (generation : KeyGeneration) (label : Option FlockLabel)
    (db : Db)
    → AreDraws draw
    → IsParsedLabel label
    → Readable db
    → Readable (create_flock draw owner generation label db).1
unfolding create_flock
create_flock-Readable draw owner generation label db drawn parsed =
    draw_flock-kept Readable draw owner generation (column label) row 64 db
  where
    row :
        (k : ℕ) (candidate : Text) (db : Db)
        → chars_of (draw k) ≡ some candidate
        → ltb generation (2 ^ 15) ≡ true
        → exists (λ (r : FlockRow). text_eq r.flock_code candidate) db.flocks ≡ false
        → exists (λ (u : UserRow). u.id == owner) db.users ≡ true
        → Readable db
        → Readable (with_flock candidate generation owner (column label) db)
    row k candidate db e g unused known (f, d, s) =
        let small : generation < 2 ^ 15 = ground arith in
        let new = try_flock-created draw drawn owner generation small label parsed db known k in
        let whole =
          subst
            (λ t. Converts try_flock (record {
              id = db.next_id;
              flock_code = t;
              key_generation = generation;
              owner_user_id = owner;
              label = column label;
              created_at = db.now;
            }))
            (spelt-eq draw k candidate (drawn k).0 e)
            (created owner generation label db (spelt draw k), new) in
        (All-append _ db.flocks _ f (whole, tt), d, s)

pub mint_batch-Readable :
    (flock : Key) (amount : ℕ) (encode : FlockSeq → Option DuckCode) (db : Db)
    → Encodes encode
    → Readable db
    → Readable (mint_batch flock amount encode db).1
mint_batch-Readable flock amount encode db encodes =
    mint_batch-kept Readable flock encode
      (λ entry db (numbered, made) known (f, d, s).
        let whole =
          new_row-IsWhole flock entry db numbered (encodes entry.0 entry.1 numbered made) in
        (f, All-append _ db.ducks _ d (whole, tt), s))
      amount db

update_duck-Readable :
    (test : DuckRow → Bool) (f : DuckRow → DuckRow) (db : Db)
    → ((r : DuckRow) → test r ≡ true → IsWhole r → IsWhole (f r))
    → Readable db
    → Readable (update_duck test f db).1
unfolding update_duck
update_duck-Readable test f db keeps (fl, d, s) =
    (fl, Laws.All-update test f db.ducks (λ r h. h) (λ r h e. keeps r e h) d, s)

pub stage-Readable :
    (id : Key) (description : DuckDescription) (name : Option DuckName) (photo : PhotoRef) (db : Db)
    → IsParsed 2000 description
    → IsParsedName name
    → Readable db
    → Readable (stage id description name photo db).1
unfolding stage
stage-Readable id description name photo db hd hn =
    update_duck-Readable (can_stage id) (stage_row db.now description name photo) db
      (λ r e. stage_row-IsWhole db.now description name photo r hd hn)

pub set_sail-Readable : (id : Key) (db : Db) → Readable db → Readable (set_sail id db).1
unfolding set_sail
set_sail-Readable id db =
    update_duck-Readable (can_sail id) (sail_row db.now) db
      (λ r e. sail_row-IsWhole db.now r (ground arith))

pub set_deleted-Readable :
    (id : Key) (deleted : Bool) (db : Db) → Readable db → Readable (set_deleted id deleted db).1
unfolding set_deleted
set_deleted-Readable id deleted db =
    update_duck-Readable (λ r. r.id == id)
      (λ r. record r { deleted_at = toggled deleted db.now r.deleted_at }) db (λ r e h. h)

pub set_comments_locked-Readable :
    (id : Key) (locked : Bool) (db : Db)
    → Readable db
    → Readable (set_comments_locked id locked db).1
unfolding set_comments_locked
set_comments_locked-Readable id locked db =
    update_duck-Readable (λ r. r.id == id)
      (λ r. record r { comments_locked_at = toggled locked db.now r.comments_locked_at }) db
      (λ r e h. h)

photo_of-columns :
    (photo : Option PhotoRef)
    → photo_of
        (map_option (λ (p : PhotoRef). p.key.as_str) photo)
        (map_option (λ (p : PhotoRef). p.content_type) photo)
      ≡ ok photo
photo_of-columns none = refl
photo_of-columns (some p) = refl

coordinates_of-columns :
    (point : Option Coordinates)
    → IsPoint point
    → coordinates_of
        (map_option (λ (c : Coordinates). c.lat) point)
        (map_option (λ (c : Coordinates). c.lon) point)
      ≡ ok point
coordinates_of-columns none h = refl
coordinates_of-columns (some c) h = rw h refl

reparsed_note :
    (note : Option Note)
    → IsParsedNote note
    → traverse
        (λ n. map_err (λ _. corrupt sighting) (parse_bounded 2000 n))
        (map_option (λ (n : Note). n.as_str) note)
      ≡ ok note
reparsed_note none h = refl
reparsed_note (some n) h = rw (reparsed 2000 n h)

sighting_row-Converts :
    (new : NewSighting) (db : Db)
    → IsParsedNote new.note
    → IsPoint new.coordinates
    → Converts try_sighting (sighting_row new db)
unfolding try_sighting
sighting_row-Converts new db note point = (
  record {
    id = db.next_id;
    duck_id = new.duck_id;
    vessel_id = new.vessel_id;
    user_id = new.user_id;
    seen_at = new.seen_at;
    note = new.note;
    photo = new.photo;
    coordinates = new.coordinates;
    created_at = db.now;
  },
  rw
      (
        photo_of-columns new.photo,
        coordinates_of-columns new.coordinates point,
        reparsed_note new.note note,
      )
      refl,
)

pub log-Readable :
    (new : NewSighting) (db : Db)
    → IsParsedNote new.note
    → IsPoint new.coordinates
    → Readable db
    → Readable (log new db).1
unfolding log
log-Readable new db note point (f, d, s) = elim (Bool-cases (references new db)) [
  | inr e ↦ rw e (f, d, s)
  | inl e ↦ rw e (f, d, All-append _ db.sightings _ s (sighting_row-Converts new db note point, tt))
]

pub delete_sighting-Readable :
    (id duck : Key) (db : Db) → Readable db → Readable (delete_sighting id duck db).1
unfolding delete_sighting
delete_sighting-Readable id duck db (f, d, s) =
    (f, d, Laws.All-delete (of_duck id duck) db.sightings (λ r h _. h) s)
