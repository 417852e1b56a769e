-- ===== src/Storage/Flocks/Draw.antt =====
-- The loop of `FlockRepo::create` (crates/storage/src/repos.rs): which draw of a prefix it takes.
use duck_voyage.Prelude.{
  ◌≡◌, refl, ℕ, zero, suc, ◌<◌, ◌^◌, Bool, true, false, Option, none, some, List, ◌==◌, ◌||◌, inl,
  inr, map, length, map_option, All, arith, ltb, Bool-cases, ◌∙◌, not, [], ◌∷◌,
}
use duck_voyage.Prelude.Results.{Res, ok, err, map_err, traverse}
use duck_voyage.Prelude.Text.{Text, text_eq}
use duck_voyage.Prelude.Tables.{exists, find}
use duck_voyage.Domain.Codes.{KeyGeneration}
use duck_voyage.Domain.Damm.Detect.{IsDigit}
use duck_voyage.Domain.Codes.Glyphs.{glyph, chars_of-glyphs}
use duck_voyage.Domain.Codes.Laws.{IsFlockCode, parse_flock-as_str}
use duck_voyage.Domain.Profanity.{matches}
use duck_voyage.Domain.BoundedText.{FlockLabel, parse_bounded}
use duck_voyage.Domain.BoundedText.Trimming.{IsParsed, reparsed}
use duck_voyage.Domain.Entities.{Key, Flock}
use duck_voyage.Storage.Rows.{RepoError, corrupt, flock, FlockRow, UserRow, try_flock}
use duck_voyage.Storage.Db.{Db}
use duck_voyage.Storage.Flocks.{insert_flock, draw_flock, create_flock}
use duck_voyage.Storage.Kept.{with_flock}

abbrev pub IsParsedLabel : Option FlockLabel → Type 0
IsParsedLabel none = Unit
IsParsedLabel (some l) = IsParsed 120 l

-- The texts that the draws spell.
abbrev pub spelt : (ℕ → List ℕ) → ℕ → Text
spelt draw k = map glyph (draw k)

-- A prefix that is profane, or that a flock has.
abbrev pub unusable : Db → Text → Bool
unusable db prefix =
    matches prefix || exists (λ (r : FlockRow). text_eq r.flock_code prefix) db.flocks

abbrev pub usable : Db → Text → Bool
usable db prefix = not (unusable db prefix)

-- The prefixes drawn in some attempts, in their order.
abbrev pub candidates : (ℕ → List ℕ) → ℕ → List Text
candidates draw zero = []
candidates draw (suc n) = spelt draw n ∷ candidates draw n

-- The column `label`.
abbrev pub column : Option FlockLabel → Option Text
column label = map_option (λ (l : FlockLabel). l.as_str) label

-- The flock of a prefix, as it is stored next.
abbrev pub created : Key → KeyGeneration → Option FlockLabel → Db → Text → Flock
created owner generation label db prefix = record {
  id = db.next_id;
  code = record { as_str = prefix };
  generation = generation;
  owner = owner;
  label = label;
  created_at = db.now;
}

-- What `create` comes to, from the prefix that was settled on.
abbrev pub settled :
    Key → KeyGeneration → Option FlockLabel → Db → Option Text → Res RepoError Flock × Db
settled owner generation label db none = (err (corrupt flock), db)
settled owner generation label db (some prefix) = (
  ok (created owner generation label db prefix),
  with_flock prefix generation owner (column label) db,
)

fits : (generation : KeyGeneration) → generation < 2 ^ 15 → ltb generation 65536 ≡ true
fits generation h = ground arith

below : (generation : KeyGeneration) → generation < 2 ^ 15 → ltb generation (2 ^ 15) ≡ true
below generation h = ground arith

neither : (a b : Bool) → (a || b) ≡ false → (a ≡ false) × (b ≡ false)
neither false b h = (refl, h)
neither true b h = cc

reparsed_label :
    (label : Option FlockLabel)
    → IsParsedLabel label
    → traverse
        (λ l. map_err (λ _. corrupt flock) (parse_bounded 120 l))
        (map_option (λ (l : FlockLabel). l.as_str) label)
      ≡ ok label
reparsed_label none h = refl
reparsed_label (some l) h = rw (reparsed 120 l h)

module _ (draw : ℕ → List ℕ) (drawn : (k : ℕ) → All IsDigit (draw k) × (length (draw k) ≡ 3))
    (owner : Key) (generation : KeyGeneration) (small : generation < 2 ^ 15)
    (label : Option FlockLabel) (parsed : IsParsedLabel label) (db : Db)
    (known : exists (λ (u : UserRow). u.id == owner) db.users ≡ true) where
  pub try_flock-created :
      (k : ℕ)
      → try_flock (record {
        id = db.next_id;
        flock_code = spelt draw k;
        key_generation = generation;
        owner_user_id = owner;
        label = (column label);
        created_at = db.now;
      })
        ≡ ok (created owner generation label db (spelt draw k))
  unfolding try_flock
  try_flock-created k =
      let flocked : IsFlockCode (record { as_str = spelt draw k }) (draw k) = record {
        digits = (drawn k).0;
        size = (drawn k).1;
        shown = refl;
      } in
      rw (
        parse_flock-as_str (record { as_str = spelt draw k }) (draw k) flocked,
        fits generation small,
        reparsed_label label parsed,
      )

  draw_flock-unusable :
      (n : ℕ)
      → unusable db (spelt draw n) ≡ true
      → draw_flock (suc n) draw owner generation (column label) db
        ≡ draw_flock n draw owner generation (column label) db
  unfolding draw_flock insert_flock
  draw_flock-unusable n h = elim (Bool-cases (matches (spelt draw n))) [
    | inl m ↦ rw (chars_of-glyphs (draw n) (drawn n).0, draw_flock, m)
    | inr m ↦
        let taken : exists (λ (r : FlockRow). text_eq r.flock_code (spelt draw n)) db.flocks
            ≡ true =
          rw m at h in
        rw (chars_of-glyphs (draw n) (drawn n).0, draw_flock, m, below generation small, taken)
  ]

  draw_flock-usable :
      (n : ℕ)
      → unusable db (spelt draw n) ≡ false
      → draw_flock (suc n) draw owner generation (column label) db ≡ (
        ok (created owner generation label db (spelt draw n)),
        with_flock (spelt draw n) generation owner (column label) db,
      )
  unfolding draw_flock insert_flock
  draw_flock-usable n h =
      let (clean, unused) = neither (matches (spelt draw n)) _ h in
      rw (
        chars_of-glyphs (draw n) (drawn n).0,
        draw_flock,
        clean,
        below generation small,
        unused,
        known,
        try_flock-created n,
      )

  draw_flock-find :
      (n : ℕ)
      → draw_flock n draw owner generation (column label) db
        ≡ settled owner generation label db (find (usable db) (candidates draw n))
  unfolding draw_flock
  draw_flock-find zero = refl
  draw_flock-find (suc n) = elim (Bool-cases (unusable db (spelt draw n))) [
    | inr e ↦ rw e (draw_flock-usable n e)
    | inl e ↦ rw e (draw_flock-unusable n e ∙ draw_flock-find n)
  ]

  -- With draws of three base-36 digits, a generation below 2 ^ 15, a label that was parsed and an
  -- owner who is a user, creating a flock settles on the first of 64 draws that is neither profane
  -- nor the prefix of a flock, stores the flock of that prefix and gives it; without such a draw
  -- it fails and changes nothing.
  pub create_flock-find :
      create_flock draw owner generation label db
      ≡ settled owner generation label db (find (usable db) (candidates draw 64))
  unfolding create_flock
  create_flock-find = draw_flock-find 64
