-- ===== src/Storage/Boards/Silence.antt =====
-- What the list of missing ducks (`DuckRepo::missing_since` of crates/storage/src/repos.rs) says of them.
use duck_voyage.Prelude.{
  ◌≡◌, refl, arith, Bool, true, false, not, Option, some, is_some, List, [], ◌∷◌, ◌&&◌, ◌==◌, All,
  Bool-cases, Option-cases, inl, inr, ltb, ap, sym, ◌∙◌, subst, and_then-some, map_option-some,
}
use duck_voyage.Prelude.Tables.{find, select, exists}
use duck_voyage.Prelude.Tables.Laws
use duck_voyage.Domain.Entities.{Timestamp, Key}
use duck_voyage.Storage.Rows.{DuckRow, SightingRow}
use duck_voyage.Storage.Db.{Db}
use duck_voyage.Storage.Views.{sort}
use duck_voyage.Storage.Boards.{
  BoardRow, of_this, newer, head, joined, last_sighting, board_row, board, silent_since,
  longer_silent, missing_rows,
}
use duck_voyage.Storage.Boards.Order.{IsOrder, Ascending, sort-All, unsort-All, sort-Ascending}

newer-IsOrder : IsOrder newer
newer-IsOrder = record {
  asymmetric = λ a b h. ground arith;
  transitive = λ a b c h k. ground arith;
}

-- What the rows of an inner join have.
pub joined-All {ℓ} :
    {A : Type ℓ} {B : Type 0} (Q : B → Type 0) (partner : A → Option B) (rows : List A)
    → All (λ a. (b : B) → partner a ≡ some b → Q b) rows
    → All Q (joined partner rows)
joined-All Q partner [] h = tt
joined-All Q partner (a ∷ rows) (here, h) = elim (Option-cases (partner a)) [
  | inl e ↦ rw e (joined-All Q partner rows h)
  | inr (b, e) ↦ rw e (here b e, joined-All Q partner rows h)
]

module _ {A : Type 0} (test : A → Bool) where
  select-none : (rows : List A) → exists test rows ≡ false → select test rows ≡ []
  select-none [] h = refl
  select-none (r ∷ rows) h = ground (arith, select-none rows)

  select-true : (rows : List A) → All (λ r. test r ≡ true) (select test rows)
  select-true [] = tt
  select-true (r ∷ rows) = elim (Bool-cases (test r)) [
    | inl e ↦ rw e (e, select-true rows)
    | inr e ↦ rw e (select-true rows)
  ]

  -- A row that passes and that the selected rows are not.
  unselect :
      (bad : A → Bool) (rows : List A)
      → All (λ r. bad r ≡ false) (select test rows)
      → exists (λ r. test r && bad r) rows ≡ false
  unselect bad [] h = refl
  unselect bad (r ∷ rows) h = elim (Bool-cases (test r)) [
    | inl e ↦ let (here, later) = rw e at h in rw (e, here) (unselect bad rows later)
    | inr e ↦ let later = rw e at h in rw e (unselect bad rows later)
  ]

-- What a last sighting is: one of the duck, and none of the duck is newer.
abbrev pub IsLast : Db → Key → SightingRow → Type 0
IsLast db id s =
    (of_this id s ≡ true)
    × (exists (of_this id) db.sightings ≡ true)
    × (exists (λ r. of_this id r && newer r s) db.sightings ≡ false)

first_of_sorted :
    (db : Db) (id : Key) (s : SightingRow) (sorted : List SightingRow)
    → sorted ≡ sort newer (select (of_this id) db.sightings)
    → head sorted ≡ some s
    → IsLast db id s
unfolding sort
first_of_sorted db id s [] e h = cc
first_of_sorted db id s (x ∷ rest) e h =
    let found = select (of_this id) db.sightings in
    let same : x ≡ s = cc in
    let ordered : Ascending newer (x ∷ rest) =
      subst (Ascending newer) (sym e) (sort-Ascending newer newer-IsOrder found) in
    let ours : All (λ r. of_this id r ≡ true) (x ∷ rest) =
      subst (All (λ r. of_this id r ≡ true)) (sym e)
        (sort-All newer (λ r. of_this id r ≡ true) found (select-true (of_this id) db.sightings)) in
    let low : All (λ r. newer r x ≡ false) (sort newer found) =
      subst (All (λ r. newer r x ≡ false)) e (ground arith, ordered.0) in
    let none_newer =
      unselect (of_this id) (λ r. newer r x) db.sightings (unsort-All newer _ found low) in
    subst (IsLast db id) same (ours.0, present, none_newer)
  where
    no_head : x ∷ rest ≡ sort newer [] → ⊥
    no_head h = cc

    present : exists (of_this id) db.sightings ≡ true
    present = elim (Bool-cases (exists (of_this id) db.sightings)) [
      | inl p ↦ p
      | inr p ↦
          let gone = select-none (of_this id) db.sightings p in
          let e' : x ∷ rest ≡ sort newer [] = e ∙ ap (sort newer) gone in absurd (no_head e')
    ]

last_sighting-IsLast :
    (db : Db) (id : Key) (s : SightingRow) → last_sighting id db ≡ some s → IsLast db id s
unfolding last_sighting
last_sighting-IsLast db id s h =
    first_of_sorted db id s (sort newer (select (of_this id) db.sightings)) refl h

abbrev pub IsBoarded : Db → BoardRow → Type 0
IsBoarded db r = (is_some r.duck.deleted_at ≡ false) × IsLast db r.duck.id r.last

board_row-IsBoarded :
    (db : Db) (d : DuckRow) (r : BoardRow)
    → is_some d.deleted_at ≡ false
    → board_row db d ≡ some r
    → IsBoarded db r
board_row-IsBoarded db d r alive h =
    let (last, e, h1) = and_then-some (last_sighting d.id db) _ h in
    let (v, _, same) = map_option-some _ (find (λ v. v.id == last.vessel_id) db.vessels) h1 in
    subst (IsBoarded db) same (alive, last_sighting-IsLast db d.id last e)

board-IsBoarded : (db : Db) → All (IsBoarded db) (board db)
unfolding board
board-IsBoarded db =
    joined-All (IsBoarded db) (board_row db) (select (λ d. not (is_some d.deleted_at)) db.ducks) (
      Laws.All-map (select (λ d. not (is_some d.deleted_at)) db.ducks)
        (λ d alive r e. board_row-IsBoarded db d r (ground arith) e)
        (select-true (λ (d : DuckRow). not (is_some d.deleted_at)) db.ducks))

-- What the list of the missing says of a row.
abbrev pub IsMissing : Timestamp → Db → BoardRow → Type 0
IsMissing cutoff db r =
    (is_some r.duck.deleted_at ≡ false)
    × (exists (of_this r.duck.id) db.sightings ≡ true)
    × (exists (λ s. of_this r.duck.id s && not (ltb s.seen_at cutoff)) db.sightings ≡ false)

-- Every duck that is listed as missing is not deleted, was sighted, and has no sighting at the
-- cutoff or after it.
pub missing_rows-IsMissing :
    (cutoff : Timestamp) (db : Db) → All (IsMissing cutoff db) (missing_rows cutoff db)
unfolding missing_rows
missing_rows-IsMissing cutoff db =
    sort-All longer_silent (IsMissing cutoff db) (select (silent_since cutoff) (board db)) (
      Laws.All-select (silent_since cutoff) (board db)
        (λ r (alive, (ours, present, last)) early. (alive, present, silent r last early))
        (board-IsBoarded db))
  where
    silent :
        (r : BoardRow)
        → exists (λ s. of_this r.duck.id s && newer s r.last) db.sightings ≡ false
        → silent_since cutoff r ≡ true
        → exists (λ s. of_this r.duck.id s && not (ltb s.seen_at cutoff)) db.sightings ≡ false
    silent r last early = go db.sightings last
      where
        go :
            (ss : List SightingRow)
            → exists (λ s. of_this r.duck.id s && newer s r.last) ss ≡ false
            → exists (λ s. of_this r.duck.id s && not (ltb s.seen_at cutoff)) ss ≡ false
        go [] h = refl
        go (s ∷ ss) h = ground (arith, go ss)
