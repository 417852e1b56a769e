-- ===== src/Storage/Boards/Order.antt =====
-- ORDER BY on the lists of crates/storage/src/repos.rs: what `sort` does for an order that leaves rows
-- tied, and that the missing ducks are the head of the list of the longest adrift.
use duck_voyage.Prelude.{
  ℕ, zero, suc, ◌≤◌, ◌≡◌, refl, arith, Bool, true, false, List, [], ◌∷◌, All, Bool-cases, inl, inr,
  if◌then◌else◌, ◌&&◌, length, take, ltb, ap, sym, ◌∙◌,
}
use duck_voyage.Prelude.Results.{Res, ok, ok_injective, >>=-eq-ok, map_err}
use duck_voyage.Prelude.Int.{pos}
use duck_voyage.Prelude.Tables.{select, count}
use duck_voyage.Prelude.Tables.Laws
use duck_voyage.Domain.Codes.{DuckCode, parse_duck}
use duck_voyage.Domain.Entities.{Timestamp}
use duck_voyage.Storage.Rows.{RepoError, corrupt, duck}
use duck_voyage.Storage.Db.{Db}
use duck_voyage.Storage.Flocks.{collect_rows}
use duck_voyage.Storage.Views.{place, sort}
use duck_voyage.Storage.Boards.{
  DuckSummary, BoardRow, board, summary, longer_silent, silent_since, missing_rows, missing_since,
  longest_since_sighting,
}

-- A strict order up to ties.
pub record IsOrder {A : Type 0} (before : A → A → Bool) : Type 0 where
  pub asymmetric : (a b : A) → before b a ≡ true → before a b ≡ false
  pub transitive : (a b c : A) → before b a ≡ false → before c b ≡ false → before c a ≡ false

module _ {A : Type 0} (before : A → A → Bool) where
  abbrev pub Ascending : List A → Type 0
  Ascending [] = Unit
  Ascending (a ∷ rest) = All (λ b. before b a ≡ false) rest × Ascending rest

  place-All : (P : A → Type 0) (a : A) (bs : List A) → P a → All P bs → All P (place before a bs)
  unfolding place
  place-All P a [] p h = (p, tt)
  place-All P a (b ∷ bs) p (here, h) = elim (Bool-cases (before b a)) [
    | inl e ↦ rw e (here, place-All P a bs p h)
    | inr e ↦ rw e (p, (here, h))
  ]

  pub sort-All : (P : A → Type 0) (rows : List A) → All P rows → All P (sort before rows)
  unfolding sort
  sort-All P [] h = tt
  sort-All P (a ∷ rest) (here, h) = place-All P a (sort before rest) here (sort-All P rest h)

  unplace-All : (P : A → Type 0) (a : A) (bs : List A) → All P (place before a bs) → P a × All P bs
  unfolding place
  unplace-All P a [] h = h
  unplace-All P a (b ∷ bs) h = elim (Bool-cases (before b a)) [
    | inl e ↦
        let (here, later) = rw e at h in
        let (p, rest) = unplace-All P a bs later in (p, (here, rest))
    | inr e ↦ let h' = rw e at h in h'
  ]

  -- What the rows in order have, they had before.
  pub unsort-All : (P : A → Type 0) (rows : List A) → All P (sort before rows) → All P rows
  unfolding sort
  unsort-All P [] h = tt
  unsort-All P (a ∷ rest) h =
      let (here, later) = unplace-All P a (sort before rest) h in (here, unsort-All P rest later)

  place-length : (a : A) (bs : List A) → length (place before a bs) ≡ suc (length bs)
  unfolding place
  place-length a [] = refl
  place-length a (b ∷ bs) = ground (arith, place-length a bs)

  pub sort-length : (rows : List A) → length (sort before rows) ≡ length rows
  unfolding sort
  sort-length [] = refl
  sort-length (a ∷ rest) = rw (place-length a (sort before rest), sort-length rest) refl

  place-count :
      (p : A → Bool) (a : A) (bs : List A) → count p (place before a bs) ≡ count p (a ∷ bs)
  unfolding place
  place-count p a [] = refl
  place-count p a (b ∷ bs) = ground (arith, place-count p a bs)

  pub sort-count : (p : A → Bool) (rows : List A) → count p (sort before rows) ≡ count p rows
  unfolding sort
  sort-count p [] = refl
  sort-count p (a ∷ rest) = rw (place-count p a (sort before rest), sort-count p rest) refl

  -- A row that no other is before comes first.
  place-first :
      (a : A) (bs : List A) → All (λ b. before b a ≡ false) bs → place before a bs ≡ a ∷ bs
  unfolding place
  place-first a [] h = refl
  place-first a (b ∷ bs) (here, h) = rw here refl

  module _ (order : IsOrder before) where
    place-Ascending : (a : A) (bs : List A) → Ascending bs → Ascending (place before a bs)
    unfolding place
    place-Ascending a [] h = (tt, tt)
    place-Ascending a (b ∷ bs) (below, h) = elim (Bool-cases (before b a)) [
      | inl e ↦ rw e (place-All _ a bs (order.asymmetric a b e) below, place-Ascending a bs h)
      | inr e ↦
          rw e ((e, Laws.All-map bs (λ c low. order.transitive a b c e low) below), (below, h))
    ]

    pub sort-Ascending : (rows : List A) → Ascending (sort before rows)
    unfolding sort
    sort-Ascending [] = tt
    sort-Ascending (a ∷ rest) = place-Ascending a (sort before rest) (sort-Ascending rest)

    module _ (test : A → Bool) where
      select-place :
          (a : A) (bs : List A)
          → Ascending bs
          → select test (place before a bs)
            ≡ (if test a then place before a (select test bs) else select test bs)
      unfolding place
      select-place a [] h = refl
      select-place a (b ∷ bs) (below, h) = elim (Bool-cases (before b a)) [
        | inl e ↦ elim (Bool-cases (test b)) [
          | inl t ↦ elim (Bool-cases (test a)) [
            | inl u ↦
                let ih = select-place a bs h in
                let ih' = rw u at ih in rw (t, u) (rw e (rw t (ap (λ r. b ∷ r) ih')))
            | inr u ↦
                let ih = select-place a bs h in
                let ih' = rw u at ih in rw (t, u) (rw e (rw t (ap (λ r. b ∷ r) ih')))
          ]
          | inr t ↦ rw (e, t) (select-place a bs h)
        ]
        | inr e ↦ elim (Bool-cases (test a)) [
          | inl u ↦
              let low : All (λ c. before c a ≡ false) (b ∷ bs) =
                (e, Laws.All-map bs (λ c. order.transitive a b c e) below) in
              rw (e, u)
                (sym (
                  place-first a (select test (b ∷ bs))
                    (Laws.All-select test (b ∷ bs) (λ c l _. l) low)))
          | inr u ↦ rw (e, u) refl
        ]
      ]

      -- Selecting rows before or after they are put in order.
      pub select-sort :
          (rows : List A) → select test (sort before rows) ≡ sort before (select test rows)
      unfolding sort
      select-sort [] = refl
      select-sort (a ∷ rest) =
          select-place a (sort before rest) (sort-Ascending rest) ∙ step a rest (select-sort rest)
        where
          step :
              (a : A) (rest : List A)
              → select test (sort before rest) ≡ sort before (select test rest)
              → (if test a
                  then place before a (select test (sort before rest))
                  else select test (sort before rest))
                ≡ sort before (select test (a ∷ rest))
          step a rest h = elim (Bool-cases (test a)) [
            | inl e ↦ rw (e, h) refl
            | inr e ↦ rw (e, h) refl
          ]

longer_silent-IsOrder : IsOrder longer_silent
longer_silent-IsOrder = record {
  asymmetric = λ a b h. ground arith;
  transitive = λ a b c h k. ground arith;
}

take-all {ℓ} : {A : Type ℓ} (n : ℕ) (xs : List A) → length xs ≤ n → take n xs ≡ xs
take-all zero [] h = refl
take-all zero (x ∷ xs) h = absurd (omega arith)
take-all (suc n) [] h = refl
take-all (suc n) (x ∷ xs) h = ap (λ r. x ∷ r) (take-all n xs (omega arith))

-- A conversion that keeps what a test reads, of the rows that pass it.
collect_rows-select :
    {A B : Type 0} (f : A → Res RepoError B) (test : A → Bool) (test' : B → Bool)
    → ((a : A) (b : B) → f a ≡ ok b → test' b ≡ test a)
    → (rows : List A) (bs : List B) → collect_rows f rows ≡ ok bs
    → collect_rows f (select test rows) ≡ ok (select test' bs)
collect_rows-select f test test' same [] bs h = rw (sym (ok_injective h)) refl
collect_rows-select f test test' same (a ∷ rows) bs h =
    let (b, e, h1) = >>=-eq-ok (f a) _ h in
    let (rest, e', h2) = >>=-eq-ok (collect_rows f rows) _ h1 in
    let later = collect_rows-select f test test' same rows rest e' in
    elim (Bool-cases (test a)) [
      | inl t ↦ rw (t, e, later, sym (ok_injective h2), same a b e, t) refl
      | inr t ↦ rw (t, later, sym (ok_injective h2), same a b e, t) refl
    ]

summary-seen : (r : BoardRow) (s : DuckSummary) → summary r ≡ ok s → s.last_seen_at ≡ r.last.seen_at
unfolding summary
summary-seen r s h =
    let (code, e, h1) = >>=-eq-ok (map_err (λ _. corrupt duck) (parse_duck r.duck.code)) _ h in
    ap (λ (x : DuckSummary). x.last_seen_at) (sym (ok_injective h1))

-- In the order that the model gives to rows that tie, the missing ducks are those of the list of the
-- ducks longest adrift, where it is given in full, whose last sighting lies before the cutoff.
missing_since-select :
    (cutoff : Timestamp) (n : ℕ) (db : Db) (ss : List DuckSummary)
    → longest_since_sighting (pos n) db ≡ ok ss
    → length (board db) ≤ n
    → missing_since cutoff db ≡ ok (select (λ s. ltb s.last_seen_at cutoff) ss)
unfolding longest_since_sighting missing_since missing_rows
missing_since-select cutoff n db ss h enough =
    let all =
      take-all n (sort longer_silent (board db))
        (rw (sort-length longer_silent (board db)) enough) in
    let h' = rw all at h in
    rw (sym (select-sort longer_silent longer_silent-IsOrder (silent_since cutoff) (board db))) (
      collect_rows-select summary (silent_since cutoff) (λ s. ltb s.last_seen_at cutoff)
        (λ r s e. rw (summary-seen r s e) refl) (sort longer_silent (board db)) ss h')

-- When the list of the ducks longest adrift is given in full, the list of the missing ducks is
-- given, and it has the ducks of that list whose last sighting lies before the cutoff, each as
-- often and with the same time of the last sighting.
pub missing_since-longest :
    (cutoff : Timestamp) (n : ℕ) (db : Db) (ss : List DuckSummary)
    → longest_since_sighting (pos n) db ≡ ok ss
    → length (board db) ≤ n
    → (ms : List DuckSummary) × (missing_since cutoff db ≡ ok ms)
      × ((test : DuckCode → Timestamp → Bool)
          → count (λ s. test s.code s.last_seen_at) ms
            ≡ count (λ s. ltb s.last_seen_at cutoff && test s.code s.last_seen_at) ss)
missing_since-longest cutoff n db ss h enough = (
  select (λ s. ltb s.last_seen_at cutoff) ss,
  missing_since-select cutoff n db ss h enough,
  λ test. Laws.count-select (λ s. ltb s.last_seen_at cutoff) (λ s. test s.code s.last_seen_at) ss,
)
