-- ===== src/Domain/Damm/Quasigroup.antt =====
-- The laws of the table of crates/domain/src/damm.rs, each checked over all of its entries.
use duck_voyage.Prelude.{
  ℕ, ◌<◌, ◌≡◌, refl, Bool, true, false, Option, some, none, ◌&&◌, arith, ltb, ltb→lt, ◌==◌,
  if◌then◌else◌, get_elem?, tabulate, get_elem?-tabulate, get_elem?-tabulate_grid,
}
use duck_voyage.Sweep.{
  all_below, all_below_sound, all_pairs, all_pairs_sound, all_triples, all_triples_sound,
}
use duck_voyage.Domain.Damm.{entry, build_table, cell, position_zero, zero_of}

-- A cell with both indices in range is the entry; the lookup does not panic.
pub cell-eq-entry : (i d : ℕ) → i < 36 → d < 36 → cell i d ≡ some (entry i d)
unfolding cell
cell-eq-entry i d hi hd = get_elem?-tabulate_grid 36 36 i d entry hi hd

closed_table : all_pairs 36 (λ x y. ltb (entry x y) 36) ≡ true
unfolding all_pairs entry
closed_table = refl

pub entry-lt : (x y : ℕ) → x < 36 → y < 36 → entry x y < 36
entry-lt x y hx hy =
    ltb→lt _ _ (all_pairs_sound 36 (λ a b. ltb (entry a b) 36) x y closed_table hx hy)

-- `a == b` only if `x == y`.
abbrev only_if : ℕ → ℕ → ℕ → ℕ → Bool
only_if a b x y = if a == b then x == y else true

only_if_sound : (a b x y : ℕ) → only_if a b x y ≡ true → a ≡ b → x ≡ y
only_if_sound a b x y h e = ground arith

row_table : all_triples 36 (λ c x y. only_if (entry c x) (entry c y) x y) ≡ true
unfolding all_triples entry
row_table = refl

column_table : all_triples 36 (λ c x y. only_if (entry x c) (entry y c) x y) ≡ true
unfolding all_triples entry
column_table = refl

transposition_table :
    all_triples 36 (λ c x y. only_if (entry (entry c x) y) (entry (entry c y) x) x y) ≡ true
unfolding all_triples entry
transposition_table = refl

module _ (c x y : ℕ) (hc : c < 36) (hx : x < 36) (hy : y < 36) where
  -- Every row is injective.
  pub entry_cancel_left : entry c x ≡ entry c y → x ≡ y
  entry_cancel_left =
      only_if_sound _ _ x y (
        all_triples_sound 36 (λ c x y. only_if (entry c x) (entry c y) x y) c x y row_table hc hx
          hy)

  -- Every column is injective.
  pub entry_cancel_right : entry x c ≡ entry y c → x ≡ y
  entry_cancel_right = only_if_sound _ _ x y (
      all_triples_sound 36 (λ c x y. only_if (entry x c) (entry y c) x y) c x y column_table hc hx
        hy)

  -- Total anti-symmetry, behind the detection of transpositions.
  pub entry_transposition : entry (entry c x) y ≡ entry (entry c y) x → x ≡ y
  entry_transposition = only_if_sound _ _ x y (
      all_triples_sound 36 (λ c x y. only_if (entry (entry c x) y) (entry (entry c y) x) x y) c x y
        transposition_table hc hx hy)

abbrev closes : ℕ → Option ℕ → Bool
closes i none = false
closes i (some c) = ltb c 36 && entry i c == 0

zero_table : all_below 36 (λ i. closes i (position_zero 0 (tabulate 36 (entry i)))) ≡ true
unfolding all_below entry position_zero
zero_table = refl

closes_sound :
    (i : ℕ) (o : Option ℕ) → closes i o ≡ true → (c : ℕ) × (o ≡ some c) × (c < 36) × (entry i c ≡ 0)
closes_sound i none h = cc
closes_sound i (some c) h = (c, refl, ground arith, ground arith)

row-eq : (i : ℕ) → i < 36 → get_elem? build_table i ≡ some (tabulate 36 (entry i))
unfolding build_table
row-eq i h = get_elem?-tabulate 36 i (λ x. tabulate 36 (entry x)) h

-- Every row holds a 0: the search for the check digit does not panic.
pub zero_of_total : (i : ℕ) → i < 36 → (c : ℕ) × (zero_of i ≡ some c) × (c < 36) × (entry i c ≡ 0)
unfolding zero_of
zero_of_total i h = rw (row-eq i h) (
    closes_sound i (position_zero 0 (tabulate 36 (entry i)))
      (all_below_sound 36 (λ i. closes i (position_zero 0 (tabulate 36 (entry i)))) i zero_table h))
