-- ===== src/Prelude/Tables.antt =====
-- Tables as lists of rows, with what the statements of SQL do to them.
pub mod Laws
use Prim.Native.Nat.{ℕ, ◌+◌}
use mathlib.Core.Bool.{Bool, false, ◌&&◌, ◌||◌}
use mathlib.Core.Option.{Option, none, some}
use mathlib.Core.List.{List, [], ◌∷◌}
use duck_voyage.Prelude.Tests.{if◌then◌else◌, ltb}

module _ {ℓ} {A : Type ℓ} where
  -- SELECT … WHERE test, one row and all rows.
  abbrev pub find : (A → Bool) → List A → Option A
  find test [] = none
  find test (r ∷ rs) = if test r then some r else find test rs

  abbrev pub select : (A → Bool) → List A → List A
  select test [] = []
  select test (r ∷ rs) = let rest = select test rs in if test r then r ∷ rest else rest

  -- DELETE … WHERE test
  abbrev pub delete : (A → Bool) → List A → List A
  delete test [] = []
  delete test (r ∷ rs) = let rest = delete test rs in if test r then rest else r ∷ rest

  -- UPDATE … SET f WHERE test
  abbrev pub update : (A → Bool) → (A → A) → List A → List A
  update test f [] = []
  update test f (r ∷ rs) = (if test r then f r else r) ∷ update test f rs

  -- EXISTS and COUNT
  abbrev pub exists : (A → Bool) → List A → Bool
  exists test [] = false
  exists test (r ∷ rs) = test r || exists test rs

  abbrev pub count : (A → Bool) → List A → ℕ
  count test [] = 0
  count test (r ∷ rs) = (if test r then 1 else 0) + count test rs

  -- COALESCE(MAX(column), 0) WHERE test
  abbrev pub max_of : (A → Bool) → (A → ℕ) → List A → ℕ
  max_of test column [] = 0
  max_of test column (r ∷ rs) =
      let rest = max_of test column rs in if test r && ltb rest (column r) then column r else rest
