-- ===== src/Domain/Damm.antt =====
-- crates/domain/src/damm.rs: the check character over the frozen order-36 table. The laws of the
-- table are in Quasigroup, and what the checksum detects is in Detect.
pub mod Quasigroup
pub mod Detect
use duck_voyage.Prelude.{
  ℕ, zero, suc, ◌+◌, ◌*◌, ◌/◌, ◌%◌, ◌^◌, Bool, Option, none, some, List, [], ◌∷◌, get_elem?,
  tabulate, ◌==◌, if◌then◌else◌, and_then, map_option,
}

abbrev pub order : ℕ
order = 36

-- `Damm36::sigma`: the linear orthomorphism of Z6 × Z6 on the encoding d = 6 x + y.
pub sigma : ℕ → ℕ
sigma d =
    let x = d / 6 in
    let y = d % 6 in
    let a1 = y % 2 in
    let a2 = (x + y) % 2 in
    let b1 = 2 * (x % 3) % 3 in
    let b2 = 2 * (y % 3) % 3 in
    let nx = (3 * a1 + 4 * b1) % 6 in let ny = (3 * a2 + 4 * b2) % 6 in 6 * nx + ny

-- What `build_table` writes at t[x][y]; `as u8` keeps the low eight bits.
pub entry : ℕ → ℕ → ℕ
unfolding sigma
entry x y = let s = sigma x in (6 * ((s / 6 + y / 6) % 6) + (s % 6 + y % 6) % 6) % 2 ^ 8

-- `Damm36::build_table`, the two counted loops as tabulations.
pub build_table : List (List ℕ)
unfolding entry
build_table = tabulate order (λ x. tabulate order (entry x))

-- `TABLE[i][d]`; `none` is the panic on an index out of range.
pub cell : ℕ → ℕ → Option ℕ
unfolding build_table
cell i d = and_then (get_elem? build_table i) (λ row. get_elem? row d)

-- `Damm36::interim` from the value `i`; the fold stops at a panic.
pub interim_from : ℕ → List ℕ → Option ℕ
unfolding cell
interim_from i [] = some i
interim_from i (d ∷ ds) = elim (cell i d) [ none ↦ none | some j ↦ interim_from j ds ]

pub interim : List ℕ → Option ℕ
unfolding interim_from
interim digits = interim_from 0 digits

-- `row.iter().position(|&v| v == 0)`, counted from `at`.
pub position_zero : ℕ → List ℕ → Option ℕ
position_zero at [] = none
position_zero at (v ∷ vs) = let rest = position_zero (suc at) vs in if v == 0 then some at else rest

-- The digit at which row `i` holds 0, as `check_digit` searches it.
pub zero_of : ℕ → Option ℕ
unfolding position_zero build_table
zero_of i = and_then (get_elem? build_table i) (position_zero 0)

-- `Damm36::check_digit`; `none` is a panic.
unfoldable pub check_digit : List ℕ → Option ℕ
unfolding interim zero_of
check_digit digits = and_then (interim digits) zero_of

-- `Damm36::validate`; `none` is a panic.
unfoldable pub validate : List ℕ → Option Bool
unfolding interim
validate digits = map_option (λ i. i == 0) (interim digits)
