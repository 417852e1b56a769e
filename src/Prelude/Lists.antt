-- ===== src/Prelude/Lists.antt =====
-- Lists measured and indexed by native numbers, under the library's names.
use Prim.Native.Nat.{ℕ, zero, suc, ◌+◌, ◌<◌}
use mathlib.Core.Path.{◌≡◌, refl, ap}
use mathlib.Core.Bool.{Bool, true, false}
use mathlib.Core.List.{List, [], ◌∷◌, ◌++◌, map}
use mathlib.Core.Option.{Option, none, some}
use duck_voyage.Prelude.Tests.{and_then, if◌then◌else◌}
use native.Mathlib.Omega.{arith}

module _ {ℓ} {A : Type ℓ} where
  abbrev pub length : List A → ℕ
  length [] = 0
  length (x ∷ xs) = suc (length xs)

  abbrev pub get_elem? : List A → ℕ → Option A
  get_elem? [] i = none
  get_elem? (x ∷ xs) zero = some x
  get_elem? (x ∷ xs) (suc i) = get_elem? xs i

  abbrev pub take : ℕ → List A → List A
  take zero xs = []
  take (suc n) [] = []
  take (suc n) (x ∷ xs) = x ∷ take n xs

  abbrev pub drop : ℕ → List A → List A
  drop zero xs = xs
  drop (suc n) [] = []
  drop (suc n) (x ∷ xs) = drop n xs

  -- `f start, f (start + 1), …`, n of them: `std::array::from_fn` and the loops that fill an array.
  abbrev pub tabulate_from : ℕ → ℕ → (ℕ → A) → List A
  tabulate_from zero start f = []
  tabulate_from (suc n) start f = f start ∷ tabulate_from n (suc start) f

  abbrev pub tabulate : ℕ → (ℕ → A) → List A
  tabulate n f = tabulate_from n 0 f

  pub length-append : (xs ys : List A) → length (xs ++ ys) ≡ length xs + length ys
  length-append [] ys = omega arith
  length-append (x ∷ xs) ys = omega (arith, length-append xs ys)

module _ {ℓ} {A : Type ℓ} where
  pub get_elem?-tabulate_from :
      (n start i : ℕ) (f : ℕ → A)
      → i < n
      → get_elem? (tabulate_from n start f) i ≡ some (f (start + i))
  get_elem?-tabulate_from zero start i f h = elim h [ ]
  get_elem?-tabulate_from (suc n) start zero f h =
      ap (λ k. some (f k)) (let e : start ≡ start + 0 = omega arith in e)
  get_elem?-tabulate_from (suc n) start (suc i) f h =
      let e : suc start + i ≡ start + suc i = omega arith in
      let ih = get_elem?-tabulate_from n (suc start) i f (omega arith) in
      mathlib.Core.Path.subst (λ k. get_elem? (tabulate_from n (suc start) f) i ≡ some (f k)) e ih

  pub get_elem?-tabulate : (n i : ℕ) (f : ℕ → A) → i < n → get_elem? (tabulate n f) i ≡ some (f i)
  get_elem?-tabulate n i f h =
      let e : 0 + i ≡ i = omega arith in
      mathlib.Core.Path.subst (λ k. get_elem? (tabulate n f) i ≡ some (f k)) e
        (get_elem?-tabulate_from n 0 i f h)

module _ {ℓ} {A : Type ℓ} where
  -- A cell of a table filled by two nested counted loops.
  pub get_elem?-tabulate_grid :
      (n m i j : ℕ) (f : ℕ → ℕ → A)
      → i < n
      → j < m
      → and_then (get_elem? (tabulate n (λ x. tabulate m (f x))) i) (λ row. get_elem? row j)
        ≡ some (f i j)
  get_elem?-tabulate_grid n m i j f hi hj =
      rw (get_elem?-tabulate n i (λ x. tabulate m (f x)) hi) (get_elem?-tabulate m j (f i) hj)

module _ {ℓ κ} {A : Type ℓ} (P : A → Type κ) where
  -- A predicate by recursion computes to tuples, which the tactics read and build.
  abbrev pub All : List A → Type κ
  All [] = Unit
  All (x ∷ xs) = P x × All xs

  pub All-append : (xs ys : List A) → All xs → All ys → All (xs ++ ys)
  All-append [] ys _ hy = hy
  All-append (x ∷ xs) ys (px, hx) hy = (px, All-append xs ys hx hy)

  pub All-if : (b : Bool) (xs : List A) → All xs → All (if b then xs else [])
  All-if true xs h = h
  All-if false xs h = tt

  pub All-each {μ} : {B : Type μ} (f : B → A) (xs : List B) → ((b : B) → P (f b)) → All (map f xs)
  All-each f [] h = tt
  All-each f (x ∷ xs) h = (h x, All-each f xs h)

  pub All-append_left : (xs ys : List A) → All (xs ++ ys) → All xs
  All-append_left [] ys h = tt
  All-append_left (x ∷ xs) ys (px, h) = (px, All-append_left xs ys h)

  pub All-append_right : (xs ys : List A) → All (xs ++ ys) → All ys
  All-append_right [] ys h = h
  All-append_right (x ∷ xs) ys (px, h) = All-append_right xs ys h
