-- ===== src/Prelude/Tables/Laws.antt =====
-- What the statements of SQL do to a property of every row, and to the existence of a row.
use duck_voyage.Prelude.Tests.{Bool-cases, if◌then◌else◌}
use duck_voyage.Prelude.Lists.{All}
use duck_voyage.Prelude.Tables.{find, select, delete, update, exists, count}
use Prim.Native.Nat.{◌+◌}
use mathlib.Core.Path.{◌≡◌, refl, ap, subst}
use mathlib.Core.Logic.{inl, inr}
use mathlib.Core.Bool.{Bool, true, false, ◌&&◌, ◌||◌}
use mathlib.Core.Option.{none, some}
use mathlib.Core.List.{List, [], ◌∷◌, ◌++◌, map}
use native.Mathlib.Omega.{arith}

pub some_injective {ℓ} : {A : Type ℓ} {a b : A} → some a ≡ some b → a ≡ b
some_injective h = cc

module _ {ℓ} {A : Type ℓ} (test : A → Bool) where
  pub exists-append : (xs ys : List A) → exists test (xs ++ ys) ≡ (exists test xs || exists test ys)
  exists-append [] ys = refl
  exists-append (x ∷ xs) ys = ground (arith, exists-append xs ys)

  pub exists-append_left : (xs ys : List A) → exists test xs ≡ true → exists test (xs ++ ys) ≡ true
  exists-append_left xs ys h = rw (exists-append xs ys, h)

  pub exists-append_none :
      (xs : List A) (y : A)
      → exists test xs ≡ false
      → test y ≡ false
      → exists test (xs ++ y ∷ []) ≡ false
  exists-append_none xs y h e = rw (exists-append xs (y ∷ []), h, e)

  pub exists-delete_self : (rs : List A) → exists test (delete test rs) ≡ false
  exists-delete_self [] = refl
  exists-delete_self (r ∷ rs) = ground (arith, exists-delete_self rs)

  pub find-none : (rs : List A) → exists test rs ≡ false → find test rs ≡ none
  find-none [] h = refl
  find-none (r ∷ rs) h = ground (arith, find-none rs)

  pub find_sound : (rs : List A) (r : A) → find test rs ≡ some r → test r ≡ true
  find_sound [] r h = cc
  find_sound (x ∷ rs) r h = ground (arith, find_sound rs r)

  -- A row that does not exist is not deleted.
  pub delete-idle : (rs : List A) → exists test rs ≡ false → delete test rs ≡ rs
  delete-idle [] h = refl
  delete-idle (r ∷ rs) h = ground (arith, delete-idle rs)

  -- A row that is found passes the test and has what every row has.
  pub find-All {κ} : (P : A → Type κ) (rs : List A) (r : A) → All P rs → find test rs ≡ some r → P r
  find-All P [] r h e = cc
  find-All P (x ∷ rs) r (here, h) e = elim (Bool-cases (test x)) [
    | inl t ↦ let same : some x ≡ some r = rw t at e in subst P (some_injective same) here
    | inr t ↦ let later : find test rs ≡ some r = rw t at e in find-All P rs r h later
  ]

  -- What a DELETE leaves, where the rows that stay have Q for having P.
  pub All-delete {κ μ} :
      {P : A → Type κ} {Q : A → Type μ} (rs : List A)
      → ((r : A) → P r → test r ≡ false → Q r)
      → All P rs
      → All Q (delete test rs)
  All-delete [] f h = tt
  All-delete {P} {Q} (r ∷ rs) f (here, h) = elim (Bool-cases (test r)) [
    | inl t ↦ rw t (All-delete rs f h)
    | inr t ↦ rw t (f r here t, All-delete rs f h)
  ]

  pub All-update {κ μ} :
      {P : A → Type κ} {Q : A → Type μ} (g : A → A) (rs : List A)
      → ((r : A) → P r → Q r)
      → ((r : A) → P r → test r ≡ true → Q (g r))
      → All P rs
      → All Q (update test g rs)
  All-update g [] keep new h = tt
  All-update {P} {Q} g (r ∷ rs) keep new (here, h) = elim (Bool-cases (test r)) [
    | inl t ↦ rw t (new r here t, All-update g rs keep new h)
    | inr t ↦ rw t (keep r here, All-update g rs keep new h)
  ]

  -- An UPDATE that leaves the columns a test reads alone.
  pub exists-update :
      (p : A → Bool) (g : A → A) (rs : List A)
      → ((r : A) → p (g r) ≡ p r)
      → exists p (update test g rs) ≡ exists p rs
  exists-update p g [] same = refl
  exists-update p g (r ∷ rs) same = elim (Bool-cases (test r)) [
    | inl t ↦ rw (t, same r, exists-update p g rs same)
    | inr t ↦ rw (t, exists-update p g rs same)
  ]

  -- A row that exists is still there after a DELETE whose test no such row passes.
  pub exists-delete_kept :
      (p : A → Bool) (rs : List A)
      → exists (λ r. p r && test r) rs ≡ false
      → exists p rs ≡ true
      → exists p (delete test rs) ≡ true
  exists-delete_kept p [] none_both h = h
  exists-delete_kept p (r ∷ rs) none_both h = ground (arith, exists-delete_kept p rs)

  pub exists-delete_none :
      (p : A → Bool) (rs : List A) → exists p rs ≡ false → exists p (delete test rs) ≡ false
  exists-delete_none p [] h = refl
  exists-delete_none p (r ∷ rs) h = ground (arith, exists-delete_none p rs)

  pub exists-never : (rs : List A) → ((r : A) → test r ≡ false) → exists test rs ≡ false
  exists-never [] f = refl
  exists-never (r ∷ rs) f = rw (f r) (exists-never rs f)

  pub exists-none {κ} :
      {P : A → Type κ} (rs : List A)
      → ((r : A) → P r → test r ≡ false)
      → All P rs
      → exists test rs ≡ false
  exists-none [] f h = refl
  exists-none (r ∷ rs) f (here, h) = rw (f r here) (exists-none rs f h)

module _ {ℓ κ μ} {A : Type ℓ} {P : A → Type κ} {Q : A → Type μ} where
  pub All-map : (rs : List A) → ((r : A) → P r → Q r) → All P rs → All Q rs
  All-map [] f h = tt
  All-map (r ∷ rs) f (here, h) = (f r here, All-map rs f h)

  pub All-snoc :
      (rs : List A) (r : A) → ((x : A) → P x → Q x) → All P rs → Q r → All Q (rs ++ r ∷ [])
  All-snoc [] r f h q = (q, tt)
  All-snoc (x ∷ rs) r f (here, h) q = (f x here, All-snoc rs r f h q)

module _ {ℓ} {A : Type ℓ} (test : A → Bool) where
  pub find-some : (rs : List A) → exists test rs ≡ true → (r : A) × (find test rs ≡ some r)
  find-some [] h = cc
  find-some (r ∷ rs) h = elim (Bool-cases (test r)) [
    | inl e ↦ rw e (r, refl)
    | inr e ↦ let later : exists test rs ≡ true = rw e at h in rw e (find-some rs later)
  ]

  pub All-none : (rs : List A) → exists test rs ≡ false → All (λ r. test r ≡ false) rs
  All-none [] h = tt
  All-none (r ∷ rs) h = (ground arith, All-none rs (ground arith))

  pub All-select {κ μ} :
      {P : A → Type κ} {Q : A → Type μ} (rs : List A)
      → ((r : A) → P r → test r ≡ true → Q r)
      → All P rs
      → All Q (select test rs)
  All-select [] f h = tt
  All-select {P} {Q} (r ∷ rs) f (here, h) = elim (Bool-cases (test r)) [
    | inl t ↦ rw t (f r here t, All-select rs f h)
    | inr t ↦ rw t (All-select rs f h)
  ]

pub exists-weaken {ℓ} :
    {A : Type ℓ} (p q : A → Bool) (rs : List A)
    → ((r : A) → p r ≡ true → q r ≡ true)
    → exists p rs ≡ true
    → exists q rs ≡ true
exists-weaken p q [] f h = h
exists-weaken p q (r ∷ rs) f h = elim (Bool-cases (p r)) [
  | inl e ↦ rw (f r e) refl
  | inr e ↦ let later = rw e at h in or_true (q r) (exists-weaken p q rs f later)
]
  where
    or_true : (b : Bool) {c : Bool} → c ≡ true → (b || c) ≡ true
    or_true b h = ground arith

pub count-append {ℓ} :
    {A : Type ℓ} (test : A → Bool) (xs ys : List A)
    → count test (xs ++ ys) ≡ count test xs + count test ys
count-append test [] ys = ground arith
count-append test (x ∷ xs) ys = ground (arith, count-append test xs ys)

pub count-map {ℓ κ} :
    {A : Type ℓ} {B : Type κ} (test : B → Bool) (f : A → B) (rows : List A)
    → count test (map f rows) ≡ count (λ r. test (f r)) rows
count-map test f [] = refl
count-map test f (r ∷ rows) = ap (λ n. (if test (f r) then 1 else 0) + n) (count-map test f rows)

pub count-select {ℓ} :
    {A : Type ℓ} (p q : A → Bool) (rows : List A)
    → count q (select p rows) ≡ count (λ r. p r && q r) rows
count-select p q [] = refl
count-select p q (r ∷ rows) = ground (arith, count-select p q rows)

pub find-exists {ℓ} :
    {A : Type ℓ} (test : A → Bool) (rows : List A) (r : A)
    → find test rows ≡ some r
    → exists test rows ≡ true
find-exists test rows r h = elim (Bool-cases (exists test rows)) [
  | inl e ↦ e
  | inr e ↦ let never = find-none test rows e in absurd cc
]

-- A row that is found exists, whatever other test it is known to pass.
pub found-exists {ℓ} :
    {A : Type ℓ} (p q : A → Bool) (rows : List A) (a : A)
    → find p rows ≡ some a
    → q a ≡ true
    → exists q rows ≡ true
found-exists p q [] a e h = cc
found-exists p q (r ∷ rows) a e h = elim (Bool-cases (p r)) [
  | inl t ↦
      let same : some r ≡ some a = rw t at e in
      rw (subst (λ x. q x ≡ true) (mathlib.Core.Path.sym (some_injective same)) h) refl
  | inr t ↦
      let later : find p rows ≡ some a = rw t at e in
      or_right (q r) (found-exists p q rows a later h)
]
  where
    or_right : (b : Bool) {c : Bool} → c ≡ true → (b || c) ≡ true
    or_right b h = ground arith
