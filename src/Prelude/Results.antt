-- ===== src/Prelude/Results.antt =====
-- Outcomes of fallible code: a value, an error value, or a panic (`expect`, an index out of range).
use mathlib.Core.Path.{◌≡◌, refl}
use mathlib.Core.Bool.{Bool, true, false}
use mathlib.Core.Option.{Option, none, some}

pub data Res {ℓ κ} (E : Type ℓ) (A : Type κ) : Type (ℓ ⊔ κ) where
  ok : A → Res E A
  err : E → Res E A
  panic : Res E A

infixl 5 ◌>>=◌ ◌>>◌
abbrev pub ◌>>=◌ {ℓ κ μ} :
    {E : Type ℓ} {A : Type κ} {B : Type μ} → Res E A → (A → Res E B) → Res E B
ok a >>= f = f a
err e >>= f = err e
panic >>= f = panic

abbrev pub ◌>>◌ {ℓ κ} : {E : Type ℓ} {B : Type κ} → Res E (Unit {0}) → Res E B → Res E B
m >> k = m >>= λ _. k

-- `cond.then_some(()).ok_or(e)?`
abbrev pub guard {ℓ} : {E : Type ℓ} → Bool → E → Res E (Unit {0})
guard true e = ok tt
guard false e = err e

-- `.ok_or(e)?`
abbrev pub ok_or {ℓ κ} : {E : Type ℓ} {A : Type κ} → Option A → E → Res E A
ok_or (some a) e = ok a
ok_or none e = err e

-- `.expect(…)`: the missing value is a panic.
abbrev pub expect {ℓ κ} : {E : Type ℓ} {A : Type κ} → Option A → Res E A
expect (some a) = ok a
expect none = panic

-- `.ok()`, and the panics of `.expect(…)` on a result, where `none` stands for a panic.
abbrev pub to_option {ℓ κ} : {E : Type ℓ} {A : Type κ} → Res E A → Option A
to_option (ok a) = some a
to_option (err e) = none
to_option panic = none

abbrev pub map_err {ℓ κ μ} : {E : Type ℓ} {F : Type κ} {A : Type μ} → (E → F) → Res E A → Res F A
map_err f (ok a) = ok a
map_err f (err e) = err (f e)
map_err f panic = panic

-- `.transpose()?` of an optional fallible conversion.
abbrev pub traverse {ℓ κ μ} :
    {E : Type ℓ} {A : Type κ} {B : Type μ} → (A → Res E B) → Option A → Res E (Option B)
traverse f none = ok none
traverse f (some a) = f a >>= λ b. ok (some b)

pub >>=-eq-ok {ℓ κ μ} :
    {E : Type ℓ} {X : Type κ} {Y : Type μ} (first : Res E X) (next : X → Res E Y) {y : Y}
    → (first >>= next) ≡ ok y
    → (x : X) × (first ≡ ok x) × (next x ≡ ok y)
>>=-eq-ok panic next e = cc
>>=-eq-ok (err fault) next e = cc
>>=-eq-ok (ok x) next e = (x, refl, e)

-- What an outcome that is a value tells of the pieces.
module _ {ℓ κ} {E : Type ℓ} {A : Type κ} where
  pub ok_or-eq-ok : (o : Option A) (e : E) {a : A} → ok_or o e ≡ ok a → o ≡ some a
  ok_or-eq-ok none e h = cc
  ok_or-eq-ok (some a) e h = cc

  pub expect-eq-ok : (o : Option A) {a : A} → expect {E = E} o ≡ ok a → o ≡ some a
  expect-eq-ok none h = cc
  expect-eq-ok (some a) h = cc

  pub map_err-eq-ok {μ} :
      {F : Type μ} (f : E → F) (m : Res E A) {a : A} → map_err f m ≡ ok a → m ≡ ok a
  map_err-eq-ok f (ok a) h = cc
  map_err-eq-ok f (err e) h = cc
  map_err-eq-ok f panic h = cc

pub guard-eq-ok {ℓ} : {E : Type ℓ} (b : Bool) (e : E) {u : Unit} → guard b e ≡ ok u → b ≡ true
guard-eq-ok true e h = refl
guard-eq-ok false e h = cc

pub ok_injective {ℓ κ} :
    {E : Type ℓ} {A : Type κ} {a b : A} → ◌≡◌ {A = Res E A} (ok a) (ok b) → a ≡ b
ok_injective {E} {A} {a} h = mathlib.Core.Path.ap (value a) h
  where
    value : A → Res E A → A
    value d (ok x) = x
    value d (err e) = d
    value d panic = d
