-- ===== src/Prelude/Exec.antt =====
-- Code that reads and changes a state and may fail. What was written before a failure stays
-- written, so the state comes back beside every outcome.
use duck_voyage.Prelude.Results.{Res, ok, err, panic}

abbrev pub Exec {ℓ κ μ} : Type ℓ → Type κ → Type μ → Type (ℓ ⊔ κ ⊔ μ)
Exec S E A = S → Res E A × S

module _ {ℓ κ μ} {S : Type ℓ} {E : Type κ} {A : Type μ} where
  abbrev pub pure : A → Exec S E A
  pure a s = (ok a, s)

  abbrev pub raise : E → Exec S E A
  raise e s = (err e, s)

  -- A pure step, and one that reads the state.
  abbrev pub lift : Res E A → Exec S E A
  lift r s = (r, s)

  abbrev pub query : (S → Res E A) → Exec S E A
  query f s = (f s, s)

module _ {ℓ κ μ ν} {S : Type ℓ} {E : Type κ} {A : Type μ} {B : Type ν} where
  abbrev pub continue : Res E A → (A → Exec S E B) → Exec S E B
  continue (ok a) f s = f a s
  continue (err e) f s = (err e, s)
  continue panic f s = (panic, s)

  infixl 5 ◌>>=◌ ◌>>◌
  abbrev pub ◌>>=◌ : Exec S E A → (A → Exec S E B) → Exec S E B
  ◌>>=◌ m f s = let (r, s') = m s in continue r f s'

  abbrev pub ◌>>◌ : Exec S E A → Exec S E B → Exec S E B
  m >> k = m >>= λ _. k

-- `.map_err(f)?` and the conversions of `?`.
abbrev pub map_error {ℓ κ μ ν} :
    {S : Type ℓ} {E : Type κ} {F : Type μ} {A : Type ν} → (E → F) → Exec S E A → Exec S F A
map_error f m s = let (r, s') = m s in (duck_voyage.Prelude.Results.map_err f r, s')
