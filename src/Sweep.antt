-- ===== src/Sweep.antt =====
-- Checks over every value of a small range, by evaluation.
use duck_voyage.Prelude.{ℕ, zero, suc, ◌<◌, ◌≡◌, Bool, true, false, arith}

unfoldable pub all_below : ℕ → (ℕ → Bool) → Bool
all_below zero p = true
all_below (suc n) p = elim (p n) [ true ↦ all_below n p | false ↦ false ]

pub all_below_sound : (n : ℕ) (p : ℕ → Bool) (x : ℕ) → all_below n p ≡ true → x < n → p x ≡ true
unfolding all_below
all_below_sound zero p x h lt = elim lt [ ]
all_below_sound (suc n) p x h lt = ground (arith, all_below_sound n p x)

-- The same over all pairs and all triples below a bound.
unfoldable pub all_pairs : ℕ → (ℕ → ℕ → Bool) → Bool
unfolding all_below
all_pairs n p = all_below n (λ x. all_below n (p x))

pub all_pairs_sound :
    (n : ℕ) (p : ℕ → ℕ → Bool) (x y : ℕ) → all_pairs n p ≡ true → x < n → y < n → p x y ≡ true
unfolding all_pairs
all_pairs_sound n p x y h hx hy =
    all_below_sound n (p x) y (all_below_sound n (λ k. all_below n (p k)) x h hx) hy

unfoldable pub all_triples : ℕ → (ℕ → ℕ → ℕ → Bool) → Bool
unfolding all_pairs
all_triples n p = all_below n (λ c. all_pairs n (p c))

pub all_triples_sound :
    (n : ℕ) (p : ℕ → ℕ → ℕ → Bool) (c x y : ℕ)
    → all_triples n p ≡ true
    → c < n
    → x < n
    → y < n
    → p c x y ≡ true
unfolding all_triples
all_triples_sound n p c x y h hc hx hy =
    all_pairs_sound n (p c) x y (all_below_sound n (λ k. all_pairs n (p k)) c h hc) hx hy
