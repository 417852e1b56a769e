-- ===== src/Domain/Damm/Detect.antt =====
-- What the check character of crates/domain/src/damm.rs detects, for digit sequences of any length.
use duck_voyage.Prelude.{
  ℕ, ◌<◌, ◌≡◌, ◌≢◌, refl, sym, Bool, true, false, some, List, [], ◌∷◌, ◌++◌, arith, ◌==◌, ==→eq,
  All, All-append, All-append_left, All-append_right, ◌∙◌, ap,
}
use duck_voyage.Domain.Damm.{entry, interim_from, interim, check_digit, validate}
use duck_voyage.Domain.Damm.Quasigroup.{
  cell-eq-entry, entry-lt, entry_cancel_left, entry_cancel_right, entry_transposition,
  zero_of_total,
}

abbrev pub IsDigit : ℕ → Type 0
IsDigit d = d < 36

-- The fold of the table over digits, where no lookup can panic.
fold : ℕ → List ℕ → ℕ
fold i [] = i
fold i (d ∷ ds) = fold (entry i d) ds

fold-append : (i : ℕ) (xs ys : List ℕ) → fold i (xs ++ ys) ≡ fold (fold i xs) ys
unfolding fold
fold-append i [] ys = refl
fold-append i (x ∷ xs) ys = fold-append (entry i x) xs ys

fold-lt : (i : ℕ) (ds : List ℕ) → i < 36 → All IsDigit ds → fold i ds < 36
unfolding fold
fold-lt i [] hi h = hi
fold-lt i (d ∷ ds) hi (hd, h) = fold-lt (entry i d) ds (entry-lt i d hi hd) h

interim_from-eq-fold :
    (i : ℕ) (ds : List ℕ) → i < 36 → All IsDigit ds → interim_from i ds ≡ some (fold i ds)
unfolding interim_from fold
interim_from-eq-fold i [] hi h = refl
interim_from-eq-fold i (d ∷ ds) hi (hd, h) =
    rw (cell-eq-entry i d hi hd) (interim_from-eq-fold (entry i d) ds (entry-lt i d hi hd) h)

validate-eq-fold : (ds : List ℕ) → All IsDigit ds → validate ds ≡ some (fold 0 ds == 0)
unfolding validate interim
validate-eq-fold ds h = rw (interim_from-eq-fold 0 ds (omega arith) h)

-- On digits the check does not panic.
pub validate_total : (ds : List ℕ) → All IsDigit ds → (b : Bool) × (validate ds ≡ some b)
validate_total ds h = (fold 0 ds == 0, validate-eq-fold ds h)

-- Two values that the same digits take to one value are one.
fold_injective :
    (i j : ℕ) (ds : List ℕ) → i < 36 → j < 36 → All IsDigit ds → fold i ds ≡ fold j ds → i ≡ j
unfolding fold
fold_injective i j [] hi hj h e = e
fold_injective i j (d ∷ ds) hi hj (hd, h) e =
    entry_cancel_right d i j hd hi hj
      (fold_injective (entry i d) (entry j d) ds (entry-lt i d hi hd) (entry-lt j d hj hd) h e)

accepted : (ds : List ℕ) → All IsDigit ds → validate ds ≡ some true → fold 0 ds ≡ 0
accepted ds h e = ==→eq _ _ (ground (arith, validate-eq-fold ds h))

refused : (ds : List ℕ) → All IsDigit ds → fold 0 ds ≢ 0 → validate ds ≡ some false
refused ds h ne = ground (arith, validate-eq-fold ds h)

fold_last : (p : List ℕ) (d : ℕ) → fold 0 (p ++ d ∷ []) ≡ entry (fold 0 p) d
unfolding fold
fold_last p d = fold-append 0 p (d ∷ [])

-- The check digit of any digits exists, with no panic, is a digit, and makes the sequence one that
-- the check accepts.
pub validate-check_digit :
    (payload : List ℕ)
    → All IsDigit payload
    → (c : ℕ) × (check_digit payload ≡ some c)
      × (c < 36)
      × (validate (payload ++ c ∷ []) ≡ some true)
unfolding check_digit interim
validate-check_digit payload h =
    let i = fold 0 payload in
    let (c, found, small, zero_entry) = zero_of_total i (fold-lt 0 payload (omega arith) h) in
    (
      c,
      rw (interim_from-eq-fold 0 payload (omega arith) h) found,
      small,
      rw (
        validate-eq-fold (payload ++ c ∷ []) (All-append IsDigit payload (c ∷ []) h (small, tt)),
        fold_last payload c,
        zero_entry,
      ),
    )

-- A digit that makes a sequence one that the check accepts is the check digit of the digits before
-- it.
pub check_digit_unique :
    (payload : List ℕ) (c : ℕ)
    → All IsDigit payload
    → c < 36
    → validate (payload ++ c ∷ []) ≡ some true
    → check_digit payload ≡ some c
check_digit_unique payload c h hc e =
    let (k, found, hk, closes) = validate-check_digit payload h in
    found
    ∙ ap some (
        entry_cancel_left (fold 0 payload) k c (fold-lt 0 payload (omega arith) h) hk hc
          (last k hk closes ∙ sym (last c hc e)))
  where
    last :
        (d : ℕ) → d < 36 → validate (payload ++ d ∷ []) ≡ some true → entry (fold 0 payload) d ≡ 0
    last d hd v =
        sym (fold_last payload d)
        ∙ accepted (payload ++ d ∷ []) (All-append IsDigit payload (d ∷ []) h (hd, tt)) v

-- In a sequence of digits of any length that the check accepts, every replacement of one digit by
-- another is refused.
pub validate_substitution :
    (pre : List ℕ) (x y : ℕ) (post : List ℕ)
    → All IsDigit (pre ++ x ∷ post)
    → y < 36
    → x ≢ y
    → validate (pre ++ x ∷ post) ≡ some true
    → validate (pre ++ y ∷ post) ≡ some false
unfolding fold
validate_substitution pre x y post h hy ne e =
    let hpre = All-append_left IsDigit pre (x ∷ post) h in
    let (hx, hpost) = All-append_right IsDigit pre (x ∷ post) h in
    let p = fold 0 pre in
    let hp = fold-lt 0 pre (omega arith) hpre in
    refused (pre ++ y ∷ post) (All-append IsDigit pre (y ∷ post) hpre (hy, hpost)) (λ z. ne (
      entry_cancel_left p x y hp hx hy (
        fold_injective (entry p x) (entry p y) post (entry-lt p x hp hx) (entry-lt p y hp hy) hpost
          (sym (fold-append 0 pre (x ∷ post))
            ∙ accepted (pre ++ x ∷ post) h e
            ∙ sym z
            ∙ fold-append 0 pre (y ∷ post)))))

-- In a sequence of digits of any length that the check accepts, every exchange of two adjacent
-- unequal digits is refused.
pub validate_transposition :
    (pre : List ℕ) (x y : ℕ) (post : List ℕ)
    → All IsDigit (pre ++ x ∷ y ∷ post)
    → x ≢ y
    → validate (pre ++ x ∷ y ∷ post) ≡ some true
    → validate (pre ++ y ∷ x ∷ post) ≡ some false
unfolding fold
validate_transposition pre x y post h ne e =
    let hpre = All-append_left IsDigit pre (x ∷ y ∷ post) h in
    let (hx, tail) = All-append_right IsDigit pre (x ∷ y ∷ post) h in
    let (hy, hpost) = tail in
    let p = fold 0 pre in
    let hp = fold-lt 0 pre (omega arith) hpre in
    refused (pre ++ y ∷ x ∷ post) (All-append IsDigit pre (y ∷ x ∷ post) hpre (hy, (hx, hpost)))
      (λ z. ne (
        entry_transposition p x y hp hx hy (
          fold_injective (entry (entry p x) y) (entry (entry p y) x) post
            (entry-lt (entry p x) y (entry-lt p x hp hx) hy)
            (entry-lt (entry p y) x (entry-lt p y hp hy) hx) hpost
            (sym (fold-append 0 pre (x ∷ y ∷ post))
              ∙ accepted (pre ++ x ∷ y ∷ post) h e
              ∙ sym z
              ∙ fold-append 0 pre (y ∷ x ∷ post)))))
