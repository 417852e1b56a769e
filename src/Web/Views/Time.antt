-- ===== src/Web/Views/Time.antt =====
-- How `When::ago` of crates/web/src/views.rs rounds.
use duck_voyage.Prelude.{ℕ, suc, ◌-◌, ◌*◌, ◌<◌, ◌≤◌, arith, ltb, Bool-cases, inl, inr}
use duck_voyage.Domain.Entities.{Timestamp}
use duck_voyage.Web.Views.{
  Span, hour, day, month, year, seconds_of, Ago, just_now, units, ago_of, ago,
}

-- The least number of a unit that is ever said.
abbrev pub least : Span → ℕ
least hour = 1
least day = 1
least month = 2
least year = 2

-- What is said of a time that passed.
abbrev pub Says : ℕ → Ago → Type 0
Says passed just_now = passed < 3600
Says passed (units n span) =
    (least span ≤ n) × (n * seconds_of span ≤ passed) × (passed < suc n * seconds_of span)

-- The time said to have passed is "just now" below an hour, and else a number of hours, days,
-- months of 30 days or years of 365 that is the time rounded down, at least 1, and for months and
-- years at least 2.
pub ago-Says : (now ts : Timestamp) → Says (now - ts) (ago now ts)
unfolding ago ago_of
ago-Says now ts = says (now - ts)
  where
    says : (s : ℕ) → Says s (ago_of s)
    says s = elim (Bool-cases (ltb s 3600)) [
      | inl a ↦ rw a (ground arith)
      | inr a ↦ elim (Bool-cases (ltb s 86400)) [
        | inl b ↦ rw (a, b) (ground arith, omega arith, omega arith)
        | inr b ↦ elim (Bool-cases (ltb s (86400 * 60))) [
          | inl c ↦ rw (a, b, c) (ground arith, omega arith, omega arith)
          | inr c ↦ elim (Bool-cases (ltb s (86400 * 365 * 2))) [
            | inl d ↦ rw (a, b, c, d) (ground arith, omega arith, omega arith)
            | inr d ↦ rw (a, b, c, d) (ground arith, omega arith, omega arith)
          ]
        ]
      ]
    ]
