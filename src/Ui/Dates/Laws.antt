-- ===== src/Ui/Dates/Laws.antt =====
-- What the dates of ui/src/integration/mrz.ts promise.
use midnight_referendum_app.Base.{
  ℕ, ◌+◌, ◌≡◌, not, ◌&&◌, ◌||◌, ltb, ◌==◌, arith, Bool-cases, inl, inr,
}
use midnight_referendum_app.Base.Integers.{is_at_least, is_at_least-difference, is_at_least-pred}
use midnight_referendum_app.Ui.Dates.{Date, is_before, is_earlier_in_year, years_between}

-- The start of the day, `n` years later, with the same month and day.
abbrev pub anniversary : Date → ℕ → Date
anniversary d n = record d { year = d.year + n; millis = 0 }

is_before-anniversary :
    (from to : Date) (n : ℕ)
    → is_before to (anniversary from n)
      ≡ (ltb to.year (from.year + n) || (to.year == from.year + n && is_earlier_in_year to from))
unfolding is_before
is_before-anniversary from to n = ground arith

-- At least `n` years have passed exactly where the anniversary after `n` years is not ahead.
pub years_between_lem :
    (from to : Date) (n : ℕ)
    → is_at_least (years_between from to) n ≡ not (is_before to (anniversary from n))
unfolding years_between
years_between_lem from to n = elim (Bool-cases (is_earlier_in_year to from)) [
  | inl h ↦ ground (arith, h, is_before-anniversary from to n, is_at_least-pred to.year from.year n)
  | inr h ↦
      ground (arith, h, is_before-anniversary from to n, is_at_least-difference to.year from.year n)
]
