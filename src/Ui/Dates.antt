-- ===== src/Ui/Dates.antt =====
-- The dates of ui/src/integration/mrz.ts: expandMrzDate, yearsBetween and parseIsoDate.
pub mod Laws
pub mod Expand
use midnight_referendum_app.Base.{
  ℕ, ◌+◌, ◌-◌, ◌*◌, ◌/◌, ◌%◌, Bool, true, false, not, ◌&&◌, ◌||◌, Option, none, some, List, [], ◌∷◌,
  ltb, leb, ◌==◌, if◌then◌else◌, length, all,
}
use midnight_referendum_app.Base.Text.{Text, trim}
use midnight_referendum_app.Base.Integers.{ℤ, difference, pred}

-- A Date by its UTC fields, with the month from 1 and the time of the day in milliseconds.
pub record Date : Type 0 where
  pub year : ℕ
  pub month : ℕ
  pub day : ℕ
  pub millis : ℕ

abbrev pub is_leap : ℕ → Bool
is_leap y = (y % 4 == 0 && not (y % 100 == 0)) || y % 400 == 0

abbrev pub days_in_month : ℕ → ℕ → ℕ
days_in_month y m =
    if m == 2
    then (if is_leap y then 29 else 28)
    else (if m == 4 || m == 6 || m == 9 || m == 11 then 30 else 31)

-- The year that `Date.UTC` takes: 0 to 99 stand for 1900 to 1999.
abbrev pub full_year : ℕ → ℕ
full_year y = if leb y 99 then y + 1900 else y

unfoldable pub is_date : ℕ → ℕ → ℕ → Bool
is_date y m d = leb 1 m && leb m 12 && leb 1 d && leb d (days_in_month y m)

-- `new Date(Date.UTC(y, m - 1, d))` with the test that its month and its day are `m` and `d`, which
-- holds exactly where the year has that day.
abbrev pub utc_date : ℕ → ℕ → ℕ → Option Date
utc_date y m d =
    if is_date (full_year y) m d
    then some (record { year = full_year y; month = m; day = d; millis = 0 })
    else none

-- `date.getTime() < other.getTime()`
unfoldable pub is_before : Date → Date → Bool
is_before a b =
    ltb a.year b.year
    || (a.year == b.year
        && (ltb a.month b.month
            || (a.month == b.month
                && (ltb a.day b.day || (a.day == b.day && ltb a.millis b.millis)))))

abbrev pub is_digit : ℕ → Bool
is_digit c = leb b'0' c && leb c b'9'

-- `Number(text)` on decimal digits.
abbrev pub number_from : ℕ → Text → ℕ
number_from n [] = n
number_from n (c ∷ s) = number_from (10 * n + (c - b'0')) s

pub data Kind : Type 0 where
  birth expiry : Kind

-- The year of the two digits `yy`, for a reference year of at least 100.
unfoldable pub expanded_year : Kind → ℕ → ℕ → ℕ
expanded_year birth yy reference =
    if ltb (reference % 100) yy
    then reference - reference % 100 - 100 + yy
    else reference - reference % 100 + yy
expanded_year expiry yy reference =
    if ltb (yy + 50) (reference % 100)
    then reference - reference % 100 + 100 + yy
    else reference - reference % 100 + yy

unfoldable pub expand_mrz_date : Text → Kind → Date → Option Date
unfolding is_date expanded_year
expand_mrz_date (a ∷ b ∷ c ∷ d ∷ e ∷ f ∷ []) kind reference =
    let month = number_from 0 (c ∷ d ∷ []) in
    let day = number_from 0 (e ∷ f ∷ []) in
    if not (all is_digit (a ∷ b ∷ c ∷ d ∷ e ∷ f ∷ []))
      || ltb month 1
      || ltb 12 month
      || ltb day 1
      || ltb 31 day
    then none
    else utc_date (expanded_year kind (number_from 0 (a ∷ b ∷ [])) reference.year) month day
expand_mrz_date _ kind reference = none

-- Whether `to` stands before the day of `from` in its year.
abbrev pub is_earlier_in_year : Date → Date → Bool
is_earlier_in_year to from =
    ltb to.month from.month || (to.month == from.month && ltb to.day from.day)

unfoldable pub years_between : Date → Date → ℤ
years_between from to =
    if is_earlier_in_year to from
    then pred (difference to.year from.year)
    else difference to.year from.year

-- The match of `/^(\d{4})-(\d{2})-(\d{2})$/u` with the tests of the three fields.
abbrev pub iso_date : Text → Option Date
iso_date (a ∷ b ∷ c ∷ d ∷ e ∷ f ∷ g ∷ h ∷ i ∷ j ∷ []) =
    let year = number_from 0 (a ∷ b ∷ c ∷ d ∷ []) in
    if not (all is_digit (a ∷ b ∷ c ∷ d ∷ f ∷ g ∷ i ∷ j ∷ []))
      || not (e == b'-')
      || not (h == b'-')
      || not (full_year year == year)
    then none
    else utc_date year (number_from 0 (f ∷ g ∷ [])) (number_from 0 (i ∷ j ∷ []))
iso_date _ = none

unfoldable pub parse_iso_date : Text → Option Date
unfolding trim is_date
parse_iso_date iso = iso_date (trim iso)
