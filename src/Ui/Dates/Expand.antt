-- ===== src/Ui/Dates/Expand.antt =====
-- expandMrzDate of ui/src/integration/mrz.ts against the dates that six digits may stand for.
use midnight_referendum_app.Base.{
  ℕ, ◌+◌, ◌-◌, ◌/◌, ◌%◌, ◌<◌, ◌≤◌, ◌≡◌, refl, ◌∙◌, sym, subst, true, false, some, [], ◌∷◌, ltb, all,
  arith, ◌↔◌,
}
use midnight_referendum_app.Base.Text.{Text}
use midnight_referendum_app.Ui.Dates.{
  Date, is_date, full_year, utc_date, is_digit, number_from, Kind, birth, expiry, expanded_year,
  expand_mrz_date,
}

abbrev pub two_digits : ℕ → Text → Text
two_digits n s = (b'0' + n / 10) ∷ (b'0' + n % 10) ∷ s

-- A date as the document writes it: `YYMMDD`.
abbrev pub yymmdd : Date → Text
yymmdd d = two_digits (d.year % 100) (two_digits d.month (two_digits d.day []))

-- The first of the hundred years among which two digits choose: a birth is at most 99 years ago, an
-- expiry lies in the century of the reference, less the years more than 50 before it.
abbrev pub first_year : Kind → ℕ → ℕ
first_year birth reference = reference - 99
first_year expiry reference = reference - reference % 100 + (reference % 100 - 50)

-- A date that exists, in one of those years.
abbrev pub IsExpanded : Kind → Date → Date → Type 0
IsExpanded kind reference d =
    (first_year kind reference.year ≤ d.year)
    × (d.year < first_year kind reference.year + 100)
    × (is_date d.year d.month d.day ≡ true)
    × (d.millis ≡ 0)

expanded_year_unique :
    (kind : Kind) (yy reference y : ℕ)
    → yy < 100
    → 200 ≤ reference
    → (expanded_year kind yy reference ≡ y)
      ↔ (first_year kind reference ≤ y) × (y < first_year kind reference + 100) × (y % 100 ≡ yy)
unfolding expanded_year
expanded_year_unique birth yy reference y h k = ground (arith, h, k)
expanded_year_unique expiry yy reference y h k = ground (arith, h, k)

two_digits-number :
    (a b : ℕ) (s : Text)
    → is_digit a ≡ true
    → is_digit b ≡ true
    → two_digits (number_from 0 (a ∷ b ∷ [])) s ≡ a ∷ b ∷ s
two_digits-number a b s h k =
    let (low_a, high_a) : (b'0' ≤ a) × (a ≤ b'9') = ground (arith, h) in
    let (low_b, high_b) : (b'0' ≤ b) × (b ≤ b'9') = ground (arith, k) in
    let e : b'0' + (number_from 0 (a ∷ b ∷ [])) / 10 ≡ a =
      omega (arith, low_a, high_a, low_b, high_b) in
    let f : b'0' + (number_from 0 (a ∷ b ∷ [])) % 10 ≡ b =
      omega (arith, low_a, high_a, low_b, high_b) in
    λ i. e i ∷ f i ∷ s

number-two_digits : (n : ℕ) → n < 100 → number_from 0 (two_digits n []) ≡ n
number-two_digits n h = omega (arith, h)

is_digit-low : (n : ℕ) → n < 100 → is_digit (b'0' + n / 10) ≡ true
is_digit-low n h = ground (arith, h)

is_digit-high : (n : ℕ) → is_digit (b'0' + n % 10) ≡ true
is_digit-high n = ground arith

number-low : (a b : ℕ) → is_digit a ≡ true → is_digit b ≡ true → number_from 0 (a ∷ b ∷ []) < 100
number-low a b h k = ground (arith, h, k)

first_year-late : (kind : Kind) (reference : ℕ) → 200 ≤ reference → 100 ≤ first_year kind reference
first_year-late birth reference h = omega (arith, h)
first_year-late expiry reference h = omega (arith, h)

full_year-late : (y : ℕ) → 100 ≤ y → full_year y ≡ y
full_year-late y h = ground (arith, h)

-- Where a year is past 99, `Date.UTC` takes it as it is.
utc_date-some :
    (y m n : ℕ) (d : Date)
    → 100 ≤ y
    → utc_date y m n ≡ some d
    → (d.year ≡ y) × (d.month ≡ m) × (d.day ≡ n) × (d.millis ≡ 0) × (is_date y m n ≡ true)
utc_date-some y m n d h e =
    let (year, month, day, millis, there) : (full_year y ≡ d.year)
        × (m ≡ d.month)
        × (n ≡ d.day)
        × (0 ≡ d.millis)
        × (is_date (full_year y) m n ≡ true) =
      ground (arith, e) in
    let late = full_year-late y h in
    (sym year ∙ late, sym month, sym day, sym millis, subst (λ z. is_date z m n ≡ true) late there)

utc_date-is_date :
    (d : Date)
    → 100 ≤ d.year
    → is_date d.year d.month d.day ≡ true
    → d.millis ≡ 0
    → utc_date d.year d.month d.day ≡ some d
utc_date-is_date d h k z =
    let year = full_year-late d.year h in
    let there : is_date (full_year d.year) d.month d.day ≡ true = simp year k in
    simp there
      (λ i. some (record { year = year i; month = d.month; day = d.day; millis = sym z i }))

is_date-bounds : (y m n : ℕ) → is_date y m n ≡ true → (1 ≤ m) × (m ≤ 12) × (1 ≤ n) × (n ≤ 31)
unfolding is_date
is_date-bounds y m n h = ground (arith, h)

two_digits-six :
    (a b c e f g : ℕ)
    → all is_digit (a ∷ b ∷ c ∷ e ∷ f ∷ g ∷ []) ≡ true
    → two_digits
        (number_from 0 (a ∷ b ∷ []))
        (two_digits (number_from 0 (c ∷ e ∷ [])) (two_digits (number_from 0 (f ∷ g ∷ [])) []))
      ≡ a ∷ b ∷ c ∷ e ∷ f ∷ g ∷ []
two_digits-six a b c e f g h =
    let (a_is, b_is, c_is, e_is, f_is, g_is) : (is_digit a ≡ true)
        × (is_digit b ≡ true)
        × (is_digit c ≡ true)
        × (is_digit e ≡ true)
        × (is_digit f ≡ true)
        × (is_digit g ≡ true) =
      ground (arith, h) in
    two_digits-number a b
      (two_digits (number_from 0 (c ∷ e ∷ [])) (two_digits (number_from 0 (f ∷ g ∷ [])) [])) a_is
      b_is
    ∙ (λ i. a ∷ b ∷ two_digits-number c e (two_digits (number_from 0 (f ∷ g ∷ [])) []) c_is e_is i)
    ∙ (λ i. a ∷ b ∷ c ∷ e ∷ two_digits-number f g [] f_is g_is i)

in_range : (k n bound : ℕ) → k ≡ n → 1 ≤ n → n ≤ bound → (ltb k 1 ≡ false) × (ltb bound k ≡ false)
in_range k n bound e low high = ground (arith, e, low, high)

expand_mrz_date-utc_date :
    (a b c e f g : ℕ) (kind : Kind) (reference : Date) (y m n : ℕ)
    → all is_digit (a ∷ b ∷ c ∷ e ∷ f ∷ g ∷ []) ≡ true
    → expanded_year kind (number_from 0 (a ∷ b ∷ [])) reference.year ≡ y
    → number_from 0 (c ∷ e ∷ []) ≡ m
    → number_from 0 (f ∷ g ∷ []) ≡ n
    → is_date y m n ≡ true
    → expand_mrz_date (a ∷ b ∷ c ∷ e ∷ f ∷ g ∷ []) kind reference ≡ utc_date y m n
unfolding expand_mrz_date
expand_mrz_date-utc_date a b c e f g kind reference y m n digits year month day there =
    let (m_low, m_high, n_low, n_high) = is_date-bounds y m n there in
    let (c_low, c_high) = in_range (number_from 0 (c ∷ e ∷ [])) m 12 month m_low m_high in
    let (f_low, f_high) = in_range (number_from 0 (f ∷ g ∷ [])) n 31 day n_low n_high in
    simp (digits, c_low, c_high, f_low, f_high) (λ i. utc_date (year i) (month i) (day i))

-- Six digits that expandMrzDate reads give a date that exists, in the hundred years of its kind, and
-- are how the document writes that date.
pub expand_mrz_date-IsExpanded :
    (text : Text) (kind : Kind) (reference d : Date)
    → 200 ≤ reference.year
    → expand_mrz_date text kind reference ≡ some d
    → IsExpanded kind reference d × (yymmdd d ≡ text)
unfolding expand_mrz_date
expand_mrz_date-IsExpanded (a ∷ b ∷ c ∷ e ∷ f ∷ g ∷ []) kind reference d h k =
    let year = expanded_year kind (number_from 0 (a ∷ b ∷ [])) reference.year in
    let (digits, found) : (all is_digit (a ∷ b ∷ c ∷ e ∷ f ∷ g ∷ []) ≡ true)
        × (utc_date year (number_from 0 (c ∷ e ∷ [])) (number_from 0 (f ∷ g ∷ [])) ≡ some d) =
      ground (arith, k) in
    let (a_is, b_is, c_is, e_is, f_is, g_is) : (is_digit a ≡ true)
        × (is_digit b ≡ true)
        × (is_digit c ≡ true)
        × (is_digit e ≡ true)
        × (is_digit f ≡ true)
        × (is_digit g ≡ true) =
      ground (arith, digits) in
    let (from, until, last_two) =
      (expanded_year_unique kind (number_from 0 (a ∷ b ∷ [])) reference.year year
          (number-low a b a_is b_is) h).0
        refl in
    let (y, m, n, z, there) =
      utc_date-some year (number_from 0 (c ∷ e ∷ [])) (number_from 0 (f ∷ g ∷ [])) d
        (omega (arith, from, first_year-late kind reference.year h)) found in
    let yy : d.year % 100 ≡ number_from 0 (a ∷ b ∷ []) = omega (arith, y, last_two) in
    (
      (
        omega (arith, from, y),
        omega (arith, until, y),
        (λ i. is_date (y i) (m i) (n i)) ∙ there,
        z,
      ),
      (λ i. two_digits (yy i) (two_digits (m i) (two_digits (n i) [])))
          ∙ two_digits-six a b c e f g digits,
    )
expand_mrz_date-IsExpanded _ kind reference d h k = ground (arith, k)

all-two_digits :
    (y m n : ℕ)
    → y < 100
    → m < 100
    → n < 100
    → all is_digit (two_digits y (two_digits m (two_digits n []))) ≡ true
all-two_digits y m n h k l =
    simp
      (
        is_digit-low y h,
        is_digit-high y,
        is_digit-low m k,
        is_digit-high m,
        is_digit-low n l,
        is_digit-high n,
      )
      refl

-- A date that exists, in the hundred years of its kind, is read back from the six digits with which
-- the document writes it.
pub expand_mrz_date-yymmdd :
    (kind : Kind) (reference d : Date)
    → 200 ≤ reference.year
    → IsExpanded kind reference d
    → expand_mrz_date (yymmdd d) kind reference ≡ some d
expand_mrz_date-yymmdd kind reference d h k =
    let (from, until, there, z) = k in
    let (m_low, m_high, n_low, n_high) = is_date-bounds d.year d.month d.day there in
    let year =
      (expanded_year_unique kind (d.year % 100) reference.year d.year (omega arith) h).1
        (from, until, refl) in
    let yy = number-two_digits (d.year % 100) (omega arith) in
    let found =
      utc_date-is_date d (omega (arith, from, first_year-late kind reference.year h)) there z in
    expand_mrz_date-utc_date (b'0' + d.year % 100 / 10) (b'0' + d.year % 100 % 10)
      (b'0' + d.month / 10) (b'0' + d.month % 10) (b'0' + d.day / 10) (b'0' + d.day % 10) kind
      reference d.year d.month d.day
      (all-two_digits (d.year % 100) d.month d.day (omega arith) (omega (arith, m_high))
        (omega (arith, n_high)))
      ((λ i. expanded_year kind (yy i) reference.year) ∙ year)
      (number-two_digits d.month (omega (arith, m_high)))
      (number-two_digits d.day (omega (arith, n_high))) there
    ∙ found
