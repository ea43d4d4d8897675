-- ===== src/Ui/Mrz/Laws.antt =====
-- What a passport that parseTd3 of ui/src/integration/mrz.ts reads has shown.
use midnight_referendum_app.Base.{
  ℕ, ◌≤◌, ◌≡◌, refl, sym, ◌∙◌, Bool, true, false, Option, none, some, List, [], ◌∷◌, length, all,
  All, arith, is_some, Bool-cases, inl, inr,
}
use midnight_referendum_app.Base.Text.{Text}
use midnight_referendum_app.Ui.Dates.{Date, Kind, birth, expiry, expand_mrz_date}
use midnight_referendum_app.Ui.Dates.Expand.{IsExpanded, yymmdd, expand_mrz_date-IsExpanded}
use midnight_referendum_app.Ui.Mrz.{
  MrzRecord, MrzResult, Failure, parsed, is_mrz, as_filler, kept, last_two, check_matches, slice,
  composite, record_of, starts_p, td3_line_length, first_failure, tests_of, parse_lines, parse_two,
  normalize_mrz_line, split_mrz_lines, parse_td3,
}

as_filler-is_mrz : (c : ℕ) → is_mrz c ≡ true → as_filler c ≡ c
unfolding is_mrz
as_filler-is_mrz c h = ground (arith, h)

pub kept-all : (s : Text) → all is_mrz (kept s) ≡ true
unfolding kept
kept-all [] = refl
kept-all (c ∷ s) = elim (Bool-cases (is_mrz (as_filler c))) [
  | inl h ↦ simp (h, kept-all s) refl
  | inr h ↦ simp (h, kept-all s) refl
]

kept-fixed : (s : Text) → all is_mrz s ≡ true → kept s ≡ s
unfolding kept
kept-fixed [] h = refl
kept-fixed (c ∷ s) h =
    let (here, rest) : (is_mrz c ≡ true) × (all is_mrz s ≡ true) = ground (arith, h) in
    simp (as_filler-is_mrz c here, here, kept-fixed s rest) refl

-- A line has only letters, digits and fillers once it is normalised, and normalising it again leaves
-- it as it is, where `toUpperCase` leaves such a text as it is.
pub normalize_mrz_line-twice :
    (to_upper : Text → Text) (line : Text)
    → ((s : Text) → all is_mrz s ≡ true → to_upper s ≡ s)
    → (all is_mrz (normalize_mrz_line to_upper line) ≡ true)
      × (normalize_mrz_line to_upper (normalize_mrz_line to_upper line)
          ≡ normalize_mrz_line to_upper line)
unfolding normalize_mrz_line
normalize_mrz_line-twice to_upper line h =
    let clean = kept-all (to_upper line) in
    (
      clean,
      (λ i. kept (h (kept (to_upper line)) clean i)) ∙ kept-fixed (kept (to_upper line)) clean,
    )

-- A date of the document: the six digits of a date that exists, in the hundred years of its kind.
pub record IsDated (kind : Kind) (reference : Date) (text : Text) : Type 0 where
  pub date : Date
  pub expanded : expand_mrz_date text kind reference ≡ some date
  pub exists : IsExpanded kind reference date
  pub written : yymmdd date ≡ text

pub record IsRead (reference : Date) (lines : List Text) (r : MrzRecord) : Type 0 where
  pub line1 : Text
  pub line2 : Text
  pub last : last_two lines ≡ some (line1, line2)
  pub width1 : length line1 ≡ td3_line_length
  pub width2 : length line2 ≡ td3_line_length
  pub passport : starts_p line1 ≡ true
  pub number_checked : check_matches (slice 0 9 line2) (slice 9 10 line2) ≡ true
  pub birth_checked : check_matches (slice 13 19 line2) (slice 19 20 line2) ≡ true
  pub expiry_checked : check_matches (slice 21 27 line2) (slice 27 28 line2) ≡ true
  pub composite_checked : check_matches (composite line2) (slice 43 44 line2) ≡ true
  pub born : IsDated birth reference (slice 13 19 line2)
  pub expires : IsDated expiry reference (slice 21 27 line2)
  pub fields : r ≡ record_of line1 line2

is_some-IsDated :
    (kind : Kind) (reference : Date) (text : Text)
    → 200 ≤ reference.year
    → (o : Option Date) → expand_mrz_date text kind reference ≡ o
    → is_some o ≡ true
    → IsDated kind reference text
is_some-IsDated kind reference text h none e k = ground (arith, k)
is_some-IsDated kind reference text h (some d) e k =
    let (exists, written) = expand_mrz_date-IsExpanded text kind reference d h e in
    record { date = d; expanded = e; exists = exists; written = written }

Holds : Bool × Failure → Type 0
Holds (b, f) = b ≡ true

-- Each test of a result that is parsed holds.
first_failure-parsed :
    (tests : List (Bool × Failure)) (x : MrzResult) (r : MrzRecord)
    → first_failure tests x ≡ parsed r
    → All Holds tests × (x ≡ parsed r)
unfolding Holds
first_failure-parsed [] x r h = (tt, h)
first_failure-parsed ((true, f) ∷ tests) x r h =
    let (all_hold, result) = first_failure-parsed tests x r h in ((refl, all_hold), result)
first_failure-parsed ((false, f) ∷ tests) x r h = ground (arith, h)

parsed-injective : (a b : MrzRecord) → parsed a ≡ parsed b → a ≡ b
parsed-injective a b h = ground (arith, h)

parse_lines-IsRead :
    (reference : Date) (lines : List Text) (line1 line2 : Text) (r : MrzRecord)
    → 200 ≤ reference.year
    → last_two lines ≡ some (line1, line2)
    → parse_lines reference line1 line2 ≡ parsed r
    → IsRead reference lines r
unfolding parse_lines Holds
parse_lines-IsRead reference lines line1 line2 r h last e =
    let (hold, result) =
      first_failure-parsed (tests_of reference line1 line2) (parsed (record_of line1 line2)) r e in
    let (widths, (passport, (number, (born_check, (expiry_check, (comp, (born, (expires, _)))))))) =
      hold in
    let (w1, w2) : (length line1 ≡ td3_line_length) × (length line2 ≡ td3_line_length) =
      ground (arith, widths) in
    record {
      line1 = line1;
      line2 = line2;
      last = last;
      width1 = w1;
      width2 = w2;
      passport = passport;
      number_checked = number;
      birth_checked = born_check;
      expiry_checked = expiry_check;
      composite_checked = comp;
      born =
          is_some-IsDated birth reference (slice 13 19 line2) h
            (expand_mrz_date (slice 13 19 line2) birth reference) refl born;
      expires =
          is_some-IsDated expiry reference (slice 21 27 line2) h
            (expand_mrz_date (slice 21 27 line2) expiry reference) refl expires;
      fields = parsed-injective r (record_of line1 line2) (sym result);
    }

parse_two-IsRead :
    (reference : Date) (lines : List Text) (r : MrzRecord)
    → 200 ≤ reference.year
    → (o : Option (Text × Text)) → last_two lines ≡ o
    → parse_two reference o ≡ parsed r
    → IsRead reference lines r
parse_two-IsRead reference lines r h none last e = ground (arith, e)
parse_two-IsRead reference lines r h (some (line1, line2)) last e =
    parse_lines-IsRead reference lines line1 line2 r h last e

-- A record that parseTd3 returns comes from the last two lines of the normalised input: both have 44
-- characters, the first starts with P, the four check digits match, both dates exist in the hundred
-- years of their kind and are written by their six digits, and the fields are those of the lines.
pub parse_td3-IsRead :
    (to_upper : Text → Text) (reference : Date) (input : Text) (r : MrzRecord)
    → 200 ≤ reference.year
    → parse_td3 to_upper reference input ≡ parsed r
    → IsRead reference (split_mrz_lines to_upper input) r
unfolding parse_td3
parse_td3-IsRead to_upper reference input r h e =
    parse_two-IsRead reference (split_mrz_lines to_upper input) r h
      (last_two (split_mrz_lines to_upper input)) refl e
