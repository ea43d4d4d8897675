-- ===== src/Ui/Eligibility/Laws.antt =====
-- What toEligibility and validateManualFields of ui/src/integration/mrz.ts answer.
use midnight_referendum_app.Base.{
  ℕ, ◌≤◌, ◌≡◌, refl, sym, subst, ◌∙◌, true, false, not, Option, none, some, List, length, all,
  arith,
}
use midnight_referendum_app.Base.Text.{Text}
use midnight_referendum_app.Ui.Dates.{
  Date, is_before, birth, expiry, expand_mrz_date, parse_iso_date,
}
use midnight_referendum_app.Ui.Dates.Laws.{anniversary, years_between_lem}
use midnight_referendum_app.Ui.Dates.Expand.{IsExpanded, yymmdd}
use midnight_referendum_app.Ui.Mrz.{
  MrzRecord, parsed, parse_td3, is_mrz, normalize_mrz_line, kept, record_of, slice, split_mrz_lines,
}
use midnight_referendum_app.Ui.Mrz.Laws.{IsRead, parse_td3-IsRead, kept-all}
use midnight_referendum_app.Ui.Eligibility.{
  to_eligibility, ManualMrzFields, accepted, checked_dates, validate_manual_fields,
}

-- The eligibility of a record, by the two dates that its digits stand for.
pub record IsJudged (r : MrzRecord) (reference : Date) (adult_age : ℕ) : Type 0 where
  pub born : Date
  pub expires : Date
  pub birth_written : yymmdd born ≡ r.birth_date
  pub expiry_written : yymmdd expires ≡ r.expiry_date
  pub born_exists : IsExpanded birth reference born
  pub expires_exists : IsExpanded expiry reference expires
  pub answer :
      to_eligibility r reference adult_age
      ≡ some (record {
        country = r.nationality;
        is_adult = not (is_before reference (anniversary born adult_age));
        is_expired = is_before expires reference;
      })

IsRead-IsJudged :
    (r : MrzRecord) (reference : Date) (adult_age : ℕ) (lines : List Text)
    → IsRead reference lines r
    → IsJudged r reference adult_age
unfolding record_of to_eligibility
IsRead-IsJudged r reference adult_age lines read =
    let birth_text : r.birth_date ≡ slice 13 19 read.line2 = λ i. (read.fields i).birth_date in
    let expiry_text : r.expiry_date ≡ slice 21 27 read.line2 = λ i. (read.fields i).expiry_date in
    let born : expand_mrz_date r.birth_date birth reference ≡ some read.born.date =
      (λ i. expand_mrz_date (birth_text i) birth reference) ∙ read.born.expanded in
    let expires : expand_mrz_date r.expiry_date expiry reference ≡ some read.expires.date =
      (λ i. expand_mrz_date (expiry_text i) expiry reference) ∙ read.expires.expanded in
    record {
      born = read.born.date;
      expires = read.expires.date;
      birth_written = read.born.written ∙ sym birth_text;
      expiry_written = read.expires.written ∙ sym expiry_text;
      born_exists = read.born.exists;
      expires_exists = read.expires.exists;
      answer = simp (born, expires, years_between_lem read.born.date reference adult_age) refl;
    }

-- The eligibility of a passport that parseTd3 has read exists: its holder is an adult exactly where
-- the birthday of that age is not ahead, and it has expired exactly where the day of expiry began
-- before the reference.
pub parse_td3-IsJudged :
    (to_upper : Text → Text) (reference : Date) (input : Text) (r : MrzRecord) (adult_age : ℕ)
    → 200 ≤ reference.year
    → parse_td3 to_upper reference input ≡ parsed r
    → IsJudged r reference adult_age
parse_td3-IsJudged to_upper reference input r adult_age h e =
    IsRead-IsJudged r reference adult_age (split_mrz_lines to_upper input)
      (parse_td3-IsRead to_upper reference input r h e)

-- What accepted manual fields have shown.
pub record IsAccepted (to_upper : Text → Text) (given : ManualMrzFields) (reference : Date)
    (fields : ManualMrzFields) : Type 0 where
  pub born : Date
  pub expires : Date
  pub born_parsed : parse_iso_date given.birth_date ≡ some born
  pub expires_parsed : parse_iso_date given.expiry_date ≡ some expires
  pub born_before : is_before born reference ≡ true
  pub not_expired : is_before expires reference ≡ false
  pub long_enough : 5 ≤ length fields.document_number
  pub short_enough : length fields.document_number ≤ 9
  pub is_clean : all is_mrz fields.document_number ≡ true
  pub number : fields.document_number ≡ normalize_mrz_line to_upper given.document_number
  pub birth_kept : fields.birth_date ≡ given.birth_date
  pub expiry_kept : fields.expiry_date ≡ given.expiry_date

checked_dates-accepted :
    (reference : Date) (given : ManualMrzFields) (number : Text) (o p : Option Date)
    (fields : ManualMrzFields)
    → checked_dates reference given number o p ≡ accepted fields
    → (born : Date) × (expires : Date) × (o ≡ some born)
      × (p ≡ some expires)
      × (is_before born reference ≡ true)
      × (is_before expires reference ≡ false)
      × (number ≡ fields.document_number)
      × (given.birth_date ≡ fields.birth_date)
      × (given.expiry_date ≡ fields.expiry_date)
checked_dates-accepted reference given number (some born) (some expires) fields h =
    let (before, current, number_is, birth_is, expiry_is) : (is_before born reference ≡ true)
        × (is_before expires reference ≡ false)
        × (number ≡ fields.document_number)
        × (given.birth_date ≡ fields.birth_date)
        × (given.expiry_date ≡ fields.expiry_date) =
      ground (arith, h) in
    (born, expires, refl, refl, before, current, number_is, birth_is, expiry_is)
checked_dates-accepted reference given number (some born) none fields h = ground (arith, h)
checked_dates-accepted reference given number none p fields h = ground (arith, h)

-- Manual fields that are accepted have a normalised document number of 5 to 9 characters, a date of
-- birth before the reference and a date of expiry that is not before it, and keep the dates as given.
pub validate_manual_fields-IsAccepted :
    (to_upper : Text → Text) (given : ManualMrzFields) (reference : Date) (fields : ManualMrzFields)
    → validate_manual_fields to_upper given reference ≡ accepted fields
    → IsAccepted to_upper given reference fields
unfolding validate_manual_fields normalize_mrz_line
validate_manual_fields-IsAccepted to_upper given reference fields h =
    let number = kept (to_upper given.document_number) in
    let (long_enough, short_enough, k) : (5 ≤ length number)
        × (length number ≤ 9)
        × (checked_dates reference given number (parse_iso_date given.birth_date)
              (parse_iso_date given.expiry_date)
            ≡ accepted fields) =
      ground (arith, h) in
    let (born, expires, born_is, expires_is, before, current, number_is, birth_is, expiry_is) =
      checked_dates-accepted reference given number (parse_iso_date given.birth_date)
        (parse_iso_date given.expiry_date) fields k in
    record {
      born = born;
      expires = expires;
      born_parsed = born_is;
      expires_parsed = expires_is;
      born_before = before;
      not_expired = current;
      long_enough = subst (λ t. 5 ≤ length t) number_is long_enough;
      short_enough = subst (λ t. length t ≤ 9) number_is short_enough;
      is_clean =
          subst (λ t. all is_mrz t ≡ true) number_is (kept-all (to_upper given.document_number));
      number = sym number_is;
      birth_kept = sym birth_is;
      expiry_kept = sym expiry_is;
    }
