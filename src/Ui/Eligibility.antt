-- ===== src/Ui/Eligibility.antt =====
-- toEligibility and validateManualFields of ui/src/integration/mrz.ts.
pub mod Laws
use midnight_referendum_app.Base.{
  ℕ, Bool, true, false, not, ◌||◌, Option, none, some, ltb, if◌then◌else◌, length,
}
use midnight_referendum_app.Base.Text.{Text}
use midnight_referendum_app.Base.Integers.{is_at_least}
use midnight_referendum_app.Ui.Dates.{
  Date, is_before, birth, expiry, expand_mrz_date, years_between, parse_iso_date,
}
use midnight_referendum_app.Ui.Mrz.{
  MrzRecord, Failure, malformed, expired, invalid_date, normalize_mrz_line,
}

pub record Eligibility : Type 0 where
  pub country : Text
  pub is_adult : Bool
  pub is_expired : Bool

abbrev pub eligibility_of : Text → Date → ℕ → Option Date → Option Date → Option Eligibility
eligibility_of country reference adult_age (some born) (some expires) = some (record {
  country = country;
  is_adult = is_at_least (years_between born reference) adult_age;
  is_expired = is_before expires reference;
})
eligibility_of country reference adult_age _ _ = none

unfoldable pub to_eligibility : MrzRecord → Date → ℕ → Option Eligibility
to_eligibility r reference adult_age =
    eligibility_of r.nationality reference adult_age (expand_mrz_date r.birth_date birth reference)
      (expand_mrz_date r.expiry_date expiry reference)

pub record ManualMrzFields : Type 0 where
  pub document_number : Text
  pub birth_date : Text
  pub expiry_date : Text

pub data ManualResult : Type 0 where
  accepted : ManualMrzFields → ManualResult
  rejected : Failure → ManualResult

module _ (reference : Date) (fields : ManualMrzFields) where
  abbrev pub checked_dates : Text → Option Date → Option Date → ManualResult
  checked_dates number (some born) (some expires) =
      if not (is_before born reference)
      then rejected invalid_date
      else if is_before expires reference
      then rejected expired
      else accepted (record {
        document_number = number;
        birth_date = fields.birth_date;
        expiry_date = fields.expiry_date;
      })
  checked_dates number _ _ = rejected invalid_date

  abbrev pub checked_number : Text → ManualResult
  checked_number number =
      if ltb (length number) 5 || ltb 9 (length number)
      then rejected malformed
      else checked_dates number (parse_iso_date fields.birth_date)
          (parse_iso_date fields.expiry_date)

unfoldable pub validate_manual_fields : (Text → Text) → ManualMrzFields → Date → ManualResult
validate_manual_fields to_upper fields reference =
    checked_number reference fields (normalize_mrz_line to_upper fields.document_number)
