-- ===== src/Ui/Tests.antt =====
-- The specimen passport of ICAO 9303 read by ui/src/integration/mrz.ts.
use midnight_referendum_app.Base.{
  ℕ, ◌+◌, ◌≤◌, ◌≡◌, ◌≢◌, refl, Bool, true, false, not, Option, none, some, List, [], ◌∷◌, ◌++◌, all,
  arith,
}
use midnight_referendum_app.Base.Text.{Text, codes}
use midnight_referendum_app.Base.Integers.{is_at_least}
use midnight_referendum_app.Ui.Dates.{
  Date, birth, expiry, expand_mrz_date, years_between, is_before, parse_iso_date,
}
use midnight_referendum_app.Ui.Dates.Laws.{anniversary, years_between_lem}
use midnight_referendum_app.Ui.Dates.Expand.{
  IsExpanded, yymmdd, expand_mrz_date-IsExpanded, expand_mrz_date-yymmdd,
}
use midnight_referendum_app.Ui.Mrz.{
  MrzRecord, female, parsed, check_matches, is_mrz, normalize_mrz_line, split_mrz_lines, parse_td3,
}
use midnight_referendum_app.Ui.Mrz.CheckDigit.{check_matches-misread}
use midnight_referendum_app.Ui.Mrz.Laws.{normalize_mrz_line-twice, IsRead, parse_td3-IsRead}
use midnight_referendum_app.Ui.Eligibility.{ManualMrzFields, accepted, validate_manual_fields}
use midnight_referendum_app.Ui.Eligibility.Laws.{
  IsJudged, parse_td3-IsJudged, IsAccepted, validate_manual_fields-IsAccepted,
}

abbrev reference : Date
reference = record { year = 2026; month = 7; day = 1; millis = 500 }

abbrev unchanged : Text → Text
unchanged s = s

abbrev specimen : Text
specimen =
    codes "P<UTOERIKSSON<<ANNA<MARIA<<<<<<<<<<<<<<<<<<<"
    ++ 10 ∷ codes "L898902C36UTO7408122F1204159ZE184226B<<<<<10"

abbrev specimen_record : MrzRecord
specimen_record = record {
  document_code = codes "P";
  issuing_state = codes "UTO";
  primary_identifier = codes "ERIKSSON";
  secondary_identifier = codes "ANNA MARIA";
  document_number = codes "L898902C3";
  nationality = codes "UTO";
  birth_date = codes "740812";
  expiry_date = codes "120415";
  sex = female;
}

specimen_parsed : parse_td3 unchanged reference specimen ≡ parsed specimen_record
unfolding parse_td3 midnight_referendum_app.Ui.Mrz.check_matches
    midnight_referendum_app.Base.Text.text_eq expand_mrz_date
    midnight_referendum_app.Ui.Mrz.record_of midnight_referendum_app.Ui.Mrz.read_name
    midnight_referendum_app.Ui.Mrz.clean
specimen_parsed = refl

parse_td3-IsRead_example : IsRead reference (split_mrz_lines unchanged specimen) specimen_record
parse_td3-IsRead_example =
    parse_td3-IsRead unchanged reference specimen specimen_record (omega arith) specimen_parsed

parse_td3-IsJudged_example : IsJudged specimen_record reference 18
parse_td3-IsJudged_example =
    parse_td3-IsJudged unchanged reference specimen specimen_record 18 (omega arith) specimen_parsed

abbrev born : Date
born = record { year = 1974; month = 8; day = 12; millis = 0 }

born_exists : IsExpanded birth reference born
unfolding midnight_referendum_app.Ui.Dates.is_date
born_exists = (omega arith, omega arith, refl, refl)

expand_mrz_date-yymmdd_example : expand_mrz_date (codes "740812") birth reference ≡ some born
expand_mrz_date-yymmdd_example =
    expand_mrz_date-yymmdd birth reference born (omega arith) born_exists

expand_mrz_date-IsExpanded_example :
    IsExpanded birth reference born × (yymmdd born ≡ codes "740812")
expand_mrz_date-IsExpanded_example =
    expand_mrz_date-IsExpanded (codes "740812") birth reference born (omega arith)
      expand_mrz_date-yymmdd_example

years_between_lem_example :
    is_at_least (years_between born reference) 52 ≡ not (is_before reference (anniversary born 52))
years_between_lem_example = years_between_lem born reference 52

birth_date_matches : check_matches (codes "740812") (codes "2") ≡ true
unfolding check_matches midnight_referendum_app.Base.Text.text_eq
birth_date_matches = refl

check_matches-misread_example : check_matches (codes "740813") (codes "2") ≡ false
check_matches-misread_example =
    check_matches-misread (codes "74081") [] b'2' b'3' (codes "2") refl refl (λ e. grind (arith, e))
      birth_date_matches

normalize_mrz_line-twice_example :
    (all is_mrz (normalize_mrz_line unchanged (codes "P< UTO")) ≡ true)
    × (normalize_mrz_line unchanged (normalize_mrz_line unchanged (codes "P< UTO"))
        ≡ normalize_mrz_line unchanged (codes "P< UTO"))
normalize_mrz_line-twice_example = normalize_mrz_line-twice unchanged (codes "P< UTO") (λ s h. refl)

abbrev typed : ManualMrzFields
typed = record {
  document_number = codes "L8989 02C3";
  birth_date = codes "1974-08-12 ";
  expiry_date = codes "2026-07-02";
}

abbrev typed_clean : ManualMrzFields
typed_clean = record typed { document_number = codes "L898902C3" }

typed_is_accepted : validate_manual_fields unchanged typed reference ≡ accepted typed_clean
unfolding validate_manual_fields normalize_mrz_line parse_iso_date
    midnight_referendum_app.Base.Text.text_eq is_before
typed_is_accepted = refl

validate_manual_fields-IsAccepted_example : IsAccepted unchanged typed reference typed_clean
validate_manual_fields-IsAccepted_example =
    validate_manual_fields-IsAccepted unchanged typed reference typed_clean typed_is_accepted
