-- ===== src/Ui/Mrz.antt =====
-- ui/src/integration/mrz.ts: the machine-readable zone of a passport. `toUpperCase` is a parameter.
pub mod CheckDigit
pub mod Laws
use midnight_referendum_app.Base.{
  ℕ, zero, suc, ◌+◌, ◌-◌, ◌*◌, ◌/◌, ◌%◌, Bool, true, false, not, ◌&&◌, ◌||◌, Option, none, some,
  List, [], ◌∷◌, ◌++◌, ltb, leb, ◌==◌, if◌then◌else◌, length, is_some, map,
}
use midnight_referendum_app.Base.Text.{Text, codes, text_eq, is_space, trim}
use midnight_referendum_app.Base.Integers.{is_at_least}
use midnight_referendum_app.Ui.Dates.{
  Date, is_digit, is_before, birth, expiry, expand_mrz_date, years_between, parse_iso_date,
}

pub data Sex : Type 0 where
  male female unspecified : Sex

pub record MrzRecord : Type 0 where
  pub document_code : Text
  pub issuing_state : Text
  pub primary_identifier : Text
  pub secondary_identifier : Text
  pub document_number : Text
  pub nationality : Text
  pub birth_date : Text
  pub expiry_date : Text
  pub sex : Sex

pub data Failure : Type 0 where
  malformed unsupported_format check_document_number check_birth_date check_expiry_date : Failure
  check_composite expired invalid_date : Failure

pub data MrzResult : Type 0 where
  parsed : MrzRecord → MrzResult
  refused : Failure → MrzResult

abbrev pub filler : ℕ
filler = b'<'

abbrev pub is_letter : ℕ → Bool
is_letter c = leb b'A' c && leb c b'Z'

-- The value of a character; `none` makes the sum NaN.
unfoldable pub digit_value : ℕ → Option ℕ
digit_value c =
    if is_digit c
    then some (c - 48)
    else (if is_letter c then some (c - 55) else (if c == filler then some 0 else none))

-- `WEIGHTS[index % 3]`
unfoldable pub weight : ℕ → ℕ
weight index = if index % 3 == 0 then 7 else (if index % 3 == 1 then 3 else 1)

abbrev pub add_weighted : ℕ → Option ℕ → Option ℕ → Option ℕ
add_weighted w (some digit) (some sum) = some (digit * w + sum)
add_weighted w _ _ = none

unfoldable pub weighted_sum : ℕ → Text → Option ℕ
unfolding digit_value weight
weighted_sum index [] = some 0
weighted_sum index (c ∷ s) =
    add_weighted (weight index) (digit_value c) (weighted_sum (suc index) s)

abbrev pub last_digit : Option ℕ → Option ℕ
last_digit none = none
last_digit (some sum) = some (sum % 10)

unfoldable pub compute_check_digit : Text → Option ℕ
unfolding weighted_sum
compute_check_digit value = last_digit (weighted_sum 0 value)

-- `String(digit) === expected`
abbrev pub is_digit_text : Option ℕ → Text → Bool
is_digit_text none expected = false
is_digit_text (some digit) expected = text_eq ((b'0' + digit) ∷ []) expected

unfoldable pub check_matches : Text → Text → Bool
unfolding compute_check_digit
check_matches value expected = is_digit_text (compute_check_digit value) expected

unfoldable pub is_mrz : ℕ → Bool
is_mrz c = is_letter c || is_digit c || c == filler

-- The replacement of the quotation marks by the filler.
abbrev pub as_filler : ℕ → ℕ
as_filler c = if c == 0xab || c == 0x2039 then filler else c

-- Both replacements of normalizeMrzLine.
unfoldable pub kept : Text → Text
unfolding is_mrz
kept [] = []
kept (c ∷ s) = let rest = kept s in if is_mrz (as_filler c) then as_filler c ∷ rest else rest

abbrev pub is_break : ℕ → Bool
is_break c = c == 13 || c == 10

abbrev pub starts_break : Text → Bool
starts_break [] = false
starts_break (c ∷ s) = is_break c

-- `input.split(/[\r\n]+/u)`: the first piece and the others.
unfoldable pub split_breaks : Text → Text × List Text
split_breaks [] = ([], [])
split_breaks (c ∷ s) =
    let (piece, pieces) = split_breaks s in
    if is_break c
    then (if starts_break s then (piece, pieces) else ([], piece ∷ pieces))
    else (c ∷ piece, pieces)

abbrev pub pieces_of : Text × List Text → List Text
pieces_of (piece, pieces) = piece ∷ pieces

abbrev pub non_empty : List Text → List Text
non_empty [] = []
non_empty ([] ∷ lines) = non_empty lines
non_empty ((c ∷ s) ∷ lines) = (c ∷ s) ∷ non_empty lines

-- `field.split('<<')`, with the fillers that may start a separator still ahead.
unfoldable pub split_fillers : Bool → Text → Text × List Text
split_fillers false [] = ([], [])
split_fillers true [] = (filler ∷ [], [])
split_fillers false (c ∷ s) =
    let (piece, pieces) = split_fillers (c == filler) s in
    if c == filler then (piece, pieces) else (c ∷ piece, pieces)
split_fillers true (c ∷ s) =
    let (piece, pieces) = split_fillers false s in
    if c == filler then ([], piece ∷ pieces) else (filler ∷ c ∷ piece, pieces)

-- `value.replace(/</gu, ' ')` and `value.replace(/</gu, '')`
abbrev pub fillers_as_spaces : Text → Text
fillers_as_spaces [] = []
fillers_as_spaces (c ∷ s) = (if c == filler then b' ' else c) ∷ fillers_as_spaces s

abbrev pub without_fillers : Text → Text
without_fillers [] = []
without_fillers (c ∷ s) = let rest = without_fillers s in if c == filler then rest else c ∷ rest

abbrev pub starts_space : Text → Bool
starts_space [] = false
starts_space (c ∷ s) = is_space c

-- `value.replace(/\s+/gu, ' ')`
abbrev pub single_spaces : Text → Text
single_spaces [] = []
single_spaces (c ∷ s) =
    let rest = single_spaces s in
    if is_space c then (if starts_space s then rest else b' ' ∷ rest) else c ∷ rest

unfoldable pub clean : Text → Text
unfolding is_space trim
clean value = single_spaces (trim (fillers_as_spaces value))

pub record Name : Type 0 where
  pub primary : Text
  pub secondary : Text

abbrev pub name_of : Text × List Text → Name
name_of (primary, []) = record { primary = clean primary; secondary = clean [] }
name_of (primary, secondary ∷ _) = record { primary = clean primary; secondary = clean secondary }

unfoldable pub read_name : Text → Name
unfolding split_fillers
read_name field = name_of (split_fillers false field)

abbrev pub take : ℕ → Text → Text
take zero s = []
take (suc n) [] = []
take (suc n) (c ∷ s) = c ∷ take n s

abbrev pub drop : ℕ → Text → Text
drop zero s = s
drop (suc n) [] = []
drop (suc n) (c ∷ s) = drop n s

-- `line.slice(from, to)`
abbrev pub slice : ℕ → ℕ → Text → Text
slice from to line = take (to - from) (drop from line)

abbrev pub td3_line_length : ℕ
td3_line_length = 44

-- `lines.slice(-2)` of at least two lines.
abbrev pub last_two : List Text → Option (Text × Text)
last_two [] = none
last_two (a ∷ []) = none
last_two (a ∷ b ∷ []) = some (a, b)
last_two (a ∷ b ∷ c ∷ lines) = last_two (b ∷ c ∷ lines)

abbrev pub sex_of : Text → Sex
sex_of raw =
    if text_eq raw (codes "M")
    then male
    else (if text_eq raw (codes "F") then female else unspecified)

-- `nationality || issuingState`
abbrev pub text_or : Text → Text → Text
text_or [] d = d
text_or (c ∷ s) d = c ∷ s

-- The fields that the composite check digit covers.
abbrev pub composite : Text → Text
composite line2 =
    slice 0 9 line2
    ++ slice 9 10 line2
    ++ slice 13 19 line2
    ++ slice 19 20 line2
    ++ slice 21 27 line2
    ++ slice 27 28 line2
    ++ slice 28 42 line2
    ++ slice 42 43 line2

unfoldable pub record_of : Text → Text → MrzRecord
record_of line1 line2 =
    let name = read_name (drop 5 line1) in
    record {
      document_code = without_fillers (slice 0 2 line1);
      issuing_state = without_fillers (slice 2 5 line1);
      primary_identifier = name.primary;
      secondary_identifier = name.secondary;
      document_number = without_fillers (slice 0 9 line2);
      nationality =
          text_or (without_fillers (slice 10 13 line2)) (without_fillers (slice 2 5 line1));
      birth_date = slice 13 19 line2;
      expiry_date = slice 21 27 line2;
      sex = sex_of (slice 20 21 line2);
    }

abbrev pub starts_p : Text → Bool
starts_p [] = false
starts_p (c ∷ s) = c == b'P'

-- A sequence of early returns: the failure of the first test that does not hold.
abbrev pub first_failure : List (Bool × Failure) → MrzResult → MrzResult
first_failure [] result = result
first_failure ((true, failure) ∷ tests) result = first_failure tests result
first_failure ((false, failure) ∷ tests) result = refused failure

module _ (reference : Date) where
  -- The tests of parseTd3, in its order.
  abbrev pub tests_of : Text → Text → List (Bool × Failure)
  tests_of line1 line2 =
      (length line1 == td3_line_length && length line2 == td3_line_length, malformed)
      ∷ (starts_p line1, unsupported_format)
      ∷ (check_matches (slice 0 9 line2) (slice 9 10 line2), check_document_number)
      ∷ (check_matches (slice 13 19 line2) (slice 19 20 line2), check_birth_date)
      ∷ (check_matches (slice 21 27 line2) (slice 27 28 line2), check_expiry_date)
      ∷ (check_matches (composite line2) (slice 43 44 line2), check_composite)
      ∷ (is_some (expand_mrz_date (slice 13 19 line2) birth reference), invalid_date)
      ∷ (is_some (expand_mrz_date (slice 21 27 line2) expiry reference), invalid_date)
      ∷ []

  unfoldable pub parse_lines : Text → Text → MrzResult
  parse_lines line1 line2 = first_failure (tests_of line1 line2) (parsed (record_of line1 line2))

  abbrev pub parse_two : Option (Text × Text) → MrzResult
  parse_two none = refused malformed
  parse_two (some (line1, line2)) = parse_lines line1 line2

module _ (to_upper : Text → Text) where
  unfoldable pub normalize_mrz_line : Text → Text
  unfolding kept
  normalize_mrz_line line = kept (to_upper line)

  unfoldable pub split_mrz_lines : Text → List Text
  unfolding split_breaks normalize_mrz_line
  split_mrz_lines input = non_empty (map normalize_mrz_line (pieces_of (split_breaks input)))

  unfoldable pub parse_td3 : Date → Text → MrzResult
  unfolding split_mrz_lines parse_lines
  parse_td3 reference input = parse_two reference (last_two (split_mrz_lines input))
