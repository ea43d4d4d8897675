-- ===== src/Base/Json.antt =====
-- The values that JSON.parse gives and that the program guards at run time (`unknown`).
use Prim.Native.Nat.{ℕ, ◌^◌, ◌-◌}
use mathlib.Core.Path.{◌≡◌}
use mathlib.Core.Bool.{Bool, false}
use mathlib.Core.Option.{Option, none, some}
use mathlib.Core.List.{◌∷◌}
use native.Mathlib.Omega.{arith}
use midnight_referendum_app.Base.Tests.{leb, if◌then◌else◌}
use midnight_referendum_app.Base.Text.{Text, text_eq}

-- `natural n` and `negative n` are n and -(n + 1); `inexact` is any number that is no integer.
pub data Number : Type 0 where
  natural : ℕ → Number
  negative : ℕ → Number
  inexact : Number

-- The fields of an object in insertion order, each key once. `undefined` is a property that is not
-- there.
mutual
  pub data Value : Type 0 where
    undefined : Value
    null : Value
    boolean : Bool → Value
    number : Number → Value
    string : Text → Value
    array : Values → Value
    object : Fields → Value

  pub data Values : Type 0 where
    nil : Values
    cons : Value → Values → Values

  pub data Fields : Type 0 where
    end : Fields
    field : Text → Value → Fields → Fields

-- `value[key]`
unfoldable pub property : Fields → Text → Value
property end k = undefined
property (field j v f) k = if text_eq j k then v else property f k

pub property-field_ne :
    (f : Fields) (j k : Text) (v : Value)
    → text_eq j k ≡ false
    → property (field j v f) k ≡ property f k
unfolding property
property-field_ne f j k v h = ground arith

abbrev pub max_safe_integer : ℕ
max_safe_integer = 2 ^ 53 - 1

-- A number that `Number.isSafeInteger` accepts and that is at least 0.
abbrev pub safe_natural : Value → Option ℕ
safe_natural (number (natural n)) = if leb n max_safe_integer then some n else none
safe_natural _ = none

-- A string, with `none` for any other type.
abbrev pub as_string : Value → Option Text
as_string (string s) = some s
as_string _ = none

-- A string with at least one unit.
abbrev pub as_non_empty : Value → Option Text
as_non_empty (string (c ∷ s)) = some (c ∷ s)
as_non_empty _ = none
