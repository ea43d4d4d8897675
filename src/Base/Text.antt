-- ===== src/Base/Text.antt =====
-- A JavaScript string as the list of its UTF-16 code units, with the tests that the program makes.
use Prim.Native.Char.{code}
use Prim.Native.String.{String}
use Prim.Native.Nat.{ℕ, ◌+◌}
use mathlib.Core.Path.{◌≡◌, refl}
use mathlib.Core.Logic.{◌↔◌}
use mathlib.Core.Bool.{Bool, true, false, ◌&&◌, ◌||◌}
use mathlib.Core.List.{List, [], ◌∷◌}
use native.Mathlib.Omega.{arith}
use midnight_referendum_app.Base.Tests.{leb, ◌==◌, if◌then◌else◌}
use midnight_referendum_app.Base.Lists.{length, all}

abbrev pub Text : Type 0
Text = List ℕ

-- An ASCII literal of the source.
abbrev pub codes : String → Text
codes String.[] = []
codes (String.◌∷◌ c s) = code c ∷ codes s

-- `===` on strings.
unfoldable pub text_eq : Text → Text → Bool
text_eq [] [] = true
text_eq [] (d ∷ t) = false
text_eq (c ∷ s) [] = false
text_eq (c ∷ s) (d ∷ t) = c == d && text_eq s t

pub text_eq_iff : (s t : Text) → (text_eq s t ≡ true) ↔ (s ≡ t)
unfolding text_eq
text_eq_iff [] [] = ground arith
text_eq_iff [] (d ∷ t) = ground arith
text_eq_iff (c ∷ s) [] = ground arith
text_eq_iff (c ∷ s) (d ∷ t) = ground (arith, text_eq_iff s t)

pub text_eq_refl : (s : Text) → text_eq s s ≡ true
text_eq_refl s = (text_eq_iff s s).1 refl

abbrev pub includes : List Text → Text → Bool
includes [] t = false
includes (s ∷ ss) t = text_eq s t || includes ss t

-- The white space of `String.prototype.trim`: every unit of it lies in the basic plane.
unfoldable pub is_space : ℕ → Bool
is_space c =
    (leb 9 c && leb c 13)
    || includes ((32 ∷ []) ∷ (0xa0 ∷ []) ∷ (0x1680 ∷ []) ∷ (0xfeff ∷ []) ∷ []) (c ∷ [])
    || (leb 0x2000 c && leb c 0x200a)
    || includes ((0x2028 ∷ []) ∷ (0x2029 ∷ []) ∷ (0x202f ∷ []) ∷ (0x205f ∷ []) ∷ (0x3000 ∷ []) ∷ [])
        (c ∷ [])

unfoldable pub trim_start : Text → Text
trim_start [] = []
trim_start (c ∷ s) = if is_space c then trim_start s else c ∷ s

abbrev pub reverse_onto : Text → Text → Text
reverse_onto [] t = t
reverse_onto (c ∷ s) t = reverse_onto s (c ∷ t)

unfoldable pub trim : Text → Text
unfolding trim_start is_space
trim s = reverse_onto (trim_start (reverse_onto (trim_start s) [])) []

-- `value.trim().length === 0`
unfoldable pub is_blank : Text → Bool
unfolding is_space
is_blank = all is_space

-- `[a-f0-9]`
unfoldable pub is_lower_hex : ℕ → Bool
is_lower_hex c = (leb b'a' c && leb c b'f') || (leb b'0' c && leb c b'9')

-- `/^[a-f0-9]{64}$/u`
unfoldable pub is_digest : Text → Bool
unfolding is_lower_hex
is_digest s = length s == 64 && all is_lower_hex s

-- `/^[0-9a-f]+$/iu`, without the length.
unfoldable pub is_hex : ℕ → Bool
unfolding is_lower_hex
is_hex c = is_lower_hex c || (leb b'A' c && leb c b'F')

-- `toLowerCase` on ASCII.
unfoldable pub to_lower : ℕ → ℕ
to_lower c = if leb b'A' c && leb c b'Z' then c + 32 else c
