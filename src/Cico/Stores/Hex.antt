-- ===== src/Cico/Stores/Hex.antt =====
-- bytesToHex and bytesFromHex of cico-service/src/durable-stores.ts.
use midnight_referendum_app.Base.{
  ℕ, ◌+◌, ◌-◌, ◌*◌, ◌/◌, ◌%◌, ◌<◌, ◌≡◌, refl, true, [], ◌∷◌, ltb, if◌then◌else◌, length, all, arith,
  All,
}
use midnight_referendum_app.Base.Text.{Text, is_lower_hex, is_digest}
use midnight_referendum_app.Cico.Registry.{Bytes, hex_bytes, hex_digit}

-- A digit of `toString(16)`.
unfoldable pub hex_code : ℕ → ℕ
hex_code n = if ltb n 10 then n + b'0' else n - 10 + b'a'

-- `toString(16).padStart(2, '0')` of each byte.
abbrev pub bytes_to_hex : Bytes → Text
bytes_to_hex [] = []
bytes_to_hex (b ∷ bytes) = hex_code (b / 16) ∷ hex_code (b % 16) ∷ bytes_to_hex bytes

hex_digit-hex_code : (n : ℕ) → n < 16 → hex_digit (hex_code n) ≡ n
unfolding hex_code
hex_digit-hex_code n h = ground (arith, h)

is_lower_hex-hex_code : (n : ℕ) → n < 16 → is_lower_hex (hex_code n) ≡ true
unfolding hex_code is_lower_hex
is_lower_hex-hex_code n h = ground (arith, h)

abbrev pub IsByte : ℕ → Type 0
IsByte b = b < 256

byte_of_digits :
    (b : ℕ) → IsByte b → 16 * hex_digit (hex_code (b / 16)) + hex_digit (hex_code (b % 16)) ≡ b
byte_of_digits b h =
    let high = hex_digit-hex_code (b / 16) (omega (arith, h)) in
    let low = hex_digit-hex_code (b % 16) (omega arith) in omega (arith, high, low)

-- Bytes are read back from their digits.
pub hex_bytes-bytes_to_hex :
    (bytes : Bytes) → All IsByte bytes → hex_bytes (bytes_to_hex bytes) ≡ bytes
hex_bytes-bytes_to_hex [] h = refl
hex_bytes-bytes_to_hex (b ∷ bytes) (h, k) =
    λ i. byte_of_digits b h i ∷ hex_bytes-bytes_to_hex bytes k i

length-bytes_to_hex : (bytes : Bytes) → length (bytes_to_hex bytes) ≡ 2 * length bytes
length-bytes_to_hex [] = refl
length-bytes_to_hex (b ∷ bytes) = omega (arith, length-bytes_to_hex bytes)

all-bytes_to_hex : (bytes : Bytes) → All IsByte bytes → all is_lower_hex (bytes_to_hex bytes) ≡ true
all-bytes_to_hex [] h = refl
all-bytes_to_hex (b ∷ bytes) (h, k) =
    let high = is_lower_hex-hex_code (b / 16) (omega (arith, h)) in
    let low = is_lower_hex-hex_code (b % 16) (omega arith) in
    simp (high, low) (all-bytes_to_hex bytes k)

-- Thirty-two bytes have the form of a digest.
pub is_digest-bytes_to_hex :
    (bytes : Bytes) → length bytes ≡ 32 → All IsByte bytes → is_digest (bytes_to_hex bytes) ≡ true
unfolding is_digest
is_digest-bytes_to_hex bytes h k =
    let size : length (bytes_to_hex bytes) ≡ 64 = omega (arith, length-bytes_to_hex bytes, h) in
    simp (size, all-bytes_to_hex bytes k) refl
