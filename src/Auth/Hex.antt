-- ===== src/Auth/Hex.antt =====
-- hex.EncodeToString and hex.DecodeString, between bytes and text.
use registry_ui_go.Base.{
  ℕ, ◌+◌, ◌-◌, ◌*◌, ◌/◌, ◌%◌, ◌<◌, ◌≡◌, refl, ◌≢◌, ◌⊎◌, Option, none, some, List, [], ◌∷◌, All,
  if◌then◌else◌, Text, ltb, leb, ◌&&◌, arith, length, NoneOf,
}

unfoldable pub hex_digit : ℕ → ℕ
hex_digit n = if ltb n 10 then n + 48 else n + 87

unfoldable pub hex_encode : List ℕ → Text
unfolding hex_digit
hex_encode [] = []
hex_encode (b ∷ bytes) = hex_digit (b / 16) ∷ hex_digit (b % 16) ∷ hex_encode bytes

unfoldable pub hex_value : ℕ → Option ℕ
hex_value c =
    if leb 48 c && leb c 57
    then some (c - 48)
    else if leb 97 c && leb c 102
    then some (c - 87)
    else if leb 65 c && leb c 70
    then some (c - 55)
    else none

unfoldable pub join_byte : Option ℕ → Option ℕ → Option (List ℕ) → Option (List ℕ)
join_byte (some hi) (some lo) (some rest) = some ((hi * 16 + lo) ∷ rest)
join_byte _ _ _ = none

-- An odd number of digits, or another character, is an error.
unfoldable pub hex_decode : Text → Option (List ℕ)
unfolding hex_value join_byte
hex_decode [] = some []
hex_decode (c ∷ []) = none
hex_decode (c ∷ e ∷ s) = join_byte (hex_value c) (hex_value e) (hex_decode s)

abbrev pub IsByte : ℕ → Type 0
IsByte b = b < 256

value-digit : (n : ℕ) → n < 16 → hex_value (hex_digit n) ≡ some n
unfolding hex_value hex_digit
value-digit n small = ground arith

joined :
    (b : ℕ) (bytes : List ℕ)
    → join_byte (some (b / 16)) (some (b % 16)) (some bytes) ≡ some (b ∷ bytes)
unfolding join_byte
joined b bytes = ground arith

pub decode-encode : (bytes : List ℕ) → All IsByte bytes → hex_decode (hex_encode bytes) ≡ some bytes
unfolding hex_encode hex_decode
decode-encode [] small = refl
decode-encode (b ∷ bytes) (low, rest) =
    rw
      (
        value-digit (b / 16) (omega arith),
        value-digit (b % 16) (omega arith),
        decode-encode bytes rest,
      )
      (joined b bytes)

digit_apart : (n c : ℕ) → n < 16 → (c < 48) ⊎ (c ≡ b'_') → hex_digit n ≢ c
unfolding hex_digit
digit_apart n c small low = ground arith

-- No digit is below the digit 0 or an underscore.
pub hex_encode-NoneOf :
    (c : ℕ) (bytes : List ℕ)
    → (c < 48) ⊎ (c ≡ b'_')
    → All IsByte bytes
    → NoneOf c (hex_encode bytes)
unfolding hex_encode
hex_encode-NoneOf c [] low small = tt
hex_encode-NoneOf c (b ∷ bytes) low (first, rest) = (
  digit_apart (b / 16) c (omega arith) low,
  (digit_apart (b % 16) c (omega arith) low, hex_encode-NoneOf c bytes low rest),
)

pub length-hex_encode : (bytes : List ℕ) → length (hex_encode bytes) ≡ 2 * length bytes
unfolding hex_encode
length-hex_encode [] = refl
length-hex_encode (b ∷ bytes) = omega (arith, length-hex_encode bytes)
