-- ===== src/Go/Hex.antt =====
-- `encoding/hex`: `EncodeToString`, `DecodeString`, and the digits that `%x` prints.
use go_udap.Prelude.{
  ℕ, zero, suc, ◌+◌, ◌-◌, ◌*◌, ◌/◌, ◌%◌, ◌<◌, ◌≡◌, refl, ◌&&◌, [], ◌∷◌, Option, none, some, arith,
  ltb, leb, if◌then◌else◌, length,
}
use go_udap.Prelude.Bytes.{Bytes, AreBytes, codes}

get_or : Bytes → ℕ → ℕ → ℕ
get_or [] i d = d
get_or (x ∷ xs) zero d = x
get_or (x ∷ xs) (suc i) d = get_or xs i d

-- The lower-case digit of a value below 16.
unfoldable pub hex_digit : ℕ → ℕ
unfolding get_or
hex_digit n = get_or (codes "0123456789abcdef") n 0

-- The digits are "0" to "9" and then "a" to "f".
pub hex_digit_lem : (n : ℕ) → n < 16 → hex_digit n ≡ (if ltb n 10 then 48 + n else 87 + n)
unfolding hex_digit
hex_digit_lem n h = ground arith

-- The value of a hexadecimal digit of either case.
unfoldable pub hex_value : ℕ → Option ℕ
hex_value c =
    if leb b'0' c && leb c b'9'
    then some (c - b'0')
    else if leb b'a' c && leb c b'f'
    then some (c - b'a' + 10)
    else if leb b'A' c && leb c b'F'
    then some (c - b'A' + 10)
    else none

pub hex_value-hex_digit : (n : ℕ) → n < 16 → hex_value (hex_digit n) ≡ some n
unfolding hex_value
hex_value-hex_digit n h = ground (arith, hex_digit_lem n h)

unfoldable pub encode_to_string : Bytes → Bytes
encode_to_string [] = []
encode_to_string (b ∷ bs) = hex_digit (b / 16) ∷ hex_digit (b % 16) ∷ encode_to_string bs

-- `none` on an odd length or a byte that is no digit.
unfoldable pub decode_string : Bytes → Option Bytes
decode_string [] = some []
decode_string (c ∷ []) = none
decode_string (c ∷ d ∷ s) = elim (hex_value c) [
  | none ↦ none
  | some hi ↦ elim (hex_value d) [
    | none ↦ none
    | some lo ↦ elim (decode_string s) [ none ↦ none | some bs ↦ some ((hi * 16 + lo) ∷ bs) ]
  ]
]

pub decode_string-encode_to_string :
    (bs : Bytes) → AreBytes bs → decode_string (encode_to_string bs) ≡ some bs
unfolding encode_to_string decode_string
decode_string-encode_to_string [] h = refl
decode_string-encode_to_string (b ∷ bs) (hb, h) = ground (
  arith,
  hex_value-hex_digit (b / 16) (omega arith),
  hex_value-hex_digit (b % 16) (omega arith),
  decode_string-encode_to_string bs h,
)

pub length-encode_to_string : (bs : Bytes) → length (encode_to_string bs) ≡ 2 * length bs
unfolding encode_to_string
length-encode_to_string [] = omega arith
length-encode_to_string (b ∷ bs) = omega (arith, length-encode_to_string bs)
