-- ===== src/Udap/Mac.antt =====
-- udap/mac.go: the MAC value object, its parser and its print.
pub mod RoundTrip
use go_udap.Prelude.{
  ℕ, ◌+◌, ◌-◌, ◌*◌, ◌/◌, ◌%◌, ◌≡◌, refl, Bool, true, false, ◌&&◌, not, [], ◌∷◌, Option, none, some,
  ltb, leb, ◌==◌, if◌then◌else◌, length, get_elem?, Result, ok, err, ◌>>=◌,
}
use go_udap.Prelude.Bytes.{Bytes, IsByte, codes, bytes_eq}
use go_udap.Go.Hex.{hex_digit}

-- `[6]byte`
pub record Mac : Type 0 where
  pub b0 : ℕ
  pub b1 : ℕ
  pub b2 : ℕ
  pub b3 : ℕ
  pub b4 : ℕ
  pub b5 : ℕ

abbrev pub mac_bytes : Mac → Bytes
mac_bytes m = m.b0 ∷ m.b1 ∷ m.b2 ∷ m.b3 ∷ m.b4 ∷ m.b5 ∷ []

pub record IsMac (m : Mac) : Type 0 where
  pub r0 : IsByte m.b0
  pub r1 : IsByte m.b1
  pub r2 : IsByte m.b2
  pub r3 : IsByte m.b3
  pub r4 : IsByte m.b4
  pub r5 : IsByte m.b5

abbrev pub zero_mac : Mac
zero_mac = record { b0 = 0; b1 = 0; b2 = 0; b3 = 0; b4 = 0; b5 = 0 }

-- Go's `==` on arrays.
unfoldable pub mac_eq : Mac → Mac → Bool
unfolding bytes_eq
mac_eq m n = bytes_eq (mac_bytes m) (mac_bytes n)

unfoldable pub is_zero : Mac → Bool
unfolding mac_eq
is_zero m = mac_eq m zero_mac

-- The errors of `ParseMAC`, with the position that the message names.
pub data MacError : Type 0 where
  wrong_length : ℕ → MacError
  non_hex_digit : ℕ → MacError
  missing_colon : ℕ → MacError

-- `hexNibble`; `none` is its false.
unfoldable pub hex_nibble : ℕ → Option ℕ
hex_nibble c =
    if leb b'0' c && leb c b'9'
    then some (c - b'0')
    else if leb b'a' c && leb c b'f'
    then some (c - b'a' + 10)
    else if leb b'A' c && leb c b'F'
    then some (c - b'A' + 10)
    else none

-- `s[i]`; the parser reads only positions below the length that it has checked.
byte_at : Bytes → ℕ → ℕ
byte_at s i = elim (get_elem? s i) [ none ↦ 0 | some c ↦ c ]

nibble_at : Bytes → ℕ → Result MacError ℕ
unfolding hex_nibble byte_at
nibble_at s i = elim (hex_nibble (byte_at s i)) [ none ↦ err (non_hex_digit i) | some v ↦ ok v ]

-- One round of the loop. Both nibbles are below 16, so `hi<<4 | lo` is a sum.
octet_at : Bytes → ℕ → Result MacError ℕ
octet_at s i = do
  hi ← nibble_at s (i * 3)
  lo ← nibble_at s (i * 3 + 1)
  if ltb i 5 && not (byte_at s (i * 3 + 2) == b':')
      then err (missing_colon (i * 3 + 2))
      else ok (hi * 16 + lo)

octets : Bytes → Result MacError Mac
octets s = do
  b0 ← octet_at s 0
  b1 ← octet_at s 1
  b2 ← octet_at s 2
  b3 ← octet_at s 3
  b4 ← octet_at s 4
  b5 ← octet_at s 5
  ok (record { b0 = b0; b1 = b1; b2 = b2; b3 = b3; b4 = b4; b5 = b5 })

unfoldable pub parse_mac : Bytes → Result MacError Mac
unfolding octets octet_at nibble_at
parse_mac s = if not (length s == 17) then err (wrong_length (length s)) else octets s

unfoldable pub is_valid_mac : Bytes → Bool
is_valid_mac s = elim (parse_mac s) [ ok m ↦ true | err e ↦ false ]

-- `MAC.String`
unfoldable pub mac_string : Mac → Bytes
mac_string m =
    hex_digit (m.b0 / 16)
    ∷ hex_digit (m.b0 % 16)
    ∷ b':'
    ∷ hex_digit (m.b1 / 16)
    ∷ hex_digit (m.b1 % 16)
    ∷ b':'
    ∷ hex_digit (m.b2 / 16)
    ∷ hex_digit (m.b2 % 16)
    ∷ b':'
    ∷ hex_digit (m.b3 / 16)
    ∷ hex_digit (m.b3 % 16)
    ∷ b':'
    ∷ hex_digit (m.b4 / 16)
    ∷ hex_digit (m.b4 % 16)
    ∷ b':'
    ∷ hex_digit (m.b5 / 16)
    ∷ hex_digit (m.b5 % 16)
    ∷ []

parse_mac_tests :
    (parse_mac (codes "00:04:20:16:0A:ff")
      ≡ ok (record { b0 = 0; b1 = 4; b2 = 32; b3 = 22; b4 = 10; b5 = 255 }))
    × (parse_mac (codes "00:04:20:16:0A-ff") ≡ err (missing_colon 14))
    × (parse_mac (codes "00:04:20:16:0g:ff") ≡ err (non_hex_digit 13))
    × (parse_mac (codes "00:04:20") ≡ err (wrong_length 8))
unfolding parse_mac
parse_mac_tests = (refl, refl, refl, refl)

-- `MarshalText`, which never fails.
unfoldable marshal_text : Mac → Bytes
marshal_text m = mac_string m

-- `UnmarshalText`: a text that is rejected leaves the MAC as it was.
unfoldable unmarshal_text : Bytes → Mac → Option MacError × Mac
unmarshal_text data_ m = elim (parse_mac data_) [ err e ↦ (some e, m) | ok parsed ↦ (none, parsed) ]

-- `MustParseMAC`; a panic is `none`.
unfoldable must_parse_mac : Bytes → Option Mac
must_parse_mac s = elim (parse_mac s) [ err e ↦ none | ok m ↦ some m ]
