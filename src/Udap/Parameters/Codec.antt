-- ===== src/Udap/Parameters/Codec.antt =====
-- `Parameter.Encode` of udap/parameters.go and `formatGetDataValue` of udap/getdata_response.go.
use go_udap.Prelude.{
  ℕ, ◌-◌, ◌≡◌, refl, [], ◌∷◌, ◌++◌, none, some, ◌==◌, if◌then◌else◌, length, take, replicate,
  Result, ok, err,
}
use go_udap.Prelude.Bytes.{Bytes, codes, be16, from_be16}
use go_udap.Go.Strconv.{parse_uint, format_uint}
use go_udap.Go.NetIp.{parse_ip, to4, format_ip4}
use go_udap.Udap.Parameters.Table.{Parameter}

pub data EncodeError : Type 0 where
  not_uint8 : Bytes → EncodeError
  not_uint16 : Bytes → EncodeError
  cannot_parse_ip : Bytes → EncodeError
  not_ipv4 : Bytes → EncodeError

-- `out := make([]byte, n); copy(out, s)`
unfoldable pub copy_to : ℕ → Bytes → Bytes
copy_to n s = take n s ++ replicate (n - length s) 0

unfoldable pub encode_uint8 : Bytes → Result EncodeError Bytes
encode_uint8 s = elim (parse_uint 255 s) [ none ↦ err (not_uint8 s) | some n ↦ ok (n ∷ []) ]

unfoldable pub encode_uint16 : Bytes → Result EncodeError Bytes
encode_uint16 s = elim (parse_uint 65535 s) [ none ↦ err (not_uint16 s) | some n ↦ ok (be16 n) ]

unfoldable pub encode_ip : Bytes → Result EncodeError Bytes
encode_ip s = elim (parse_ip s) [
  | none ↦ err (cannot_parse_ip s)
  | some ip ↦ elim (to4 ip) [ none ↦ err (not_ipv4 s) | some ip4 ↦ ok (copy_to 4 ip4) ]
]

-- `Parameter.Encode`
unfoldable pub encode : Parameter → Bytes → Result EncodeError Bytes
encode p value =
    if p.len == 1
    then encode_uint8 value
    else if p.len == 2
    then encode_uint16 value
    else if p.len == 4
    then encode_ip value
    else ok (copy_to p.len value)

-- The bytes in front of the first NUL.
unfoldable pub trim_nul : Bytes → Bytes
trim_nul [] = []
trim_nul (b ∷ s) = if b == 0 then [] else b ∷ trim_nul s

-- `formatGetDataValue`
unfoldable pub format_get_data_value : Bytes → Bytes
format_get_data_value (a ∷ []) = format_uint a
format_get_data_value (a ∷ b ∷ []) = format_uint (from_be16 a b)
format_get_data_value (a ∷ b ∷ c ∷ d ∷ []) = format_ip4 a b c d
format_get_data_value value = trim_nul value

encode_tests :
    (encode_uint8 (codes "007") ≡ ok (7 ∷ []))
    × (encode_ip (codes "::ffff:10.0.0.1") ≡ ok (10 ∷ 0 ∷ 0 ∷ 1 ∷ []))
    × (encode_ip (codes "10.0.0.256") ≡ err (cannot_parse_ip (codes "10.0.0.256")))
    × (encode_ip (codes "::1") ≡ err (not_ipv4 (codes "::1")))
unfolding encode_uint8 encode_ip copy_to parse_uint parse_ip to4
encode_tests = (refl, refl, refl, refl)
