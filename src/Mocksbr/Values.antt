-- ===== src/Mocksbr/Values.antt =====
-- mocksbr/responses.go: the value codec of the virtual device.
pub mod Agree
use go_udap.Prelude.{ℕ, [], ◌∷◌, Option, none, some, ◌==◌, if◌then◌else◌, replicate}
use go_udap.Prelude.Bytes.{Bytes, be16, from_be16}
use go_udap.Go.Strconv.{parse_uint, format_uint}
use go_udap.Go.NetIp.{parse_ip, to4, format_ip4}
use go_udap.Udap.Parameters.Codec.{copy_to, trim_nul}

abbrev or_zeros : ℕ → Option Bytes → Bytes
or_zeros n none = replicate n 0
or_zeros n (some s) = s

unfoldable pub ip4_bytes : Bytes → Option Bytes
ip4_bytes s = elim (parse_ip s) [
  | none ↦ none
  | some ip ↦ elim (to4 ip) [ none ↦ none | some ip4 ↦ some (copy_to 4 ip4) ]
]

-- `encodeParamValue`: a value that cannot be parsed gives zeros.
unfoldable pub encode_param_value : ℕ → Bytes → Bytes
encode_param_value len value =
    if len == 1
    then elim (parse_uint 255 value) [ none ↦ replicate len 0 | some n ↦ n ∷ [] ]
    else if len == 2
    then elim (parse_uint 65535 value) [ none ↦ replicate len 0 | some n ↦ be16 n ]
    else if len == 4
    then or_zeros len (ip4_bytes value)
    else copy_to len value

-- `decodeParamValue`; `trim_nul` is the same loop as in the client.
unfoldable pub decode_param_value : Bytes → Bytes
decode_param_value (a ∷ []) = format_uint a
decode_param_value (a ∷ b ∷ []) = format_uint (from_be16 a b)
decode_param_value (a ∷ b ∷ c ∷ d ∷ []) = format_ip4 a b c d
decode_param_value value = trim_nul value
