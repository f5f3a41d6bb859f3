-- ===== src/Udap/GetData.antt =====
-- udap/getdata_response.go: `parseGetDataResponse`.
pub mod Items
use go_udap.Prelude.{
  ℕ, zero, suc, ◌+◌, ◌≡◌, refl, [], ◌∷◌, ◌++◌, Option, none, some, ltb, if◌then◌else◌, length, take,
  drop, Result, ok, err,
}
use go_udap.Prelude.Bytes.{Bytes, codes, from_be16, bytes_eq}
use go_udap.Prelude.Dict.{Dict, put}
use go_udap.Go.Hex.{encode_to_string, hex_digit}
use go_udap.Go.Strconv.{format_uint}
use go_udap.Udap.Parameters.Table.{config_param_by_offset}
use go_udap.Udap.Parameters.Codec.{format_get_data_value}

-- The errors, with the number of the item that the message names.
pub data GetDataError : Type 0 where
  payload_too_short : ℕ → GetDataError
  truncated_header : ℕ → GetDataError
  item_exceeds_payload : ℕ → ℕ → ℕ → GetDataError

-- What an item adds to the result: a known offset is filed under its parameter's name, any other
-- under `offset_<decimal>` with its bytes in hexadecimal.
unfoldable pub file_item : ℕ → Bytes → Dict Bytes → Dict Bytes
file_item ofs value out = elim (config_param_by_offset ofs) [
  | none ↦ put (codes "offset_" ++ format_uint ofs) (encode_to_string value) out
  | some name ↦ put name (format_get_data_value value) out
]

-- The loop: the items left, the number of the next one, and the bytes from `pos` on.
unfoldable pub read_items : ℕ → ℕ → Bytes → Dict Bytes → Result GetDataError (Dict Bytes)
read_items zero i rest out = ok out
read_items (suc n) i (o0 ∷ o1 ∷ l0 ∷ l1 ∷ rest) out =
    let ofs = from_be16 o0 o1 in
    let ln = from_be16 l0 l1 in
    let more = read_items n (suc i) (drop ln rest) (file_item ofs (take ln rest) out) in
    if ltb (length rest) ln then err (item_exceeds_payload i ofs ln) else more
read_items (suc n) i rest out = err (truncated_header i)

unfoldable pub parse_get_data_response : Bytes → Result GetDataError (Dict Bytes)
parse_get_data_response (c0 ∷ c1 ∷ rest) = read_items (from_be16 c0 c1) 0 rest []
parse_get_data_response buf = err (payload_too_short (length buf))

response_tests :
    (parse_get_data_response (0 ∷ 2 ∷ 0 ∷ 4 ∷ 0 ∷ 1 ∷ 1 ∷ 0 ∷ 6 ∷ 0 ∷ 1 ∷ 171 ∷ [])
      ≡ ok ((codes "lan_ip_mode", codes "1") ∷ (codes "offset_6", codes "ab") ∷ []))
    × (parse_get_data_response (255 ∷ 255 ∷ []) ≡ err (truncated_header 0))
    × (parse_get_data_response (0 ∷ 1 ∷ 0 ∷ 0 ∷ 3 ∷ 232 ∷ []) ≡ err (item_exceeds_payload 0 0 1000))
unfolding parse_get_data_response read_items file_item config_param_by_offset format_get_data_value
    format_uint encode_to_string put bytes_eq hex_digit
response_tests = (refl, refl, refl)
