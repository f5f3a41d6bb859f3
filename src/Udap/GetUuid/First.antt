-- ===== src/Udap/GetUuid/First.antt =====
-- The UUID is that of the first fitting entry.
use go_udap.Prelude.{
  ℕ, zero, suc, ◌≡◌, refl, ◌&&◌, List, [], ◌∷◌, Option, none, some, ◌==◌, if◌then◌else◌, length,
  drop, arith,
}
use go_udap.Prelude.Bytes.{Bytes}
use go_udap.Go.Hex.{encode_to_string}
use go_udap.Udap.Tlv.{Tlv, decode_loop, decode_tlv}
use go_udap.Udap.GetUuid.{tlv_uuid_resp, uuid_loop, parse_get_uuid_response}

-- The bytes of the first entry with the UUID's code that declares 16 bytes.
abbrev pub first_uuid : List Tlv → Option Bytes
first_uuid [] = none
first_uuid (t ∷ ts) =
    if (t.type == tlv_uuid_resp) && (t.len == 16)
    then some (encode_to_string t.value)
    else first_uuid ts

uuid_loop-first : (fuel : ℕ) (buf : Bytes) → uuid_loop fuel buf ≡ first_uuid (decode_loop fuel buf)
unfolding uuid_loop decode_loop
uuid_loop-first zero buf = refl
uuid_loop-first (suc fuel) [] = refl
uuid_loop-first (suc fuel) (t ∷ []) = refl
uuid_loop-first (suc fuel) (t ∷ l ∷ buf) = ground (arith, uuid_loop-first fuel (drop l buf))

-- The parsed UUID is the hexadecimal print of the first entry, among those that `DecodeTLV`
-- returns, that has the UUID's code and 16 bytes; without such an entry the parser fails.
pub parse_get_uuid_response_first :
    (buf : Bytes) → parse_get_uuid_response buf ≡ first_uuid (decode_tlv buf)
unfolding parse_get_uuid_response decode_tlv
parse_get_uuid_response_first buf = uuid_loop-first (length buf) buf
