-- ===== src/Udap/GetUuid.antt =====
-- udap/getuuid.go: `parseGetUUIDResponse`.
pub mod First
use go_udap.Prelude.{
  ℕ, zero, suc, ◌≡◌, refl, ◌&&◌, [], ◌∷◌, Option, none, some, ltb, ◌==◌, if◌then◌else◌, length,
  take, drop,
}
use go_udap.Prelude.Bytes.{Bytes}
use go_udap.Go.Hex.{encode_to_string}

abbrev pub tlv_uuid_resp : ℕ
tlv_uuid_resp = 13

-- The scan returns at the first entry of the code that has 16 bytes; `none` is the error.
unfoldable pub uuid_loop : ℕ → Bytes → Option Bytes
uuid_loop zero rest = none
uuid_loop (suc fuel) [] = none
uuid_loop (suc fuel) (t ∷ []) = none
uuid_loop (suc fuel) (t ∷ l ∷ rest) =
    let more = uuid_loop fuel (drop l rest) in
    if ltb (length rest) l
    then none
    else if (t == tlv_uuid_resp) && (l == 16)
    then some (encode_to_string (take l rest))
    else more

unfoldable pub parse_get_uuid_response : Bytes → Option Bytes
unfolding uuid_loop
parse_get_uuid_response buf = uuid_loop (length buf) buf
