-- ===== src/Examples/Messages.antt =====
-- Replies at concrete inputs: the items of a GetData response.
use go_udap.Prelude.{◌≡◌, ◌<◌, List, [], ◌∷◌, ◌++◌, length, ok, All, arith, ◌↔◌}
use go_udap.Prelude.Bytes.{Bytes, AreBytes, be16, codes}
use go_udap.Prelude.Dict.{Dict}
use go_udap.Udap.Tlv.{decode_tlv}
use go_udap.Udap.GetIp.{parse_get_ip_response, tlv_ip_addr, tlv_subnet_mask, tlv_gateway_addr}
use go_udap.Udap.GetIp.Fields.{last_address, parse_get_ip_response_fields}
use go_udap.Udap.GetData.{parse_get_data_response}
use go_udap.Udap.GetData.Items.{Item, IsItem, encode_items, file_items, parse_get_data_response_iff}

-- Two items, one for a known offset and one for an unknown one.
abbrev items_wire : Bytes
items_wire = 0 ∷ 2 ∷ 0 ∷ 4 ∷ 0 ∷ 1 ∷ 1 ∷ 0 ∷ 1 ∷ 0 ∷ 2 ∷ 1 ∷ 44 ∷ []

items_wire-AreBytes : AreBytes items_wire
items_wire-AreBytes = ground arith

abbrev items_read : Dict Bytes
items_read = (codes "lan_ip_mode", codes "1") ∷ (codes "offset_1", codes "300") ∷ []

parse_get_data_response_iff_example : (parse_get_data_response items_wire ≡ ok items_read) ↔ (
    (its : List Item) × (rest : Bytes) × (length its < 65536)
    × All IsItem its
    × (items_wire ≡ be16 (length its) ++ (encode_items its ++ rest))
    × (items_read ≡ file_items its []))
parse_get_data_response_iff_example =
    parse_get_data_response_iff items_wire items_read items_wire-AreBytes

-- An address entry, a mask entry, a second address entry, and a UUID.
abbrev ip_wire : Bytes
ip_wire = 5 ∷ 4 ∷ 10 ∷ 0 ∷ 0 ∷ 7 ∷ 6 ∷ 4 ∷ 255 ∷ 255 ∷ 0 ∷ 0 ∷ 5 ∷ 4 ∷ 10 ∷ 0 ∷ 0 ∷ 8 ∷ []

parse_get_ip_response_fields_example : parse_get_ip_response ip_wire ≡ record {
  ip = last_address tlv_ip_addr (decode_tlv ip_wire) [];
  subnet_mask = last_address tlv_subnet_mask (decode_tlv ip_wire) [];
  gateway = last_address tlv_gateway_addr (decode_tlv ip_wire) [];
}
parse_get_ip_response_fields_example = parse_get_ip_response_fields ip_wire
