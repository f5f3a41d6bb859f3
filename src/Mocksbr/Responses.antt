-- ===== src/Mocksbr/Responses.antt =====
-- mocksbr/responses.go: the reply builders.
pub mod GetData
pub mod Accepted
use go_udap.Prelude.{
  ℕ, ◌+◌, ◌*◌, ◌-◌, not, ◌&&◌, List, [], ◌∷◌, ◌++◌, Option, none, some, leb, ◌==◌, if◌then◌else◌,
  length, take, get_elem?,
}
use go_udap.Prelude.Bytes.{Bytes, codes, be16}
use go_udap.Prelude.Sort.{sort}
use go_udap.Go.Hex.{decode_string}
use go_udap.Udap.Mac.{Mac}
use go_udap.Udap.Tlv.{encode_tlv, type_error_message, max_tlv_value_length}
use go_udap.Udap.Packet.{
  Packet, encode_packet, addr_type_eth, type_ucp, uap_class_ucp, method_get_ip, method_reset,
  method_get_data, method_set_data, method_error, method_get_uuid,
}
use go_udap.Mocksbr.Device.{
  MockDevice, MalformedMode, malformed_oversized_count, malformed_length_exceeds_payload,
  malformed_unknown_method, read_key, state,
}
use go_udap.Mocksbr.Requests.{GetDataItem, parse_get_data_request}
use go_udap.Mocksbr.Values.{encode_param_value, ip4_bytes}

-- `hexNibble` of this package: zero for anything but a digit.
unfoldable pub nibble_or_zero : ℕ → ℕ
nibble_or_zero b =
    if leb b'0' b && leb b b'9'
    then b - b'0'
    else if leb b'a' b && leb b b'f'
    then b - b'a' + 10
    else if leb b'A' b && leb b b'F'
    then b - b'A' + 10
    else 0

-- A read at a position below the length, which the callers have checked.
pub char_at : Bytes → ℕ → ℕ
char_at s i = elim (get_elem? s i) [ none ↦ 0 | some c ↦ c ]

-- Both nibbles are below 16, so `(hi << 4) | lo` is a sum.
pub octet : Bytes → ℕ → ℕ
unfolding char_at nibble_or_zero
octet s i = nibble_or_zero (char_at s (i * 3)) * 16 + nibble_or_zero (char_at s (i * 3 + 1))

-- `parseMAC`. A text that is too short, on which the source panics, reads as zeros; the texts that it
-- is given have passed `validMAC`, or are made by `autoConfig`.
unfoldable pub parse_device_mac : Bytes → Mac
unfolding octet
parse_device_mac s = record {
  b0 = octet s 0;
  b1 = octet s 1;
  b2 = octet s 2;
  b3 = octet s 3;
  b4 = octet s 4;
  b5 = octet s 5;
}

-- `buildHeader`
unfoldable pub build_header : Packet → Bytes → ℕ → Packet
build_header req device_mac method = record {
  dst_broadcast = 0;
  dst_type = addr_type_eth;
  dst_address = req.src_address;
  src_broadcast = 0;
  src_type = addr_type_eth;
  src_address = parse_device_mac device_mac;
  sequence = req.sequence;
  udap_type = type_ucp;
  ucp_flags = 0;
  uap_class = uap_class_ucp;
  ucp_method = method;
}

-- `writeTLV`: the bytes that it appends; `take 255` is the truncation.
unfoldable pub write_tlv : ℕ → Bytes → Bytes
write_tlv tag value = tag ∷ length (take 255 value) ∷ take 255 value

unfoldable pub uuid_wire_bytes : Bytes → Bytes
uuid_wire_bytes uuid = elim (decode_string uuid) [ none ↦ uuid | some b ↦ b ]

unfoldable pub build_discovery_response : Packet → MockDevice → Bytes
build_discovery_response req d =
    encode_packet (build_header req d.cfg.mac req.ucp_method)
    ++ (write_tlv 0x0c (state d)
        ++ (write_tlv 0x0b d.cfg.device_id
            ++ (write_tlv 0x0a d.cfg.hardware
                ++ (write_tlv 0x09 d.cfg.firmware
                    ++ (write_tlv 0x03 d.cfg.model
                        ++ (write_tlv 0x02 (read_key (codes "hostname") d.working_memory)
                            ++ (if not (length d.cfg.uuid == 0) && not d.cfg.suppress_discovery_uuid
                                then write_tlv 0x0d (uuid_wire_bytes d.cfg.uuid)
                                else [])))))))

-- The requested items, with the values of the working memory.
unfoldable pub requested_items : MockDevice → List GetDataItem → Bytes
requested_items d [] = []
requested_items d (it ∷ its) =
    be16 it.offset
    ++ (be16 it.len
        ++ (encode_param_value it.len (read_key it.name d.working_memory) ++ requested_items d its))

unfoldable pub unknown_items : List (ℕ × Bytes) → Bytes
unknown_items [] = []
unknown_items ((offset, value) ∷ its) =
    be16 offset ++ (be16 (length value) ++ (value ++ unknown_items its))

abbrev unknown_method : ℕ
unknown_method = 0x9999

-- The payload by the malformed mode.
unfoldable pub get_data_body : MalformedMode → MockDevice → List GetDataItem → Bytes
get_data_body malformed_oversized_count d items = be16 0xFFFF
get_data_body malformed_length_exceeds_payload d items = be16 1 ++ (be16 0 ++ be16 1000)
get_data_body _ d items =
    be16 (length items + length d.cfg.unknown_offsets)
    ++ (requested_items d items
        ++ unknown_items (sort (λ (e : ℕ × Bytes). e.0) d.cfg.unknown_offsets))

unfoldable pub get_data_method : MalformedMode → ℕ
get_data_method malformed_unknown_method = unknown_method
get_data_method _ = method_get_data

unfoldable pub build_get_data_response : Packet → Bytes → MockDevice → Bytes
build_get_data_response req payload d =
    encode_packet (build_header req d.cfg.mac (get_data_method d.cfg.malformed))
    ++ get_data_body d.cfg.malformed d (parse_get_data_request payload)

unfoldable pub build_set_data_ack : Packet → ℕ → MockDevice → Bytes
build_set_data_ack req accepted d =
    encode_packet (build_header req d.cfg.mac method_set_data) ++ be16 accepted

unfoldable pub build_reset_ack : Packet → MockDevice → Bytes
build_reset_ack req d = encode_packet (build_header req d.cfg.mac method_reset)

-- The message is cut to what one entry can hold.
unfoldable pub build_error_response : Packet → Bytes → MockDevice → Bytes
build_error_response req message d =
    let text = take max_tlv_value_length message in
    encode_packet (build_header req d.cfg.mac method_error)
    ++ encode_tlv (record { type = type_error_message; len = length text; value = text } ∷ [])

abbrev zeros_if_none : Option Bytes → Bytes
zeros_if_none none = 0 ∷ 0 ∷ 0 ∷ 0 ∷ []
zeros_if_none (some s) = s

-- `writeIPTLV`; the empty text is no address either.
unfoldable pub write_ip_tlv : ℕ → Bytes → Bytes
write_ip_tlv tag s = tag ∷ 4 ∷ zeros_if_none (ip4_bytes s)

unfoldable pub build_get_ip_response : Packet → MockDevice → Bytes
build_get_ip_response req d =
    encode_packet (build_header req d.cfg.mac method_get_ip)
    ++ (write_ip_tlv 5 d.cfg.ip
        ++ (write_ip_tlv 6 d.cfg.subnet_mask ++ write_ip_tlv 7 d.cfg.gateway))

unfoldable pub build_get_uuid_response : Packet → MockDevice → Bytes
build_get_uuid_response req d =
    encode_packet (build_header req d.cfg.mac method_get_uuid)
    ++ write_tlv 0x0d (uuid_wire_bytes d.cfg.uuid)
