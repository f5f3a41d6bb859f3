-- ===== src/Examples/Wire.antt =====
-- The wire formats of the client at concrete inputs: MAC addresses, headers, TLVs, parameter values.
use go_udap.Prelude.{◌≡◌, refl, List, [], ◌∷◌, ◌++◌, length, ok, All, arith, ◌↔◌}
use go_udap.Prelude.Bytes.{Bytes, AreBytes, codes}
use go_udap.Go.Strings.{to_lower}
use go_udap.Udap.Mac.{Mac, IsMac, parse_mac, mac_string}
use go_udap.Udap.Mac.RoundTrip.{mac_string-parse_mac}
use go_udap.Udap.Tlv.{Tlv, encode_tlv, decode_tlv}
use go_udap.Udap.Tlv.RoundTrip.{IsTlv, IsTruncated, decode_tlv_iff}
use go_udap.Udap.Packet.{
  Packet, IsPacket, parse_packet, encode_packet, type_ucp, method_get_data, uap_class_ucp,
  read_header,
}
use go_udap.Udap.Packet.RoundTrip.{parse_packet-encode_packet, encode_packet-parse_packet}
use go_udap.Udap.Parameters.Table.{Parameter}
use go_udap.Go.NetIp.{parse_ip, to4}
use go_udap.Udap.Parameters.Codec.{encode, encode_ip, copy_to, format_get_data_value}
use go_udap.Udap.Parameters.RoundTrip.{length-encode}
use go_udap.Udap.Parameters.Canonical.{LacksNul, encode-format_get_data_value}

abbrev receiver : Mac
receiver = record { b0 = 0; b1 = 4; b2 = 32; b3 = 22; b4 = 5; b5 = 143 }

receiver-IsMac : IsMac receiver
receiver-IsMac = record {
  r0 = omega arith;
  r1 = omega arith;
  r2 = omega arith;
  r3 = omega arith;
  r4 = omega arith;
  r5 = omega arith;
}

upper_accepted : parse_mac (codes "00:04:20:16:05:8F") ≡ ok receiver
unfolding parse_mac
upper_accepted = refl

mac_string-parse_mac_example :
    IsMac receiver × (mac_string receiver ≡ to_lower (codes "00:04:20:16:05:8F"))
mac_string-parse_mac_example =
    mac_string-parse_mac (codes "00:04:20:16:05:8F") receiver upper_accepted

-- Two entries and half of a third.
abbrev two_entries : Bytes
two_entries = 2 ∷ 3 ∷ 65 ∷ 66 ∷ 67 ∷ 9 ∷ 0 ∷ 11 ∷ []

abbrev two_tlvs : List Tlv
two_tlvs =
    record { type = 2; len = 3; value = 65 ∷ 66 ∷ 67 ∷ [] }
    ∷ record { type = 9; len = 0; value = [] }
    ∷ []

decode_tlv_iff_example : (decode_tlv two_entries ≡ two_tlvs) ↔ (
    All IsTlv two_tlvs
    × ((rest : Bytes) × (two_entries ≡ encode_tlv two_tlvs ++ rest) × IsTruncated rest))
decode_tlv_iff_example = decode_tlv_iff two_entries two_tlvs

two_entries-AreBytes : AreBytes two_entries
two_entries-AreBytes = ground arith

abbrev request : Packet
request = record {
  dst_broadcast = 0;
  dst_type = 1;
  dst_address = receiver;
  src_broadcast = 0;
  src_type = 2;
  src_address = record { b0 = 0; b1 = 0; b2 = 0; b3 = 0; b4 = 0; b5 = 0 };
  sequence = 513;
  udap_type = type_ucp;
  ucp_flags = 1;
  uap_class = uap_class_ucp;
  ucp_method = method_get_data;
}

request-IsPacket : IsPacket request
request-IsPacket = record {
  dst_broadcast = omega arith;
  dst_type = omega arith;
  dst_address = receiver-IsMac;
  src_broadcast = omega arith;
  src_type = omega arith;
  src_address = record {
    r0 = omega arith;
    r1 = omega arith;
    r2 = omega arith;
    r3 = omega arith;
    r4 = omega arith;
    r5 = omega arith;
  };
  sequence = omega arith;
  udap_type = omega arith;
  ucp_flags = omega arith;
  class0 = omega arith;
  class1 = omega arith;
  class2 = omega arith;
  class3 = omega arith;
  ucp_method = omega arith;
}

parse_packet-encode_packet_example :
    parse_packet (encode_packet request ++ (7 ∷ 8 ∷ [])) ≡ ok (request, 7 ∷ 8 ∷ [])
parse_packet-encode_packet_example =
    parse_packet-encode_packet request (7 ∷ 8 ∷ []) request-IsPacket refl

abbrev wire : Bytes
wire =
    0 ∷ 1 ∷ 0 ∷ 4 ∷ 32 ∷ 22 ∷ 5 ∷ 143 ∷ 0 ∷ 2 ∷ 0 ∷ 0 ∷ 0 ∷ 0 ∷ 0 ∷ 0 ∷ 2 ∷ 1 ∷ 192 ∷ 1 ∷ 1 ∷ 0 ∷ 1
    ∷ 0 ∷ 1 ∷ 0 ∷ 5 ∷ 99 ∷ []

wire-AreBytes : AreBytes wire
wire-AreBytes = ground arith

wire_accepted : parse_packet wire ≡ ok (request, 99 ∷ [])
unfolding parse_packet read_header
wire_accepted = refl

encode_packet-parse_packet_example :
    IsPacket request × (request.udap_type ≡ type_ucp) × (wire ≡ encode_packet request ++ (99 ∷ []))
encode_packet-parse_packet_example =
    encode_packet-parse_packet wire (99 ∷ []) request wire-AreBytes wire_accepted

abbrev address_wire : Bytes
address_wire = 10 ∷ 0 ∷ 0 ∷ 7 ∷ []

abbrev dns : Parameter
dns = record {
  name = codes "primary_dns";
  offset = 59;
  len = 4;
  placeholder = [];
  help = [];
  factory_default = [];
}

dns_encodes : encode dns (codes "10.0.0.7") ≡ ok address_wire
unfolding encode encode_ip parse_ip to4 copy_to
dns_encodes = refl

address-AreBytes : AreBytes (codes "10.0.0.7")
address-AreBytes = ground arith

address-LacksNul : LacksNul (codes "10.0.0.7")
address-LacksNul = ground arith

length-encode_example : (length address_wire ≡ dns.len) × AreBytes address_wire
length-encode_example =
    length-encode dns (codes "10.0.0.7") address_wire address-AreBytes dns_encodes

encode-format_get_data_value_example :
    encode dns (format_get_data_value address_wire) ≡ ok address_wire
encode-format_get_data_value_example =
    encode-format_get_data_value dns (codes "10.0.0.7") address_wire address-LacksNul dns_encodes
