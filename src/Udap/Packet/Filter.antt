-- ===== src/Udap/Packet/Filter.antt =====
-- The loopback filter on whole headers.
use go_udap.Prelude.{◌≡◌, ◌++◌, ◌==◌, ◌%◌, not, length, arith}
use go_udap.Prelude.Bytes.{Bytes}
use go_udap.Udap.Packet.{Packet, encode_packet, is_udap_request_packet}

-- A packet with a whole header counts as a request exactly if the lowest bit of its flags is set.
pub is_udap_request_packet-encode_packet :
    (p : Packet) (rest : Bytes)
    → is_udap_request_packet (encode_packet p ++ rest) (length (encode_packet p ++ rest))
      ≡ not (p.ucp_flags % 2 == 0)
unfolding is_udap_request_packet encode_packet
is_udap_request_packet-encode_packet p rest = ground arith
