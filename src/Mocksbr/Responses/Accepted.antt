-- ===== src/Mocksbr/Responses/Accepted.antt =====
-- The headers of the virtual device's replies, as the client reads them.
use go_udap.Prelude.{
  ℕ, ◌+◌, ◌*◌, ◌<◌, ◌≡◌, refl, sym, ◌∙◌, ap, [], ◌++◌, false, not, some, ◌==◌, ◌%◌, length, arith,
  ◌⊎◌,
}
use go_udap.Prelude.Bytes.{Bytes}
use go_udap.Udap.Mac.{IsMac}
use go_udap.Udap.Packet.{Packet, IsPacket, encode_packet, is_udap_request_packet, type_ucp}
use go_udap.Udap.Packet.RoundTrip.{parse_packet-encode_packet}
use go_udap.Udap.Packet.Filter.{is_udap_request_packet-encode_packet}
use go_udap.Udap.Discovery.{Device}
use go_udap.Udap.Operations.{match_reply}
use go_udap.Udap.Operations.Wait.{match_reply_iff}
use go_udap.Mocksbr.Responses.{octet, char_at, nibble_or_zero, parse_device_mac, build_header}

nibble_lt : (b : ℕ) → nibble_or_zero b < 16
unfolding nibble_or_zero
nibble_lt b = ground arith

octet-lt : (s : Bytes) (i : ℕ) → octet s i < 256
unfolding octet
octet-lt s i = omega (arith, nibble_lt (char_at s (i * 3)), nibble_lt (char_at s (i * 3 + 1)))

parse_device_mac-IsMac : (s : Bytes) → IsMac (parse_device_mac s)
unfolding parse_device_mac
parse_device_mac-IsMac s = record {
  r0 = octet-lt s 0;
  r1 = octet-lt s 1;
  r2 = octet-lt s 2;
  r3 = octet-lt s 3;
  r4 = octet-lt s 4;
  r5 = octet-lt s 5;
}

build_header-IsPacket :
    (req : Packet) (mac : Bytes) (method : ℕ)
    → IsPacket req
    → method < 65536
    → IsPacket (build_header req mac method)
unfolding build_header
build_header-IsPacket req mac method v h = record {
  dst_broadcast = omega arith;
  dst_type = omega arith;
  dst_address = v.src_address;
  src_broadcast = omega arith;
  src_type = omega arith;
  src_address = parse_device_mac-IsMac mac;
  sequence = v.sequence;
  udap_type = omega arith;
  ucp_flags = omega arith;
  class0 = omega arith;
  class1 = omega arith;
  class2 = omega arith;
  class3 = omega arith;
  ucp_method = h;
}

header_fields :
    (req : Packet) (mac : Bytes) (method : ℕ)
    → ((build_header req mac method).udap_type ≡ type_ucp)
      × ((build_header req mac method).ucp_flags ≡ 0)
      × ((build_header req mac method).src_address ≡ parse_device_mac mac)
unfolding build_header
header_fields req mac method = (refl, refl, refl)

module _ (req : Packet) (mac : Bytes) (method : ℕ) (payload : Bytes) (device : Device)
    (src : Bytes) where
  -- A reply to a well-formed request, with any payload and any 16-bit method, is kept by the loopback
  -- filter and taken by the client as the reply of the device with the replier's MAC, if the client
  -- knows no IP address of it or the reply comes from that address.
  pub match_reply-build_header :
      IsPacket req
      → method < 65536
      → device.mac ≡ parse_device_mac mac
      → (device.ip ≡ []) ⊎ (src ≡ device.ip)
      → (is_udap_request_packet
            (encode_packet (build_header req mac method) ++ payload)
            (length (encode_packet (build_header req mac method) ++ payload))
          ≡ false)
        × (match_reply device (encode_packet (build_header req mac method) ++ payload) src
            ≡ some (build_header req mac method, payload))
  match_reply-build_header v h m a =
      let p = build_header req mac method in
      let (ucp, flags, from) = header_fields req mac method in
      (
        is_udap_request_packet-encode_packet p payload ∙ ap (λ (f : ℕ). not (f % 2 == 0)) flags,
        (match_reply_iff device (encode_packet p ++ payload) src (p, payload)).1 record {
          parses =
              parse_packet-encode_packet p payload (build_header-IsPacket req mac method v h) ucp;
          source = from ∙ sym m;
          address = a;
        },
      )
