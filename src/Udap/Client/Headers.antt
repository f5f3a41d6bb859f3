-- ===== src/Udap/Client/Headers.antt =====
-- The requests that the builders make, as a receiver reads them.
use mathlib.Core.Path.{subst}
use go_udap.Prelude.{
  ℕ, ◌≡◌, refl, ◌∙◌, ap, List, [], ◌++◌, append-nil, true, false, ok, err, if◌then◌else◌, ◌==◌, not,
  ◌%◌, length, arith, ◌<◌,
}
use go_udap.Prelude.Bytes.{Bytes}
use go_udap.Prelude.Dict.{Dict}
use go_udap.Udap.Mac.{IsMac, is_zero}
use go_udap.Udap.Packet.{
  Packet, IsPacket, encode_packet, parse_packet, is_udap_request_packet, type_ucp, method_get_data,
  method_set_data, method_reset, method_get_ip, method_get_uuid,
}
use go_udap.Udap.Packet.RoundTrip.{parse_packet-encode_packet}
use go_udap.Udap.Packet.Filter.{is_udap_request_packet-encode_packet}
use go_udap.Udap.Discovery.{Device}
use go_udap.Udap.Client.Packets.{
  Built, zero_mac_address, next_sequence, create_udap_packet, create_reset_packet,
  create_get_ip_packet, create_get_uuid_packet, create_get_data_packet, create_set_data_packet,
  get_data_payload, set_data_payload,
}

-- The header of a unicast request, sent under the counter after `seq`.
abbrev pub unicast : Device → ℕ → ℕ → Packet
unicast device seq method = create_udap_packet (next_sequence seq) device.mac method 1 false

-- What a builder of unicast requests returns: an error for the zero MAC, which uses up no sequence
-- number, or a request that is parsed to its header and payload and that the loopback filter drops.
pub record IsRequest (device : Device) (seq method : ℕ) (payload : Bytes) (b : Built) : Type 0 where
  pub refused : is_zero device.mac ≡ true → b ≡ (err zero_mac_address, seq)
  pub built :
      is_zero device.mac ≡ false
      → (bytes : Bytes) × (b ≡ (ok bytes, next_sequence seq))
        × (parse_packet bytes ≡ ok (unicast device seq method, payload))
        × (is_udap_request_packet bytes (length bytes) ≡ true)

pub unicast-IsPacket :
    (device : Device) (seq method : ℕ)
    → IsMac device.mac
    → method < 65536
    → IsPacket (unicast device seq method)
unfolding create_udap_packet
unicast-IsPacket device seq method m h = record {
  dst_broadcast = omega arith;
  dst_type = omega arith;
  dst_address = m;
  src_broadcast = omega arith;
  src_type = omega arith;
  src_address = record {
    r0 = omega arith;
    r1 = omega arith;
    r2 = omega arith;
    r3 = omega arith;
    r4 = omega arith;
    r5 = omega arith;
  };
  sequence = omega arith;
  udap_type = omega arith;
  ucp_flags = omega arith;
  class0 = omega arith;
  class1 = omega arith;
  class2 = omega arith;
  class3 = omega arith;
  ucp_method = h;
}

unicast_type : (device : Device) (seq method : ℕ) → (unicast device seq method).udap_type ≡ type_ucp
unfolding create_udap_packet
unicast_type device seq method = refl

unicast_flags : (device : Device) (seq method : ℕ) → (unicast device seq method).ucp_flags ≡ 1
unfolding create_udap_packet
unicast_flags device seq method = refl

-- The shape that the builders share.
abbrev guarded : Device → ℕ → Bytes → Built
guarded device seq bytes =
    if is_zero device.mac then (err zero_mac_address, seq) else (ok bytes, next_sequence seq)

guarded-IsRequest :
    (device : Device) (seq method : ℕ) (payload : Bytes)
    → IsMac device.mac
    → method < 65536
    → IsRequest device seq method payload
        (guarded device seq (encode_packet (unicast device seq method) ++ payload))
guarded-IsRequest device seq method payload m h = record {
  refused = λ z. rw z refl;
  built = λ z.
      let p = unicast device seq method in
      (
        encode_packet p ++ payload,
        rw z refl,
        parse_packet-encode_packet p payload (unicast-IsPacket device seq method m h)
            (unicast_type device seq method),
        is_udap_request_packet-encode_packet p payload
            ∙ ap (λ (f : ℕ). not (f % 2 == 0)) (unicast_flags device seq method),
      );
}

header_only-IsRequest :
    (device : Device) (seq method : ℕ)
    → IsMac device.mac
    → method < 65536
    → IsRequest device seq method []
        (guarded device seq (encode_packet (unicast device seq method)))
header_only-IsRequest device seq method m h =
    subst (λ bytes. IsRequest device seq method [] (guarded device seq bytes))
      (append-nil (encode_packet (unicast device seq method)))
      (guarded-IsRequest device seq method [] m h)

pub requests-IsRequest :
    (device : Device) (seq : ℕ) (names : List Bytes) (params : Dict Bytes) (payload : Bytes)
    → IsMac device.mac
    → set_data_payload params ≡ ok payload
    → IsRequest device seq method_get_data
        (get_data_payload names)
        (create_get_data_packet device names seq)
      × IsRequest device seq method_set_data payload (create_set_data_packet device params seq)
      × IsRequest device seq method_reset [] (create_reset_packet device seq)
      × IsRequest device seq method_get_ip [] (create_get_ip_packet device seq)
      × IsRequest device seq method_get_uuid [] (create_get_uuid_packet device seq)
unfolding create_get_data_packet create_set_data_packet create_reset_packet create_get_ip_packet
    create_get_uuid_packet
requests-IsRequest device seq names params payload m h = (
  guarded-IsRequest device seq method_get_data (get_data_payload names) m (omega arith),
  rw h (guarded-IsRequest device seq method_set_data payload m (omega arith)),
  header_only-IsRequest device seq method_reset m (omega arith),
  header_only-IsRequest device seq method_get_ip m (omega arith),
  header_only-IsRequest device seq method_get_uuid m (omega arith),
)
