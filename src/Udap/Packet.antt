-- ===== src/Udap/Packet.antt =====
-- udap/protocol.go: the packet header, its wire form, and `ParsePacket`; udap/loopback.go;
-- `Packet.Validate` of udap/validation.go.
pub mod RoundTrip
pub mod Filter
use go_udap.Prelude.{
  ℕ, ◌+◌, ◌*◌, ◌%◌, ◌<◌, ◌≡◌, refl, Bool, true, false, ◌&&◌, ◌||◌, not, [], ◌∷◌, ◌++◌, Option, none,
  some, ltb, ◌==◌, if◌then◌else◌, length, get_elem?, Result, ok, err,
}
use go_udap.Prelude.Bytes.{Bytes, be16, from_be16, bytes_eq}
use go_udap.Udap.Mac.{Mac, mac_bytes, IsMac}

-- Protocol constants.
abbrev pub addr_type_eth : ℕ
addr_type_eth = 1

abbrev pub addr_type_udp : ℕ
addr_type_udp = 2

abbrev pub type_ucp : ℕ
type_ucp = 0xC001

abbrev pub method_discover : ℕ
method_discover = 0x0001

abbrev pub method_get_ip : ℕ
method_get_ip = 0x0002

abbrev pub method_reset : ℕ
method_reset = 0x0004

abbrev pub method_get_data : ℕ
method_get_data = 0x0005

abbrev pub method_set_data : ℕ
method_set_data = 0x0006

abbrev pub method_error : ℕ
method_error = 0x0007

abbrev pub method_credentials_error : ℕ
method_credentials_error = 0x0008

abbrev pub method_adv_disc : ℕ
method_adv_disc = 0x0009

abbrev pub method_get_uuid : ℕ
method_get_uuid = 0x000b

abbrev pub flags_discover : ℕ
flags_discover = 1

abbrev pub username_field_size : ℕ
username_field_size = 16

abbrev pub password_field_size : ℕ
password_field_size = 16

abbrev pub udap_header_size : ℕ
udap_header_size = 27

-- `[4]byte`
pub record Quad : Type 0 where
  pub q0 : ℕ
  pub q1 : ℕ
  pub q2 : ℕ
  pub q3 : ℕ

abbrev pub uap_class_ucp : Quad
uap_class_ucp = record { q0 = 0; q1 = 1; q2 = 0; q3 = 1 }

pub record Packet : Type 0 where
  pub dst_broadcast : ℕ
  pub dst_type : ℕ
  pub dst_address : Mac
  pub src_broadcast : ℕ
  pub src_type : ℕ
  pub src_address : Mac
  pub sequence : ℕ
  pub udap_type : ℕ
  pub ucp_flags : ℕ
  pub uap_class : Quad
  pub ucp_method : ℕ

-- The fields are in the ranges of their Go types.
pub record IsPacket (p : Packet) : Type 0 where
  pub dst_broadcast : p.dst_broadcast < 256
  pub dst_type : p.dst_type < 256
  pub dst_address : IsMac p.dst_address
  pub src_broadcast : p.src_broadcast < 256
  pub src_type : p.src_type < 256
  pub src_address : IsMac p.src_address
  pub sequence : p.sequence < 65536
  pub udap_type : p.udap_type < 65536
  pub ucp_flags : p.ucp_flags < 256
  pub class0 : p.uap_class.q0 < 256
  pub class1 : p.uap_class.q1 < 256
  pub class2 : p.uap_class.q2 < 256
  pub class3 : p.uap_class.q3 < 256
  pub ucp_method : p.ucp_method < 65536

-- `binary.Write(buf, binary.BigEndian, packet)`
unfoldable pub encode_packet : Packet → Bytes
encode_packet p =
    p.dst_broadcast
    ∷ p.dst_type
    ∷ (mac_bytes p.dst_address
        ++ (p.src_broadcast
            ∷ p.src_type
            ∷ (mac_bytes p.src_address
                ++ (be16 p.sequence
                    ++ (be16 p.udap_type
                        ++ (p.ucp_flags
                            ∷ p.uap_class.q0
                            ∷ p.uap_class.q1
                            ∷ p.uap_class.q2
                            ∷ p.uap_class.q3
                            ∷ be16 p.ucp_method))))))

-- `binary.Read` of the header, and the bytes behind it; `none` is its error on a short input.
unfoldable pub read_header : Bytes → Option (Packet × Bytes)
read_header
      (db ∷ dt ∷ d0 ∷ d1 ∷ d2 ∷ d3 ∷ d4 ∷ d5 ∷ sb ∷ st ∷ s0 ∷ s1 ∷ s2 ∷ s3 ∷ s4 ∷ s5 ∷ n0 ∷ n1 ∷ u0
        ∷ u1 ∷ fl ∷ c0 ∷ c1 ∷ c2 ∷ c3 ∷ m0 ∷ m1 ∷ rest) =
    some (
      record {
        dst_broadcast = db;
        dst_type = dt;
        dst_address = record { b0 = d0; b1 = d1; b2 = d2; b3 = d3; b4 = d4; b5 = d5 };
        src_broadcast = sb;
        src_type = st;
        src_address = record { b0 = s0; b1 = s1; b2 = s2; b3 = s3; b4 = s4; b5 = s5 };
        sequence = from_be16 n0 n1;
        udap_type = from_be16 u0 u1;
        ucp_flags = fl;
        uap_class = record { q0 = c0; q1 = c1; q2 = c2; q3 = c3 };
        ucp_method = from_be16 m0 m1;
      },
      rest,
    )
read_header s = none

pub data PacketError : Type 0 where
  too_short : ℕ → PacketError
  decode_header : PacketError
  not_ucp : ℕ → PacketError

-- The payload of a packet with no bytes behind the header is nil, which is `[]`.
unfoldable pub parse_packet : Bytes → Result PacketError (Packet × Bytes)
parse_packet s =
    if ltb (length s) udap_header_size then err (too_short (length s)) else elim (read_header s) [
      | none ↦ err decode_header
      | some (p, rest) ↦
          if not (p.udap_type == type_ucp) then err (not_ucp p.udap_type) else ok (p, rest)
    ]

abbrev pub ucp_flags_offset : ℕ
ucp_flags_offset = 20

-- The first `n` bytes of the buffer are the packet.
unfoldable pub is_udap_request_packet : Bytes → ℕ → Bool
is_udap_request_packet buf n =
    if ltb ucp_flags_offset n
    then elim (get_elem? buf ucp_flags_offset) [ none ↦ false | some f ↦ not (f % 2 == 0) ]
    else false

pub data InvalidPacket : Type 0 where
  bad_dst_type : ℕ → InvalidPacket
  bad_src_type : ℕ → InvalidPacket
  bad_dst_broadcast : ℕ → InvalidPacket
  bad_src_broadcast : ℕ → InvalidPacket
  bad_udap_type : ℕ → InvalidPacket
  unknown_method : ℕ → InvalidPacket
  bad_uap_class : Quad → InvalidPacket

-- The methods that `Packet.Validate` lists.
unfoldable pub is_known_method : ℕ → Bool
is_known_method m =
    (m == method_discover)
    || (m == method_get_ip)
    || (m == method_reset)
    || (m == method_get_data)
    || (m == method_set_data)
    || (m == method_error)
    || (m == method_credentials_error)
    || (m == method_adv_disc)

unfoldable pub is_ucp_class : Quad → Bool
is_ucp_class q = (q.q0 == 0) && (q.q1 == 1) && (q.q2 == 0) && (q.q3 == 1)

-- `Packet.Validate`
unfoldable pub validate_packet : Packet → Result InvalidPacket (Unit {0})
unfolding is_known_method is_ucp_class
validate_packet p =
    if not (p.dst_type == addr_type_eth) && not (p.dst_type == addr_type_udp)
    then err (bad_dst_type p.dst_type)
    else if not (p.src_type == addr_type_eth) && not (p.src_type == addr_type_udp)
    then err (bad_src_type p.src_type)
    else if ltb 1 p.dst_broadcast
    then err (bad_dst_broadcast p.dst_broadcast)
    else if ltb 1 p.src_broadcast
    then err (bad_src_broadcast p.src_broadcast)
    else if not (p.udap_type == type_ucp)
    then err (bad_udap_type p.udap_type)
    else if not (is_known_method p.ucp_method)
    then err (unknown_method p.ucp_method)
    else if not (is_ucp_class p.uap_class)
    then err (bad_uap_class p.uap_class)
    else ok tt
