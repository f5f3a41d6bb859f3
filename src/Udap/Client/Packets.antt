-- ===== src/Udap/Client/Packets.antt =====
-- udap/client.go, udap/getip.go and udap/getuuid.go: the packets that the client builds.
use go_udap.Prelude.{
  ℕ, ◌+◌, ◌%◌, ◌^◌, Bool, true, false, List, [], ◌∷◌, ◌++◌, none, some, if◌then◌else◌, length,
  replicate, Result, ok, err,
}
use go_udap.Prelude.Bytes.{Bytes, be16}
use go_udap.Prelude.Dict.{Dict}
use go_udap.Prelude.Sort.{sort}
use go_udap.Udap.Mac.{Mac, zero_mac, is_zero}
use go_udap.Udap.Packet.{
  Packet, encode_packet, addr_type_eth, type_ucp, uap_class_ucp, method_discover, method_get_ip,
  method_reset, method_get_data, method_set_data, method_adv_disc, method_get_uuid, flags_discover,
  username_field_size, password_field_size,
}
use go_udap.Udap.Parameters.Table.{Parameter, parameter_by_name}
use go_udap.Udap.Parameters.Codec.{EncodeError, encode}
use go_udap.Udap.Discovery.{Device}

pub data BuildError : Type 0 where
  zero_mac_address : BuildError
  bad_parameter : Bytes → EncodeError → BuildError

-- `atomic.AddUint32(&c.sequence, 1)`
abbrev pub next_sequence : ℕ → ℕ
next_sequence seq = (seq + 1) % 2 ^ 32

-- `createUdapPacket`, given the counter after the increment.
unfoldable pub create_udap_packet : ℕ → Mac → ℕ → ℕ → Bool → Packet
create_udap_packet seq dst method flags broadcast = record {
  dst_broadcast = if broadcast then 1 else 0;
  dst_type = addr_type_eth;
  dst_address = dst;
  src_broadcast = 0;
  src_type = addr_type_eth;
  src_address = zero_mac;
  sequence = seq % 65536;
  udap_type = type_ucp;
  ucp_flags = flags;
  uap_class = uap_class_ucp;
  ucp_method = method;
}

-- A builder takes the counter and returns it as it leaves it.
abbrev pub Built : Type 0
Built = Result BuildError Bytes × ℕ

unfoldable pub create_discovery_packet : ℕ → Bytes × ℕ
create_discovery_packet seq = (
  encode_packet
      (create_udap_packet (next_sequence seq) zero_mac method_discover flags_discover true),
  next_sequence seq,
)

unfoldable pub create_advanced_discovery_packet : ℕ → Bytes × ℕ
create_advanced_discovery_packet seq = (
  encode_packet
      (create_udap_packet (next_sequence seq) zero_mac method_adv_disc flags_discover true),
  next_sequence seq,
)

-- A unicast request with nothing behind the header: `CreateResetPacket`, `CreateGetIPPacket` and
-- `CreateGetUUIDPacket` differ in the method.
abbrev header_only : ℕ → Device → ℕ → Built
header_only method device seq = if is_zero device.mac then (err zero_mac_address, seq) else (
  ok (encode_packet (create_udap_packet (next_sequence seq) device.mac method 1 false)),
  next_sequence seq,
)

unfoldable pub create_reset_packet : Device → ℕ → Built
create_reset_packet = header_only method_reset

unfoldable pub create_get_ip_packet : Device → ℕ → Built
create_get_ip_packet = header_only method_get_ip

unfoldable pub create_get_uuid_packet : Device → ℕ → Built
create_get_uuid_packet = header_only method_get_uuid

-- The zeroed user name and password fields.
abbrev pub credentials : Bytes
credentials = replicate username_field_size 0 ++ replicate password_field_size 0

-- The requested parameters that are known, in request order.
unfoldable pub known_items : List Bytes → List Parameter
known_items [] = []
known_items (name ∷ names) = elim (parameter_by_name name) [
  | none ↦ known_items names
  | some p ↦ p ∷ known_items names
]

unfoldable pub get_items : List Parameter → Bytes
get_items [] = []
get_items (p ∷ ps) = be16 p.offset ++ (be16 p.len ++ get_items ps)

-- What follows the header of a GetData request.
unfoldable pub get_data_payload : List Bytes → Bytes
get_data_payload names =
    let items = sort (λ (p : Parameter). p.offset) (known_items names) in
    credentials ++ (be16 (length items) ++ get_items items)

unfoldable pub create_get_data_packet : Device → List Bytes → ℕ → Built
create_get_data_packet device names seq =
    if is_zero device.mac then (err zero_mac_address, seq) else (
      ok (
          encode_packet (create_udap_packet (next_sequence seq) device.mac method_get_data 1 false)
          ++ get_data_payload names),
      next_sequence seq,
    )

-- `paramEntry`
pub record ParamEntry : Type 0 where
  pub value : Bytes
  pub parameter : Parameter

abbrev pub entry_offset : ParamEntry → ℕ
entry_offset e = e.parameter.offset

-- The entries of the map whose names are known, in the order in which `range` visits them.
unfoldable pub param_list : Dict Bytes → List ParamEntry
param_list [] = []
param_list ((name, value) ∷ params) = elim (parameter_by_name name) [
  | none ↦ param_list params
  | some p ↦ record { value = value; parameter = p } ∷ param_list params
]

-- The loop that encodes the entries; the first value that cannot be encoded ends it.
unfoldable pub set_items : List ParamEntry → Result BuildError Bytes
set_items [] = ok []
set_items (e ∷ es) = elim (encode e.parameter e.value) [
  | err x ↦ err (bad_parameter e.parameter.name x)
  | ok bytes ↦ elim (set_items es) [
    | err x ↦ err x
    | ok rest ↦ ok (be16 e.parameter.offset ++ (be16 e.parameter.len ++ (bytes ++ rest)))
  ]
]

unfoldable pub set_data_payload : Dict Bytes → Result BuildError Bytes
set_data_payload params =
    let entries = sort entry_offset (param_list params) in
    elim (set_items entries) [
      | err x ↦ err x
      | ok items ↦ ok (credentials ++ (be16 (length entries) ++ items))
    ]

-- `CreateSetDataPacket`; a value that cannot be encoded has used up a sequence number.
unfoldable pub create_set_data_packet : Device → Dict Bytes → ℕ → Built
create_set_data_packet device params seq =
    if is_zero device.mac then (err zero_mac_address, seq) else (
      elim (set_data_payload params) [
        | err x ↦ err x
        | ok payload ↦ ok (
            encode_packet
              (create_udap_packet (next_sequence seq) device.mac method_set_data 1 false)
            ++ payload)
      ],
      next_sequence seq,
    )
