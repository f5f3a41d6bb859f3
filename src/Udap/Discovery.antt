-- ===== src/Udap/Discovery.antt =====
-- udap/discovery.go: the reply parser and the model's name; `Device` of udap/protocol.go.
use go_udap.Prelude.{
  ℕ, Bool, not, ◌&&◌, [], ◌∷◌, ◌++◌, Option, none, some, ◌==◌, if◌then◌else◌, length,
}
use go_udap.Prelude.Bytes.{Bytes, codes, bytes_eq}
use go_udap.Prelude.Dict.{Dict, get}
use go_udap.Go.Hex.{encode_to_string}
use go_udap.Udap.Mac.{Mac}
use go_udap.Udap.Tlv.{scan_tlvs}
use go_udap.Udap.Packet.{Packet, addr_type_eth}

-- `Device`; `last_seen` is the time of the call that parsed the reply.
pub record Device : Type 0 where
  pub mac : Mac
  pub ip : Bytes
  pub name : Bytes
  pub model : Bytes
  pub firmware : Bytes
  pub hardware_rev : Bytes
  pub uuid : Bytes
  pub state : Bytes
  pub last_seen : ℕ
  pub parameters : Dict Bytes

abbrev pub product_name_by_id : Dict Bytes
product_name_by_id =
    (codes "02", codes "Squeezebox 2")
    ∷ (codes "03", codes "Squeezebox 3")
    ∷ (codes "04", codes "Transporter")
    ∷ (codes "05", codes "SoftSqueeze")
    ∷ (codes "06", codes "Squeezebox Boom")
    ∷ (codes "07", codes "Squeezebox Receiver")
    ∷ (codes "08", codes "Squeezebox Touch")
    ∷ (codes "09", codes "Squeezebox Radio")
    ∷ (codes "0a", codes "Squeezebox Controller")
    ∷ (codes "0b", codes "Squeezeslave")
    ∷ []

abbrev is_empty : Bytes → Bool
is_empty s = length s == 0

-- `combineModel`
unfoldable pub combine_model : Bytes → Bytes → Bytes
unfolding get bytes_eq
combine_model device_type device_id = elim (get device_id product_name_by_id) [
  | some product ↦ product
  | none ↦
      if not (is_empty device_type) && not (is_empty device_id)
      then device_type ++ (codes " (id=" ++ (device_id ++ codes ")"))
      else if not (is_empty device_type)
      then device_type
      else []
]

-- The device that is being filled in, and the two texts that make its model.
pub record Reply : Type 0 where
  pub device : Device
  pub device_type : Bytes
  pub device_id : Bytes

-- The switch on an entry's code.
unfoldable pub read_entry : ℕ → Bytes → Reply → Reply
read_entry tag value r =
    if tag == 0x02
    then record r { device = record r.device { name = value } }
    else if tag == 0x03
    then record r { device_type = value }
    else if tag == 0x09
    then record r { device = record r.device { firmware = value } }
    else if tag == 0x0b
    then record r { device_id = value }
    else if tag == 0x0c
    then record r { device = record r.device { state = value } }
    else if tag == 0x0a
    then record r { device = record r.device { hardware_rev = value } }
    else if tag == 0x0d
    then record r { device = record r.device { uuid = encode_to_string value } }
    else r

abbrev pub blank_device : Mac → Bytes → ℕ → Device
blank_device mac ip now = record {
  mac = mac;
  ip = ip;
  name = [];
  model = [];
  firmware = [];
  hardware_rev = [];
  uuid = [];
  state = [];
  last_seen = now;
  parameters = [];
}

-- What follows the loop: the model, and a name for a device that sent none.
unfoldable pub finish_reply : Reply → Device
finish_reply r = record r.device {
  name = if is_empty r.device.name then codes "Squeezebox Device" else r.device.name;
  model = combine_model r.device_type r.device_id;
}

-- `parseDiscoveryResponse`; `none` is nil.
unfoldable pub parse_discovery_response : Bytes → Bytes → Packet → ℕ → Option Device
unfolding finish_reply scan_tlvs read_entry
parse_discovery_response buf ip packet now =
    if not (packet.src_type == addr_type_eth)
    then none
    else some (
        finish_reply (
          scan_tlvs read_entry buf (record {
            device = blank_device packet.src_address ip now;
            device_type = [];
            device_id = [];
          })))
