-- ===== src/Examples/Exchanges.antt =====
-- Requests of the client and answers of the virtual device at concrete inputs.
use mathlib.Core.List.{Permᴰ}
use go_udap.Prelude.{
  inl, ◌+◌, ◌<◌, ◌≡◌, refl, List, [], ◌∷◌, ◌++◌, map, false, some, ok, err, length, replicate, All,
  arith,
}
use go_udap.Prelude.Bytes.{Bytes, AreBytes, codes}
use go_udap.Prelude.Dict.{Dict}
use go_udap.Prelude.Sort.{sort}
use go_udap.Prelude.Sort.Order.{IsApart}
use go_udap.Go.Strconv.{parse_uint}
use go_udap.Udap.Mac.{Mac, IsMac}
use go_udap.Udap.Packet.{IsPacket, Packet, encode_packet, is_udap_request_packet, method_set_data}
use go_udap.Udap.Parameters.Table.{Parameter, parameter_by_name, parameter_index, parameters}
use go_udap.Udap.Parameters.Codec.{encode, encode_uint8, copy_to}
use go_udap.Udap.Parameters.Lookup.{IsEntry, parameter_by_name-IsEntry}
use go_udap.Udap.Discovery.{Device, blank_device}
use go_udap.Udap.GetData.{parse_get_data_response}
use go_udap.Udap.GetData.Items.{IsItem, file_items}
use go_udap.Udap.Client.Packets.{
  known_items, get_data_payload, param_list, entry_offset, set_items, set_data_payload,
  create_set_data_packet, create_udap_packet,
}
use go_udap.Udap.Client.Order.{create_set_data_packet-Perm}
use go_udap.Mocksbr.Device.{MockDevice, new_device, malformed_none}
use go_udap.Mocksbr.Network.{auto_config}
use go_udap.Mocksbr.Requests.{parse_get_data_request, parse_set_data_request}
use go_udap.Mocksbr.Requests.RoundTrip.{written, parse_set_data_request-set_data_payload}
use go_udap.Mocksbr.Values.{encode_param_value}
use go_udap.Mocksbr.Values.Agree.{encode_param_value-encode}
use go_udap.Mocksbr.Responses.{get_data_body}
use go_udap.Udap.Operations.{match_reply}
use go_udap.Mocksbr.Responses.{parse_device_mac, build_header}
use go_udap.Mocksbr.Responses.Accepted.{match_reply-build_header}
use go_udap.Mocksbr.Responses.GetData.{answer, raw, parse_get_data_response-get_data_body}

abbrev receiver : Mac
receiver = record { b0 = 0; b1 = 4; b2 = 32; b3 = 0; b4 = 0; b5 = 1 }

receiver-IsMac : IsMac receiver
receiver-IsMac = record {
  r0 = omega arith;
  r1 = omega arith;
  r2 = omega arith;
  r3 = omega arith;
  r4 = omega arith;
  r5 = omega arith;
}

abbrev device : Device
device = blank_device receiver [] 0

-- An alias, and the entry that it stands for.
abbrev server : Parameter
server = record {
  name = codes "server_address";
  offset = 71;
  len = 4;
  placeholder = codes "IP";
  help = codes "Logitech Media Server IPv4 address";
  factory_default = codes "0.0.0.0";
}

server_found : parameter_by_name (codes "slimserver_address") ≡ some server
unfolding parameter_by_name parameter_index parameters
server_found = refl

parameter_by_name-IsEntry_example : IsEntry server
parameter_by_name-IsEntry_example =
    parameter_by_name-IsEntry (codes "slimserver_address") server server_found

-- Two settings, in one order and in the other.
abbrev settings : Dict Bytes
settings = (codes "hostname", codes "den") ∷ (codes "lan_ip_mode", codes "1") ∷ []

abbrev settings_swapped : Dict Bytes
settings_swapped = (codes "lan_ip_mode", codes "1") ∷ (codes "hostname", codes "den") ∷ []

abbrev payload : Bytes
payload =
    replicate 32 0 ++ (0 ∷ 2 ∷ 0 ∷ 4 ∷ 0 ∷ 1 ∷ 1 ∷ 0 ∷ 17 ∷ 0 ∷ 33 ∷ codes "den" ++ replicate 30 0)

settings_encoded : set_data_payload settings ≡ ok payload
unfolding set_data_payload set_items param_list sort encode encode_uint8 copy_to parameter_by_name
    parameter_index parse_uint
settings_encoded = refl

settings-AreBytes : All (λ e. AreBytes e.1) settings
settings-AreBytes = ground arith

settings_few : length (param_list settings) < 65536
unfolding param_list parameter_by_name parameter_index parameters
settings_few = omega arith

settings-IsApart : IsApart entry_offset (param_list settings)
unfolding param_list parameter_by_name parameter_index parameters
settings-IsApart = ground arith

create_set_data_packet-Perm_example :
    create_set_data_packet device settings 7 ≡ create_set_data_packet device settings_swapped 7
create_set_data_packet-Perm_example =
    create_set_data_packet-Perm device settings settings_swapped 7 (Permᴰ.swap refl refl)
      settings-IsApart

abbrev names : List Bytes
names = codes "wireless_mode" ∷ codes "no_such_name" ∷ codes "lan_ip_mode" ∷ []

names_few : length (known_items names) < 65536
unfolding known_items parameter_by_name parameter_index parameters
names_few = omega arith

parse_set_data_request-set_data_payload_example :
    parse_set_data_request payload ≡ map written (sort entry_offset (param_list settings))
parse_set_data_request-set_data_payload_example =
    parse_set_data_request-set_data_payload settings payload settings-AreBytes settings_few
      settings_encoded

abbrev player : MockDevice
player = record (new_device (auto_config 1)) { working_memory = settings }

player-AreBytes : All (λ e. AreBytes e.1) player.working_memory
player-AreBytes = settings-AreBytes

player_few : length (known_items names) + length player.cfg.unknown_offsets < 65536
unfolding new_device auto_config
player_few = omega (arith, names_few)

player_sound : player.cfg.malformed ≡ malformed_none
unfolding new_device auto_config
player_sound = refl

player-IsItem : All (λ u. IsItem (raw u)) player.cfg.unknown_offsets
unfolding new_device auto_config
player-IsItem = tt

parse_get_data_response-get_data_body_example :
    parse_get_data_response
      (get_data_body player.cfg.malformed player (parse_get_data_request (get_data_payload names)))
    ≡ ok (file_items (answer player names) [])
parse_get_data_response-get_data_body_example =
    parse_get_data_response-get_data_body player names player-AreBytes player_few player_sound
      player-IsItem

abbrev request : Packet
request = create_udap_packet 8 receiver method_set_data 1 false

encode_param_value-encode_example :
    encode_param_value 4 (codes "10.0.0.7")
    ≡ elim (encode server (codes "10.0.0.7")) [ ok bs ↦ bs | err e ↦ replicate 4 0 ]
encode_param_value-encode_example = encode_param_value-encode server (codes "10.0.0.7")

request-IsPacket : IsPacket request
unfolding create_udap_packet
request-IsPacket = record {
  dst_broadcast = omega arith;
  dst_type = omega arith;
  dst_address = receiver-IsMac;
  src_broadcast = omega arith;
  src_type = omega arith;
  src_address = record {
    r0 = omega arith;
    r1 = omega arith;
    r2 = omega arith;
    r3 = omega arith;
    r4 = omega arith;
    r5 = omega arith;
  };
  sequence = omega arith;
  udap_type = omega arith;
  ucp_flags = omega arith;
  class0 = omega arith;
  class1 = omega arith;
  class2 = omega arith;
  class3 = omega arith;
  ucp_method = omega arith;
}

receiver_parsed : device.mac ≡ parse_device_mac (codes "00:04:20:00:00:01")
unfolding parse_device_mac
receiver_parsed = refl

abbrev ack_header : Packet
ack_header = build_header request (codes "00:04:20:00:00:01") method_set_data

match_reply-build_header_example :
    (is_udap_request_packet
        (encode_packet ack_header ++ (0 ∷ 2 ∷ []))
        (length (encode_packet ack_header ++ (0 ∷ 2 ∷ [])))
      ≡ false)
    × (match_reply device (encode_packet ack_header ++ (0 ∷ 2 ∷ [])) (codes "10.0.0.2")
        ≡ some (ack_header, 0 ∷ 2 ∷ []))
match_reply-build_header_example =
    match_reply-build_header request (codes "00:04:20:00:00:01") method_set_data (0 ∷ 2 ∷ []) device
      (codes "10.0.0.2") request-IsPacket (omega arith) receiver_parsed (inl refl)
