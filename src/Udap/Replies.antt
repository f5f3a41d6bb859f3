-- ===== src/Udap/Replies.antt =====
-- udap/config.go, udap/getip.go, udap/getuuid.go and udap/discovery.go: what the operations make of a
-- reply.
use go_udap.Prelude.{
  ℕ, Bool, not, ◌&&◌, ◌||◌, List, [], ◌∷◌, Option, none, some, ◌==◌, length, if◌then◌else◌, Result,
  ok, err,
}
use go_udap.Prelude.Bytes.{Bytes, codes, bytes_eq}
use go_udap.Prelude.Dict.{Dict, copy, delete_where}
use go_udap.Go.Strings.{has_prefix}
use go_udap.Udap.Mac.{mac_eq}
use go_udap.Udap.Tlv.{Tlv, decode_tlv, type_error_message}
use go_udap.Udap.Packet.{
  Packet, parse_packet, method_get_ip, method_reset, method_get_data, method_set_data, method_error,
  method_credentials_error, method_get_uuid,
}
use go_udap.Udap.GetData.{parse_get_data_response}
use go_udap.Udap.GetIp.{NetworkConfig, parse_get_ip_response}
use go_udap.Udap.GetUuid.{parse_get_uuid_response}
use go_udap.Udap.Discovery.{Device}
use go_udap.Udap.Transport.{RecvError, deadline_exceeded, canceled}
use go_udap.Udap.Actions.{
  OpError, recv_failed, decode_failed, device_error, rejected_credentials, unexpected_method,
  missing_uuid,
}

-- Whether a received packet is the awaited reply: it parses, its source is the device, and it
-- arrived from the device's address where one is known.
unfoldable pub match_reply : Device → Bytes → Bytes → Option (Packet × Bytes)
match_reply device reply src = elim (parse_packet reply) [
  | err e ↦ none
  | ok (p, payload) ↦
      if not (mac_eq p.src_address device.mac)
      then none
      else if not (length device.ip == 0) && not (bytes_eq src device.ip)
      then none
      else some (p, payload)
]

-- The text of the first error-message entry.
unfoldable pub first_message : List Tlv → Option Bytes
first_message [] = none
first_message (t ∷ ts) = if t.type == type_error_message then some t.value else first_message ts

unfoldable pub error_message : Bytes → Option Bytes
unfolding first_message
error_message payload = first_message (decode_tlv payload)

-- What each operation makes of the reply's method.
unfoldable pub get_reply : Packet → Bytes → Result OpError (Dict Bytes)
get_reply p payload =
    if p.ucp_method == method_get_data
    then (elim (parse_get_data_response payload) [
      | ok config ↦ ok config
      | err e ↦ err (decode_failed e)
    ])
    else if p.ucp_method == method_error
    then err (device_error none)
    else err (unexpected_method p.ucp_method)

unfoldable pub is_set_ack : ℕ → Bool
is_set_ack m = (m == method_set_data) || (m == method_get_data) || (m == method_get_ip)

unfoldable pub set_reply : Packet → Bytes → Result OpError (Unit {0})
unfolding is_set_ack
set_reply p payload =
    if is_set_ack p.ucp_method
    then ok tt
    else if p.ucp_method == method_error
    then err (device_error (error_message payload))
    else if p.ucp_method == method_credentials_error
    then err rejected_credentials
    else err (unexpected_method p.ucp_method)

unfoldable pub reset_reply : Packet → Bytes → Result OpError (Unit {0})
reset_reply p payload =
    if p.ucp_method == method_reset
    then ok tt
    else if p.ucp_method == method_error
    then err (device_error (error_message payload))
    else err (unexpected_method p.ucp_method)

unfoldable pub get_ip_reply : Packet → Bytes → Result OpError NetworkConfig
get_ip_reply p payload =
    if p.ucp_method == method_get_ip
    then ok (parse_get_ip_response payload)
    else if p.ucp_method == method_error
    then err (device_error (error_message payload))
    else if p.ucp_method == method_credentials_error
    then err rejected_credentials
    else err (unexpected_method p.ucp_method)

unfoldable pub get_uuid_reply : Packet → Bytes → Result OpError Bytes
get_uuid_reply p payload =
    if p.ucp_method == method_get_uuid
    then elim (parse_get_uuid_response payload) [ none ↦ err missing_uuid | some u ↦ ok u ]
    else if p.ucp_method == method_error
    then err (device_error (error_message payload))
    else if p.ucp_method == method_credentials_error
    then err rejected_credentials
    else err (unexpected_method p.ucp_method)

-- A reset that is not answered before the context is done has succeeded.
unfoldable pub reset_wait : Result OpError (Packet × Bytes) → Result OpError (Unit {0})
reset_wait (ok (p, payload)) = reset_reply p payload
reset_wait (err (recv_failed deadline_exceeded)) = ok tt
reset_wait (err (recv_failed canceled)) = ok tt
reset_wait (err e) = err e

abbrev is_offset_key : Bytes → Bool
is_offset_key k = has_prefix k (codes "offset_")

-- The cached parameters after a full read: stale `offset_` keys go, and what was read comes in.
unfoldable pub merge_read : Dict Bytes → Dict Bytes → Dict Bytes
merge_read old config = copy (delete_where is_offset_key old) config

-- How discovery ends when `Recv` fails.
unfoldable pub discovery_end : RecvError → Result OpError (Unit {0})
discovery_end deadline_exceeded = ok tt
discovery_end canceled = ok tt
discovery_end e = err (recv_failed e)
