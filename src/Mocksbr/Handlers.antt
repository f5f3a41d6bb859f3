-- ===== src/Mocksbr/Handlers.antt =====
-- mocksbr/handlers.go: what the network does with a packet that arrives at the time `now`.
pub mod SetData
pub mod Members
use go_udap.Prelude.{
  ℕ, ◌||◌, List, [], ◌∷◌, ◌++◌, map, Option, none, some, ◌==◌, if◌then◌else◌, length, ok, err,
}
use go_udap.Prelude.Bytes.{Bytes, codes}
use go_udap.Prelude.Dict.{Dict, get, put}
use go_udap.Go.Strings.{to_lower}
use go_udap.Udap.Mac.{mac_string}
use go_udap.Udap.Packet.{
  Packet, parse_packet, method_discover, method_get_ip, method_reset, method_get_data,
  method_set_data, method_adv_disc, method_get_uuid,
}
use go_udap.Mocksbr.Device.{
  Op, op_discover, op_get, op_set, op_save, op_reset, op_get_ip, op_get_uuid, MockDevice, apply_set,
  apply_save, apply_reset, start_reboot, rebooting, fails_on,
}
use go_udap.Mocksbr.Requests.{SetDataItem, parse_set_data_request}
use go_udap.Mocksbr.Values.{decode_param_value}
use go_udap.Mocksbr.Responses.{
  build_discovery_response, build_get_data_response, build_set_data_ack, build_reset_ack,
  build_error_response, build_get_ip_response, build_get_uuid_response,
}
use go_udap.Mocksbr.Network.{Network}

-- `ScheduledReply`
pub record ScheduledReply : Type 0 where
  pub bytes : Bytes
  pub delay : ℕ

abbrev op_text : Op → Bytes
op_text op_discover = codes "discover"
op_text op_get = codes "get"
op_text op_set = codes "set"
op_text op_save = codes "save"
op_text op_reset = codes "reset"
op_text op_get_ip = codes "getip"
op_text op_get_uuid = codes "getuuid"

-- The updates of a set request: items at unknown offsets are left out, a later item wins.
unfoldable pub updates_of : List SetDataItem → Dict Bytes → Dict Bytes
updates_of [] out = out
updates_of (it ∷ its) out =
    updates_of its
      (if length it.name == 0 then out else put it.name (decode_param_value it.value) out)

-- A handler returns its reply, nil is `none`, and the device as it leaves it.
unfoldable pub handle_set_data : Packet → Bytes → MockDevice → Option Bytes × MockDevice
handle_set_data req payload d =
    let items = parse_set_data_request payload in
    let d' = apply_save (apply_set (updates_of items []) d) in
    (some (build_set_data_ack req (length items) d'), d')

unfoldable pub handle_reset : ℕ → Packet → MockDevice → Option Bytes × MockDevice
handle_reset now req d = (some (build_reset_ack req d), apply_reset (start_reboot now d))

unfoldable pub handle_get_data : Packet → Bytes → MockDevice → Option Bytes × MockDevice
handle_get_data req payload d =
    (if d.cfg.drop_get_data then none else some (build_get_data_response req payload d), d)

unfoldable pub handle_get_ip : Packet → MockDevice → Option Bytes × MockDevice
handle_get_ip req d = (if d.cfg.drop_get_ip then none else some (build_get_ip_response req d), d)

unfoldable pub handle_get_uuid : Packet → MockDevice → Option Bytes × MockDevice
handle_get_uuid req d =
    (if d.cfg.drop_get_uuid then none else some (build_get_uuid_response req d), d)

abbrev schedule : MockDevice → Option Bytes → List ScheduledReply
schedule d none = []
schedule d (some bytes) = record { bytes = bytes; delay = d.cfg.slow } ∷ []

-- One reachable device: a reboot drops the packet, an injected failure answers with an error.
unfoldable pub serve_device :
    ℕ
    → Packet
    → Op
    → (MockDevice → Option Bytes × MockDevice)
    → MockDevice
    → List ScheduledReply × MockDevice
serve_device now req op handler d =
    let (busy, d') = rebooting now d in
    let (reply, d'') = handler d' in
    if d.cfg.unreachable
    then ([], d)
    else if busy
    then ([], d')
    else if fails_on op d'
    then (
      schedule d'
          (some (build_error_response req (codes "mocksbr: configured to fail " ++ op_text op) d')),
      d',
    )
    else (schedule d'' reply, d'')

-- `formatMAC` prints lower-case digits, as `MAC.String` does.
unfoldable pub dispatch_unicast :
    ℕ
    → Packet
    → Op
    → (MockDevice → Option Bytes × MockDevice)
    → Network
    → List ScheduledReply × Network
dispatch_unicast now req op handler n =
    let mac = to_lower (mac_string req.dst_address) in
    elim (get mac n.devices) [
      | none ↦ ([], n)
      | some d ↦
          let (replies, d') = serve_device now req op handler d in
          (replies, record n { devices = put mac d' n.devices })
    ]

-- The loop of `handleDiscovery` over the addresses in insertion order.
unfoldable pub discovery_loop :
    ℕ → Packet → List Bytes → Dict MockDevice → List ScheduledReply × Dict MockDevice
discovery_loop now req [] devices = ([], devices)
discovery_loop now req (mac ∷ macs) devices = elim (get mac devices) [
  | none ↦ discovery_loop now req macs devices
  | some d ↦
      let (busy, d') = rebooting now d in
      let (replies, rest) = discovery_loop now req macs (put mac d' devices) in
      let skipped = discovery_loop now req macs devices in
      if d.cfg.unreachable || fails_on op_discover d
      then skipped
      else if busy
      then (replies, rest)
      else (record { bytes = build_discovery_response req d'; delay = d.cfg.slow } ∷ replies, rest)
]

unfoldable pub handle_discovery : ℕ → Packet → Network → List ScheduledReply × Network
handle_discovery now req n =
    let (replies, devices) = discovery_loop now req n.order n.devices in
    (replies, record n { devices = devices })

-- The switch of `ReceiveScheduled` on the method.
unfoldable pub receive_packet : ℕ → Packet → Bytes → Network → List ScheduledReply × Network
receive_packet now req payload n =
    if (req.ucp_method == method_discover) || (req.ucp_method == method_adv_disc)
    then handle_discovery now req n
    else if req.ucp_method == method_get_data
    then dispatch_unicast now req op_get (handle_get_data req payload) n
    else if req.ucp_method == method_set_data
    then dispatch_unicast now req op_set (handle_set_data req payload) n
    else if req.ucp_method == method_reset
    then dispatch_unicast now req op_reset (handle_reset now req) n
    else if req.ucp_method == method_get_ip
    then dispatch_unicast now req op_get_ip (handle_get_ip req) n
    else if req.ucp_method == method_get_uuid
    then dispatch_unicast now req op_get_uuid (handle_get_uuid req) n
    else ([], n)

unfoldable pub receive_scheduled : ℕ → Bytes → Network → List ScheduledReply × Network
receive_scheduled now bytes n = elim (parse_packet bytes) [
  | err e ↦ ([], n)
  | ok (req, payload) ↦ receive_packet now req payload n
]

-- `Receive`
unfoldable pub receive : ℕ → Bytes → Network → List Bytes × Network
receive now bytes n =
    let (replies, n') = receive_scheduled now bytes n in (map (λ r. r.bytes) replies, n')
