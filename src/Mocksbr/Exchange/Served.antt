-- ===== src/Mocksbr/Exchange/Served.antt =====
-- How the network answers a unicast request to a device that is up.
use go_udap.Prelude.{ℕ, ◌≡◌, ◌∙◌, false, [], ◌∷◌, Option, none, some, ok, arith}
use go_udap.Prelude.Bytes.{Bytes}
use go_udap.Prelude.Dict.{get, put}
use go_udap.Go.Strings.{to_lower}
use go_udap.Udap.Mac.{mac_string}
use go_udap.Udap.Packet.{Packet, parse_packet, method_get_data, method_set_data}
use go_udap.Mocksbr.Device.{MockDevice, Op, op_get, op_set, rebooting, fails_on}
use go_udap.Mocksbr.Network.{Network}
use go_udap.Mocksbr.Handlers.{
  handle_get_data, handle_set_data, serve_device, dispatch_unicast, receive_packet,
  receive_scheduled,
}
use go_udap.Mocksbr.Exchange.{prompt_reply}

-- The device is up, and carries out the operation.
pub record IsServing (op : Op) (d : MockDevice) : Type 0 where
  pub reachable : d.cfg.unreachable ≡ false
  pub awake : d.reboot_deadline ≡ none
  pub willing : fails_on op d ≡ false
  pub prompt : d.cfg.slow ≡ 0

abbrev address_of : Packet → Bytes
address_of req = to_lower (mac_string req.dst_address)

-- The network with a device at an address.
abbrev pub with_device : Bytes → MockDevice → Network → Network
with_device mac d n = record n { devices = put mac d n.devices }

rebooting_awake :
    (now : ℕ) (d : MockDevice) → d.reboot_deadline ≡ none → rebooting now d ≡ (false, d)
unfolding rebooting
rebooting_awake now d h = ground (arith, h)

serve_device-prompt :
    (now : ℕ) (req : Packet) (op : Op) (handler : MockDevice → Option Bytes × MockDevice)
    (d d' : MockDevice) (reply : Bytes)
    → IsServing op d
    → handler d ≡ (some reply, d')
    → d'.cfg.slow ≡ 0
    → serve_device now req op handler d ≡ (prompt_reply reply ∷ [], d')
unfolding serve_device
serve_device-prompt now req op handler d d' reply s h slow =
    ground (arith, rebooting_awake now d s.awake, s.reachable, s.willing, h, slow)

module _ (now : ℕ) (bytes payload reply : Bytes) (req : Packet) (n : Network) (d d' : MockDevice)
    (parsed : parse_packet bytes ≡ ok (req, payload))
    (registered : get (address_of req) n.devices ≡ some d) (slow : d'.cfg.slow ≡ 0) where
  dispatch_unicast-prompt :
      (op : Op) (handler : MockDevice → Option Bytes × MockDevice)
      → IsServing op d
      → handler d ≡ (some reply, d')
      → dispatch_unicast now req op handler n
        ≡ (prompt_reply reply ∷ [], with_device (address_of req) d' n)
  unfolding dispatch_unicast
  dispatch_unicast-prompt op handler s h =
      ground (arith, registered, serve_device-prompt now req op handler d d' reply s h slow)

  receive_scheduled-receive_packet :
      receive_scheduled now bytes n ≡ receive_packet now req payload n
  unfolding receive_scheduled
  receive_scheduled-receive_packet = ground (arith, parsed)

  receive_packet-get :
      req.ucp_method ≡ method_get_data
      → receive_packet now req payload n
        ≡ dispatch_unicast now req op_get (handle_get_data req payload) n
  unfolding receive_packet
  receive_packet-get m = ground (arith, m)

  receive_packet-set :
      req.ucp_method ≡ method_set_data
      → receive_packet now req payload n
        ≡ dispatch_unicast now req op_set (handle_set_data req payload) n
  unfolding receive_packet
  receive_packet-set m = ground (arith, m)

  -- A GetData request, and a SetData request.
  pub receive_scheduled-get :
      IsServing op_get d
      → req.ucp_method ≡ method_get_data
      → handle_get_data req payload d ≡ (some reply, d')
      → receive_scheduled now bytes n ≡ (prompt_reply reply ∷ [], with_device (address_of req) d' n)
  receive_scheduled-get s m h =
      receive_scheduled-receive_packet
      ∙ receive_packet-get m
      ∙ dispatch_unicast-prompt op_get (handle_get_data req payload) s h

  pub receive_scheduled-set :
      IsServing op_set d
      → req.ucp_method ≡ method_set_data
      → handle_set_data req payload d ≡ (some reply, d')
      → receive_scheduled now bytes n ≡ (prompt_reply reply ∷ [], with_device (address_of req) d' n)
  receive_scheduled-set s m h =
      receive_scheduled-receive_packet
      ∙ receive_packet-set m
      ∙ dispatch_unicast-prompt op_set (handle_set_data req payload) s h
