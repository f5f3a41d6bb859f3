-- ===== src/Mocksbr/Exchange/Set.antt =====
-- `SetDeviceConfigWithContext` against a virtual device, and the read behind it.
use go_udap.Prelude.{ℕ, ◌<◌, ◌≡◌, [], ok, length, All}
use go_udap.Prelude.Bytes.{Bytes, AreBytes, be16}
use go_udap.Prelude.Dict.{Dict, copy}
use go_udap.Go.Strings.{to_lower}
use go_udap.Udap.Mac.{mac_string}
use go_udap.Udap.Packet.{Packet, method_set_data}
use go_udap.Udap.Discovery.{Device}
use go_udap.Udap.Client.{Client, write_device}
use go_udap.Udap.Client.Packets.{next_sequence, set_data_payload, param_list}
use go_udap.Udap.Client.Headers.{unicast}
use go_udap.Udap.Operations.{Op, set_reply, continue, lift, commit_config}
use go_udap.Mocksbr.Device.{MockDevice}
use go_udap.Mocksbr.Responses.{build_set_data_ack}
use go_udap.Mocksbr.Handlers.SetData.{configured}
use go_udap.Mocksbr.Network.{Network}
use go_udap.Mocksbr.Transport.{MockTransport}
use go_udap.Mocksbr.Exchange.{behind}
use go_udap.Mocksbr.Exchange.Served.{with_device}
use go_udap.Mocksbr.Exchange.Get.{IsPlayer}

-- What a set sends, with what the client has cached.
abbrev pub sent_params : Client MockTransport → ℕ → Dict Bytes → Dict Bytes
sent_params c a config = copy (copy [] (c.heap a).parameters) config

module _ (c : Client MockTransport) (a : ℕ) (d : MockDevice) (player : IsPlayer c a d)
    (config : Dict Bytes) (payload : Bytes)
    (texts : All (λ e. AreBytes e.1) (sent_params c a config))
    (few : length (param_list (sent_params c a config)) < 65536)
    (encoded : set_data_payload (sent_params c a config) ≡ ok payload) where
  abbrev stored : MockDevice
  stored = configured (sent_params c a config) d

  abbrev req : Packet
  req = unicast (c.heap a) c.sequence method_set_data

  abbrev ack : Bytes
  ack = build_set_data_ack req (length (param_list (sent_params c a config))) stored

  abbrev ack_payload : Bytes
  ack_payload = be16 (length (param_list (sent_params c a config)))

  abbrev stored_net : Network
  stored_net = with_device (to_lower (mac_string req.dst_address)) stored c.transport.net

  abbrev answered : Packet × Bytes → Op MockTransport (Unit {0})
  answered x c1 = continue (λ _. commit_config a config) (lift (set_reply x.0 x.1) c1)

  -- The client behind the set.
  abbrev after_set : Client MockTransport
  after_set =
      write_device a (record (c.heap a) { parameters = copy (c.heap a).parameters config })
        (behind (next_sequence c.sequence) stored_net c)

  abbrev device_after : Device
  device_after = record (c.heap a) { parameters = copy (c.heap a).parameters config }
