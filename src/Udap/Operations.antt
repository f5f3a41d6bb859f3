-- ===== src/Udap/Operations.antt =====
-- udap/config.go, udap/getip.go, udap/getuuid.go and udap/discovery.go: the client's operations. An
-- operation is an action on the client that fails with an error; what it has changed stays changed.
pub mod Wait
pub mod Frame
pub mod SetConfig
pub mod Discover
pub mod Latest
use go_udap.Prelude.{
  ℕ, zero, suc, ◌≡◌, refl, Bool, true, false, not, ◌&&◌, ◌||◌, List, [], ◌∷◌, Option, none, some,
  ◌==◌, length, if◌then◌else◌, Result, ok, err,
}
use go_udap.Prelude.Bytes.{Bytes, codes, bytes_eq}
use go_udap.Prelude.Dict.{Dict, copy, delete_where}
use go_udap.Go.Strings.{has_prefix}
use go_udap.Udap.Mac.{mac_eq}
use go_udap.Udap.Tlv.{Tlv, decode_tlv, type_error_message}
use go_udap.Udap.Packet.{
  Packet, parse_packet, type_ucp, method_get_ip, method_reset, method_get_data, method_set_data,
  method_error, method_credentials_error, method_get_uuid,
}
use go_udap.Udap.Parameters.Table.{parameter_names}
use go_udap.Udap.GetData.{GetDataError, parse_get_data_response}
use go_udap.Udap.GetIp.{NetworkConfig, parse_get_ip_response}
use go_udap.Udap.GetUuid.{parse_get_uuid_response}
use go_udap.Udap.Discovery.{Device, parse_discovery_response}
use go_udap.Udap.Transport.{
  Transport, SendError, Received, packet, failed, RecvError, deadline_exceeded, canceled,
}
use go_udap.Udap.Client.{Client, write_device, record_device, send_retried}
use go_udap.Udap.Client.Packets.{
  BuildError, Built, create_advanced_discovery_packet, create_get_data_packet,
  create_set_data_packet, create_reset_packet, create_get_ip_packet, create_get_uuid_packet,
}
use go_udap.Udap.Actions.{sent}
pub use go_udap.Udap.Actions.{
  OpError, build_failed, send_failed, recv_failed, decode_failed, device_error,
  rejected_credentials, unexpected_method, missing_uuid, out_of_fuel, Op, pure, lift, continue,
  ◌>>=◌, ◌>>◌,
}
unfoldable pub use go_udap.Udap.Actions.{build, device_at, set_parameters, commit_config}
unfoldable pub use go_udap.Udap.Replies.{
  match_reply, first_message, error_message, get_reply, is_set_ack, set_reply, reset_reply,
  get_ip_reply, get_uuid_reply, reset_wait, merge_read, discovery_end,
}

module _ {S : Type 0} where
  -- A packet that is no matching reply is dropped, and the loop goes on.
  pub wait_match :
      (S → Result OpError (Packet × Bytes) × S)
      → Option (Packet × Bytes)
      → S
      → Result OpError (Packet × Bytes) × S
  wait_match again (some r) s = (ok r, s)
  wait_match again none s = again s

  pub wait_round :
      (S → Result OpError (Packet × Bytes) × S)
      → Device
      → Received
      → S
      → Result OpError (Packet × Bytes) × S
  wait_round again device (failed e) s = (err (recv_failed e), s)
  wait_round again device (packet reply src) s = wait_match again (match_reply device reply src) s

  -- `handleDiscoveryReply` at the time `now`.
  unfoldable pub handle_discovery_reply : Bytes → Bytes → ℕ → Client S → Client S
  handle_discovery_reply reply src now c = elim (parse_packet reply) [
    | err e ↦ c
    | ok (p, payload) ↦
        if not (p.udap_type == type_ucp)
        then c
        else elim (parse_discovery_response payload src p now) [
          | none ↦ c
          | some device ↦ record_device device c
        ]
  ]

  unfoldable pub discover_round :
      (Client S → Result OpError (Unit {0}) × Client S)
      → ℕ
      → Received
      → Client S
      → Result OpError (Unit {0}) × Client S
  discover_round again now (failed e) c = (discovery_end e, c)
  discover_round again now (packet reply src) c = again (handle_discovery_reply reply src now c)

module _ {S : Type 0} (t : Transport S) where
  unfoldable pub transmit : Bytes → Op S (Unit {0})
  transmit bytes c = sent (send_retried t bytes c)

  -- The loop of `waitForDeviceReply`, on fuel.
  pub wait_loop : ℕ → Device → S → Result OpError (Packet × Bytes) × S
  wait_loop zero device s = (err out_of_fuel, s)
  wait_loop (suc fuel) device s =
      let (received, s') = t.recv s in wait_round (wait_loop fuel device) device received s'

  unfoldable pub wait_for_device_reply : ℕ → Op S (Packet × Bytes)
  unfolding wait_loop wait_round wait_match
  wait_for_device_reply a c =
      let (r, s) = wait_loop (suc (t.backlog c.transport)) (c.heap a) c.transport in
      (r, record c { transport = s })

  -- What every request does up to its reply: build a packet for the device, send it, and wait.
  unfoldable pub round_trip : (Device → ℕ → Built) → ℕ → Op S (Packet × Bytes)
  round_trip make a = do
    device ← device_at a
    bytes ← build (make device)
    transmit bytes
    wait_for_device_reply a

  -- `GetDeviceConfigWithContext`
  unfoldable pub get_device_config : ℕ → List Bytes → Op S (Dict Bytes)
  get_device_config a names = do
    (p, payload) ← round_trip (λ device. create_get_data_packet device names) a
    lift (get_reply p payload)

  -- `GetAllDeviceConfigWithContext`
  unfoldable pub get_all_device_config : ℕ → Op S (Unit {0})
  get_all_device_config a = do
    config ← get_device_config a parameter_names
    device ← device_at a
    set_parameters a (merge_read device.parameters config)

  -- The prelude read of a set, if nothing is cached.
  unfoldable pub load_if_empty : ℕ → Dict Bytes → Op S (Unit {0})
  load_if_empty a [] = get_all_device_config a
  load_if_empty a (entry ∷ cached) = pure tt

  -- `SetDeviceConfigWithContext`
  unfoldable pub set_device_config : ℕ → Dict Bytes → Op S (Unit {0})
  set_device_config a config = do
    before ← device_at a
    load_if_empty a before.parameters
    (p, payload) ←
        round_trip
          (λ device. create_set_data_packet device (copy (copy [] device.parameters) config)) a
    lift (set_reply p payload)
    commit_config a config

  abbrev tried_reset :
      Result OpError (Packet × Bytes) × Client S → Result OpError (Unit {0}) × Client S
  tried_reset (r, c) = (reset_wait r, c)

  -- `ResetDeviceWithContext`
  unfoldable pub reset_device : ℕ → Op S (Unit {0})
  reset_device a = do
    device ← device_at a
    bytes ← build (create_reset_packet device)
    transmit bytes
    λ c. tried_reset (wait_for_device_reply a c)

  -- `GetDeviceNetworkConfigWithContext`
  unfoldable pub get_device_network_config : ℕ → Op S NetworkConfig
  get_device_network_config a = do
    (p, payload) ← round_trip create_get_ip_packet a
    lift (get_ip_reply p payload)

  -- `GetDeviceUUIDWithContext`
  unfoldable pub get_device_uuid : ℕ → Op S Bytes
  get_device_uuid a = do
    (p, payload) ← round_trip create_get_uuid_packet a
    lift (get_uuid_reply p payload)

  -- The receive loop of `DiscoverDevicesWithContext`: it ends when the context is done.
  unfoldable pub discover_loop : ℕ → Client S → Result OpError (Unit {0}) × Client S
  discover_loop zero c = (err out_of_fuel, c)
  discover_loop (suc fuel) c =
      let (received, s) = t.recv c.transport in
      discover_round (discover_loop fuel) (t.clock s) received (record c { transport = s })

  unfoldable pub discover_devices : Op S (Unit {0})
  unfolding discover_loop discover_round
  discover_devices c =
      let (bytes, seq) = create_advanced_discovery_packet c.sequence in
      continue (λ _ c'. discover_loop (suc (t.backlog c'.transport)) c')
        (transmit bytes (record c { sequence = seq }))
