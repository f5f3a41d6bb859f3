-- ===== src/Examples/Requests.antt =====
-- The client's operations over the in-process transport of the virtual network.
use go_udap.Prelude.{err, none, ◌+◌, ltb, if◌then◌else◌, ◌≡◌, ◌≢◌, refl, ap, [], ◌∷◌, some, arith}
use go_udap.Prelude.Bytes.{Bytes, codes}
use go_udap.Prelude.Dict.{Dict}
use go_udap.Udap.Mac.{Mac}
use go_udap.Udap.Discovery.{Device, blank_device}
use go_udap.Udap.Client.{Client, new_client_with_transport, record_device, send_retried, max_int}
use go_udap.Udap.Client.Send.{summary, attempts, send_retried_lem}
use go_udap.Udap.Client.Registry.{IsRegistry, new_client-IsRegistry, IsRegistry-record_device}
use go_udap.Udap.Operations.{wait_for_device_reply, set_device_config}
use go_udap.Udap.Operations.Wait.{Awaits, wait_for_device_reply-Awaits}
use go_udap.Udap.Transport.{SendError}
use go_udap.Udap.Operations.Discover.{
  asked, Discovers, discover_devices-Discovers, IsRegistry-discover_devices,
}
use go_udap.Udap.Operations.{discover_devices, send_failed}
use go_udap.Udap.Operations.Latest.{IsLatest, discover_devices-IsLatest}
use go_udap.Udap.Operations.SetConfig.{IsAtomic, set_device_config-IsAtomic}
use go_udap.Mocksbr.Network.{empty_network}
use go_udap.Mocksbr.Transport.{MockTransport, new_mock_transport, mock_port, mock_send}

abbrev receiver : Mac
receiver = record { b0 = 0; b1 = 4; b2 = 32; b3 = 0; b4 = 0; b5 = 1 }

abbrev known : Device
known = record (blank_device receiver (codes "10.0.0.2") 0) {
  parameters = (codes "hostname", codes "den") ∷ [];
}

abbrev fresh : Client MockTransport
fresh = new_client_with_transport (new_mock_transport empty_network 0 500) (λ _. known)

abbrev pub client : Client MockTransport
client = record_device known fresh

is_known : client.heap 0 ≡ known
unfolding record_device new_client_with_transport
is_known = refl

pub client-IsRegistry : IsRegistry client
client-IsRegistry =
    IsRegistry-record_device known fresh
      (new_client-IsRegistry (new_mock_transport empty_network 0 500) (λ _. known))

send_retried_lem_example : send_retried mock_port (1 ∷ 2 ∷ []) client ≡ (
    if ltb client.retries max_int
    then (
      summary (attempts mock_port (client.retries + 1) (1 ∷ 2 ∷ []) client.transport).0,
      record client {
        transport = (attempts mock_port (client.retries + 1) (1 ∷ 2 ∷ []) client.transport).1;
      },
    )
    else (none, client))
send_retried_lem_example = send_retried_lem mock_port (1 ∷ 2 ∷ []) client

wait_for_device_reply-Awaits_example :
    Awaits mock_port
      (client.heap 0)
      client.transport
      (wait_for_device_reply mock_port 0 client).0
      (wait_for_device_reply mock_port 0 client).1.transport
wait_for_device_reply-Awaits_example = wait_for_device_reply-Awaits mock_port 0 client

has_parameters : (client.heap 0).parameters ≢ []
has_parameters e =
    let q : known.parameters ≡ [] = cc (e, ap (λ (d : Device). d.parameters) is_known) in
    absurd (ground arith)

abbrev renamed : Dict Bytes
renamed = (codes "hostname", codes "attic") ∷ []

set_device_config-IsAtomic_example :
    IsAtomic 0 renamed client (set_device_config mock_port 0 renamed client)
set_device_config-IsAtomic_example =
    set_device_config-IsAtomic mock_port 0 renamed client has_parameters

discover_devices-Discovers_example :
    ((asked mock_port client).0 ≡ none
      → Discovers mock_port
          (asked mock_port client).1
          (discover_devices mock_port client).0
          (discover_devices mock_port client).1)
    × ((e : SendError)
        → (asked mock_port client).0 ≡ some e
        → discover_devices mock_port client ≡ (err (send_failed e), (asked mock_port client).1))
discover_devices-Discovers_example = discover_devices-Discovers mock_port client

IsRegistry-discover_devices_example : IsRegistry (discover_devices mock_port client).1
IsRegistry-discover_devices_example = IsRegistry-discover_devices mock_port client client-IsRegistry

request_sent : (asked mock_port client).0 ≡ none
unfolding send_retried record_device new_client_with_transport mock_send
request_sent = refl

discover_devices-IsLatest_example :
    IsLatest mock_port
      (asked mock_port client).1
      (discover_devices mock_port client).0
      (discover_devices mock_port client).1
discover_devices-IsLatest_example =
    discover_devices-IsLatest mock_port client client-IsRegistry request_sent
