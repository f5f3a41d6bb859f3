-- ===== src/Examples/EndToEnd.antt =====
-- A set and a get of the client against one virtual device.
use go_udap.Prelude.{List, [], ◌∷◌, ◌++◌, replicate}
use go_udap.Prelude.Bytes.{Bytes, codes}
use go_udap.Prelude.Dict.{Dict}
use go_udap.Udap.Mac.{Mac}
use go_udap.Udap.Parameters.Table.{parameters}
use go_udap.Udap.Discovery.{Device, blank_device}
use go_udap.Udap.Client.{Client, new_client_with_transport}
use go_udap.Mocksbr.Device.{MockDevice, new_device}
use go_udap.Mocksbr.Network.{Network, auto_config}
use go_udap.Mocksbr.Transport.{MockTransport, new_mock_transport}

abbrev receiver : Mac
receiver = record { b0 = 0; b1 = 4; b2 = 32; b3 = 0; b4 = 0; b5 = 1 }

abbrev known : Device
known = record (blank_device receiver [] 0) { parameters = (codes "hostname", codes "den") ∷ [] }

abbrev player : MockDevice
player = record (new_device (auto_config 1)) { working_memory = [] }

abbrev network : Network
network = record {
  devices = (codes "00:04:20:00:00:01", player) ∷ [];
  order = codes "00:04:20:00:00:01" ∷ [];
}

abbrev client : Client MockTransport
client = new_client_with_transport (new_mock_transport network 0 500) (λ _. known)

abbrev config : Dict Bytes
config = (codes "lan_ip_mode", codes "1") ∷ []

abbrev settings : Dict Bytes
settings = (codes "hostname", codes "den") ∷ (codes "lan_ip_mode", codes "1") ∷ []

abbrev payload : Bytes
payload =
    replicate 32 0 ++ (0 ∷ 2 ∷ 0 ∷ 4 ∷ 0 ∷ 1 ∷ 1 ∷ 0 ∷ 17 ∷ 0 ∷ 33 ∷ codes "den" ++ replicate 30 0)

abbrev names : List Bytes
names = codes "hostname" ∷ codes "lan_ip_mode" ∷ []
