-- ===== src/Examples/Commands.antt =====
-- Commands over the in-process transport.
use go_udap.Prelude.{◌≡◌, ◌≢◌, refl, true, false, none, ok, err, List, [], ◌∷◌, if◌then◌else◌}
use go_udap.Prelude.Bytes.{Bytes, codes, bytes_eq}
use go_udap.Prelude.Dict.{Dict, get}
use go_udap.Mocksbr.Transport.{mock_port}
use go_udap.Cli.Find.{Schedule}
use go_udap.Cli.Mac.{normalize_mac}
use go_udap.Cli.Get.{canonical_param_names}
use go_udap.Cli.Set.{SetInputs, collect_parameters, apply_interface_default}
use go_udap.Cli.Set.Interface.{interface_key, unset, value_behind, apply_interface_default_lem}
use go_udap.Cli.Commands.{run_get, run_read, run_set, run_reboot, run_getip, run_info}
use go_udap.Cli.Commands.Exits.{IsExit, if_some, is_ok, commands-IsExit}
use go_udap.Examples.Requests.{client}

-- A poll in front of every packet, and one late reply.
abbrev polling : Schedule
polling = record { polls = λ _. true; late = 1; expired = false }

abbrev mac : Bytes
mac = codes "00:04:20:00:00:02"

abbrev inputs : SetInputs
inputs = record {
  given = (codes "wireless-ssid", codes "attic") ∷ [];
  config_path = [];
  reboot = true;
  open_file = λ _. err 2;
  stdin_reader = record { content = []; failure = none };
  stdin_piped = false;
}

abbrev names : List Bytes
names = codes "hostname" ∷ codes "lan_ip_mode" ∷ []

commands-IsExit_example :
    IsExit
      (if_some (λ _. is_ok (canonical_param_names names)) (normalize_mac mac))
      (run_get mock_port polling (ok client) mac names)
    × IsExit
        (if_some (λ _. true) (normalize_mac mac))
        (run_read mock_port polling (ok client) mac true)
    × IsExit
        (if_some (λ _. is_ok (collect_parameters inputs)) (normalize_mac mac))
        (run_set mock_port polling (ok client) mac inputs)
    × IsExit
        (if_some (λ _. true) (normalize_mac mac))
        (run_reboot mock_port polling (ok client) mac)
    × IsExit (if_some (λ _. true) (normalize_mac mac)) (run_getip mock_port polling (ok client) mac)
    × IsExit (if_some (λ _. true) (normalize_mac mac)) (run_info mock_port polling (ok client) mac)
commands-IsExit_example = commands-IsExit mock_port polling (ok client) mac names true inputs

-- The player reports the sentinel, and the user sets a wireless network.
abbrev merged : Dict Bytes
merged = (codes "wireless_SSID", codes "attic") ∷ []

abbrev known : Dict Bytes
known = (codes "interface", codes "128") ∷ []

no_interface : get interface_key merged ≡ none
unfolding get bytes_eq
no_interface = refl

apply_interface_default_lem_example :
    (value_behind interface_key known (apply_interface_default merged known) ≢ unset)
    × ((k : Bytes)
        → get k (apply_interface_default merged known) ≡ (
            if bytes_eq interface_key k
            then get interface_key (apply_interface_default merged known)
            else get k merged))
apply_interface_default_lem_example = apply_interface_default_lem merged known no_interface
