-- ===== src/Examples/Opening.antt =====
-- Making a client at concrete inputs.
use go_udap.Prelude.{◌≡◌, refl, false, true, List, [], ◌∷◌, none, some, Result, ok, ℕ}
use go_udap.Prelude.Bytes.{codes, bytes_eq}
use go_udap.Udap.Discovery.{Device, blank_device}
use go_udap.Udap.Interfaces.{
  RawInterface, ip_net, enumerate_interfaces, usable_interfaces, usable, first_ip4,
}
use go_udap.Go.NetIp.{to4}
use go_udap.Udap.Client.Open.{System}
use go_udap.Cli.Root.{
  Invocation, BindInterfaceSelection, persistent_pre_run, reject_format_flag, changed_format_flag,
  check_selection, has_name,
}
use go_udap.Cli.NewClient.{new_client}
use go_udap.Cli.NewClient.Checked.{IsOpened, new_client-IsOpened}

-- A system whose sockets have numbers, and which cannot bind to an interface.
abbrev system : System ℕ
system = record {
  resolve = λ port. none;
  listen = λ port. ok 3;
  listen_shared = λ port. ok 4;
  bind_to_interface = λ socket iface. some 1;
}

abbrev raw : Result ℕ (List RawInterface)
raw = ok (
    record {
      name = codes "eth0";
      index = 2;
      up = true;
      broadcasts = true;
      loopback = false;
      addrs = some (ip_net (10 ∷ 0 ∷ 0 ∷ 9 ∷ []) (255 ∷ 255 ∷ 255 ∷ 0 ∷ []) ∷ []);
    }
    ∷ [])

abbrev selection : BindInterfaceSelection
selection = record { name = codes "eth0"; all = false }

abbrev invocation : Invocation
invocation = record {
  json_changed = false;
  format_changed = false;
  command = record { name = codes "reboot"; result = false; no_result = none };
  ancestors = record { name = codes "go-udap"; result = false; no_result = none } ∷ [];
  shows_version = false;
  selection = selection;
  interfaces = enumerate_interfaces raw;
}

checked : persistent_pre_run invocation ≡ ok selection
unfolding persistent_pre_run reject_format_flag changed_format_flag check_selection has_name
    enumerate_interfaces usable_interfaces usable first_ip4 to4 bytes_eq
checked = refl

abbrev devices : ℕ → Device
devices a = blank_device (record { b0 = 0; b1 = 4; b2 = 32; b3 = 0; b4 = 0; b5 = 1 }) [] 0

new_client-IsOpened_example :
    IsOpened system selection
      (enumerate_interfaces raw)
      (new_client system devices (enumerate_interfaces raw) selection false 2)
new_client-IsOpened_example =
    new_client-IsOpened system devices false 2 invocation selection raw refl checked
