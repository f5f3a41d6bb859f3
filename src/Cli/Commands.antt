-- ===== src/Cli/Commands.antt =====
-- The commands of cli/: get.go, read.go, set.go, reboot.go, getip.go, info.go, uuidfallback.go and
-- discover.go. A command returns the result that is rendered, or an error, and the client that it
-- made, if it made one.
pub mod Exits
use go_udap.Prelude.{
  ℕ, not, Bool, true, false, List, [], ◌∷◌, map, Option, none, some, ◌==◌, if◌then◌else◌, length,
  Result, ok, err,
}
use go_udap.Prelude.Bytes.{Bytes}
use go_udap.Prelude.Dict.{Dict}
use go_udap.Prelude.Sort.Texts.{sorted}
use go_udap.Go.Strings.{text_lt}
use go_udap.Udap.Mac.{mac_string}
use go_udap.Udap.GetIp.{NetworkConfig}
use go_udap.Udap.Discovery.{Device}
use go_udap.Udap.Transport.{Transport}
use go_udap.Udap.Client.{Client, list_devices, write_device}
use go_udap.Udap.Operations.{
  OpError, get_device_config, get_all_device_config, set_device_config, reset_device,
  get_device_network_config, get_device_uuid, discover_devices,
}
use go_udap.Cli.Mac.{normalize_mac}
use go_udap.Cli.Errors.{
  CommandError, ExitError, usage, failure, bad_mac, no_client, device_op_error, reboot_failed,
  set_reboot_failed, discovery_failed,
}
use go_udap.Cli.Find.{Schedule, discover_and_find}
use go_udap.Cli.Get.{canonical_param_names, get_result}
use go_udap.Cli.Output.{ParamValue, sorted_params, filter_read_output}
use go_udap.Cli.Set.{SetInputs, collect_parameters, apply_interface_default}

abbrev pub Outcome : Type 0 → Type 0 → Type 0
Outcome S A = Result ExitError A × Option (Client S)

abbrev network_or : Result OpError NetworkConfig → Option NetworkConfig
network_or (ok nc) = some nc
network_or (err e) = none

module _ {S : Type 0} where
  abbrev ran : {A : Type 0} → Result ExitError A × Client S → Outcome S A
  ran (r, c) = (r, some c)

  -- `newClient` gives a client, or an error.
  unfoldable pub with_client :
      {A : Type 0} → (Client S → Result ExitError A × Client S) → Result ℕ (Client S) → Outcome S A
  with_client f (err e) = (err (failure (no_client e)), none)
  with_client f (ok c) = ran (f c)

  -- What comes behind an operation on the device.
  unfoldable pub and_then :
      {A B : Type 0}
      → (A → Client S → Result ExitError B × Client S)
      → Result ExitError A × Client S
      → Result ExitError B × Client S
  and_then f (ok a, c) = f a c
  and_then f (err e, c) = (err e, c)

  unfoldable pub checked :
      {A : Type 0}
      → (OpError → ExitError)
      → Result OpError A × Client S
      → Result ExitError A × Client S
  checked e (ok a, c) = (ok a, c)
  checked e (err o, c) = (err (e o), c)

  abbrev give : {A : Type 0} → A → Client S → Result ExitError A × Client S
  give a c = (ok a, c)

  -- The parameters of the device at an address.
  abbrev known_at : ℕ → Client S → Dict Bytes
  known_at a c = (c.heap a).parameters

  abbrev set_uuid : ℕ → Result OpError Bytes × Client S → Client S
  set_uuid a (ok uuid, c) = write_device a (record (c.heap a) { uuid = uuid }) c
  set_uuid a (err e, c) = c

-- A command with a MAC address that is not one, or with other invalid input.
unfoldable pub with_mac :
    {S A : Type 0} → Bytes → (Bytes → Outcome S A) → Option Bytes → Outcome S A
with_mac arg f none = (err (usage (bad_mac arg)), none)
with_mac arg f (some mac) = f mac

unfoldable pub with_input :
    {S A B : Type 0} → (B → Outcome S A) → Result CommandError B → Outcome S A
with_input f (err e) = (err (usage e), none)
with_input f (ok b) = f b

module _ {S : Type 0} (t : Transport S) (sched : Schedule) (new_client : Result ℕ (Client S)) where
  -- What a command does with its device: it makes a client, finds the device, and goes on.
  unfoldable pub with_device :
      {A : Type 0} → Bytes → (ℕ → Client S → Result ExitError A × Client S) → Outcome S A
  with_device mac f = with_client (λ c. and_then f (discover_and_find t sched mac c)) new_client

  -- `runGet`
  unfoldable pub run_get : Bytes → List Bytes → Outcome S (List ParamValue)
  run_get arg params =
      with_mac arg
        (λ mac.
          with_input
            (λ canonical. with_device mac (λ a c.
              and_then (λ values. give (get_result params canonical values))
                (checked (device_op_error mac) (get_device_config t a params c))))
            (canonical_param_names params))
        (normalize_mac arg)

  abbrev read_output : Bool → Dict Bytes → List ParamValue
  read_output all m = sorted_params (if all then m else filter_read_output m)

  -- `runRead`
  unfoldable pub run_read : Bytes → Bool → Outcome S (List ParamValue)
  run_read arg all =
      with_mac arg
        (λ mac. with_device mac (λ a c.
          and_then (λ _ c'. give (read_output all (known_at a c')) c')
            (checked (device_op_error mac) (get_all_device_config t a c))))
        (normalize_mac arg)

  unfoldable pub reset_if : Bool → ℕ → Client S → Result ExitError (Unit {0}) × Client S
  reset_if true a c = checked (λ e. failure (set_reboot_failed e)) (reset_device t a c)
  reset_if false a c = (ok tt, c)

  -- The device's part of `runSet`.
  unfoldable pub apply_set :
      Bytes → Bool → Dict Bytes → ℕ → Client S → Result ExitError (List ParamValue) × Client S
  apply_set mac reboot params a c =
      and_then
        (λ _ c1.
          let merged = apply_interface_default params (known_at a c1) in
          and_then (λ _ c2. and_then (λ _. give (sorted_params merged)) (reset_if reboot a c2))
            (checked (device_op_error mac) (set_device_config t a merged c1)))
        (checked (device_op_error mac) (get_all_device_config t a c))

  -- `runSet`
  unfoldable pub run_set : Bytes → SetInputs → Outcome S (List ParamValue)
  unfolding apply_set
  run_set arg inputs =
      with_mac arg
        (λ mac.
          with_input (λ params. with_device mac (apply_set mac inputs.reboot params))
            (collect_parameters inputs))
        (normalize_mac arg)

  -- `runReboot`
  unfoldable pub run_reboot : Bytes → Outcome S (Unit {0})
  run_reboot arg =
      with_mac arg
        (λ mac.
          with_device mac (λ a c. checked (λ e. failure (reboot_failed e)) (reset_device t a c)))
        (normalize_mac arg)

  -- `runGetIP`
  unfoldable pub run_getip : Bytes → Outcome S NetworkConfig
  run_getip arg =
      with_mac arg
        (λ mac.
          with_device mac (λ a c. checked (device_op_error mac) (get_device_network_config t a c)))
        (normalize_mac arg)

  -- `maybeFillUUID`
  unfoldable pub maybe_fill_uuid : ℕ → Client S → Client S
  maybe_fill_uuid a c =
      if not (length (c.heap a).uuid == 0) then c else set_uuid a (get_device_uuid t a c)

  -- `runInfo`
  unfoldable pub run_info : Bytes → Outcome S Device
  unfolding maybe_fill_uuid
  run_info arg =
      with_mac arg
        (λ mac. with_device mac (λ a c. let c' = maybe_fill_uuid a c in give (c'.heap a) c'))
        (normalize_mac arg)

  abbrev by_mac : Client S → ℕ → ℕ → Bool
  by_mac c a b = text_lt (mac_string (c.heap a).mac) (mac_string (c.heap b).mac)

  -- `queryDeviceDetails`: the devices with what they answer.
  pub query_device_details : List ℕ → Client S → List (ℕ × Option NetworkConfig) × Client S
  query_device_details [] c = ([], c)
  query_device_details (a ∷ devices) c =
      let (nc, c1) = get_device_network_config t a (maybe_fill_uuid a c) in
      let (rest, c2) = query_device_details devices c1 in ((a, network_or nc) ∷ rest, c2)

  abbrev details_if : Bool → List ℕ → Client S → List (ℕ × Option NetworkConfig) × Client S
  details_if true devices c = query_device_details devices c
  details_if false devices c = (map (λ a. (a, none)) devices, c)

  abbrev outcome : {A : Type 0} → A × Client S → Result ExitError A × Client S
  outcome (r, c) = (ok r, c)

  -- `runDiscover`; without `--info` only the addresses are printed.
  unfoldable pub run_discover : Bool → Outcome S (List (ℕ × Option NetworkConfig))
  unfolding query_device_details
  run_discover info =
      with_client
        (λ c.
          and_then (λ _ c'. outcome (details_if info (sorted (by_mac c') (list_devices c')) c'))
            (checked (λ e. failure (discovery_failed e)) (discover_devices t c)))
        new_client
