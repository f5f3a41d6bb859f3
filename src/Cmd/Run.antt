-- ===== src/Cmd/Run.antt =====
-- cmd/mocksbr/main.go: what the simulator does with its flags, up to the loop that answers packets, and
-- its exit code. What the flag library reads from the command line is a parameter.
pub mod Count
pub mod Members
use go_udap.Prelude.{
  ℕ, ◌<◌, ◌≡◌, Bool, true, false, not, ◌&&◌, List, Option, none, some, if◌then◌else◌, Result, ok,
  err, ◌==◌,
}
use go_udap.Prelude.Bytes.{Bytes}
use go_udap.Mocksbr.Network.{Network, new_network}
use go_udap.Cmd.Flags.{DeviceOverride, FlagError, ReplaceError, parse_device_flags, apply_overrides}
use go_udap.Cmd.Serve.{Conn, Ending, serve}

-- The flags; a number of devices below zero is flagged.
pub record Options : Type 0 where
  pub negative : Bool
  pub devices : ℕ
  pub listen : Bytes
  pub show_version : Bool
  pub show_help : Bool
  pub device : List Bytes

pub data RunError : Type 0 where
  bad_flags : Bytes → RunError
  negative_devices : ℕ → RunError
  bad_device : FlagError → RunError
  not_replaced : ReplaceError → RunError
  not_resolved : ℕ → RunError
  not_bound : ℕ → RunError

-- `errors.Is(err, errUsage)`
unfoldable pub is_usage : RunError → Bool
is_usage (not_resolved e) = false
is_usage (not_bound e) = false
is_usage e = true

-- `main`: the exit code.
unfoldable pub exit_status : {A : Type 0} → Result RunError A → ℕ
unfolding is_usage
exit_status (ok a) = 0
exit_status (err e) = if is_usage e then 1 else 2

-- What the flag library makes of the arguments: flags, a request for help, or an error.
pub data Parsed : Type 0 where
  flags : Options → Parsed
  help_requested : Parsed
  parse_error : Bytes → Parsed

-- A run that succeeds has printed, or served the network until it was stopped.
pub data RunOutcome (S : Type 0) : Type 0 where
  prints_help prints_version : RunOutcome S
  served : Network × S → RunOutcome S

-- The network that the flags describe.
unfoldable pub network_of : (Bytes → Option (Bool × ℕ)) → Options → Result RunError Network
network_of parse_duration o =
    if o.negative && not (o.devices == 0)
    then err (negative_devices o.devices)
    else elim (parse_device_flags parse_duration o.devices o.device) [
      | err e ↦ err (bad_device e)
      | ok overrides ↦
          let (r, n) = apply_overrides overrides (new_network o.devices) in
          elim r [ ok u ↦ ok n | err e ↦ err (not_replaced e) ]
    ]

module _ {S : Type 0} (conn : Conn S) (ending : Ending conn)
    (parse_duration : Bytes → Option (Bool × ℕ)) (resolve : Bytes → Result ℕ Bytes)
    (bind : Bytes → Result ℕ S) where
  -- `resolveUDPAddr`, `bindUDP` and the loop.
  unfoldable pub listen_and_serve : Bytes → Network → Result RunError (RunOutcome S)
  listen_and_serve listen n = elim (resolve listen) [
    | err e ↦ err (not_resolved e)
    | ok addr ↦ elim (bind addr) [
      | err e ↦ err (not_bound e)
      | ok s ↦ ok (served (serve conn ending n s))
    ]
  ]

  unfoldable pub run_flags : Options → Result RunError (RunOutcome S)
  unfolding network_of listen_and_serve
  run_flags o =
      if o.show_help
      then ok prints_help
      else if o.show_version
      then ok prints_version
      else elim (network_of parse_duration o) [ err e ↦ err e | ok n ↦ listen_and_serve o.listen n ]

  -- `run`
  unfoldable pub run : Parsed → Result RunError (RunOutcome S)
  unfolding run_flags
  run (flags o) = run_flags o
  run help_requested = ok prints_help
  run (parse_error m) = err (bad_flags m)
