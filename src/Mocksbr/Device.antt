-- ===== src/Mocksbr/Device.antt =====
-- mocksbr/device.go: one virtual device. Times are nanoseconds, as in Go's
-- `time.Duration`; a duration that can be below zero has a flag that says so.
use go_udap.Prelude.{
  ℕ, ◌+◌, ◌-◌, Bool, true, false, ◌&&◌, ◌||◌, List, [], ◌∷◌, Option, none, some, ltb, ◌==◌,
  if◌then◌else◌, length,
}
use go_udap.Prelude.Bytes.{Bytes, codes}
use go_udap.Prelude.Dict.{Dict, get, put, copy}
use go_udap.Udap.Parameters.Table.{Parameter, parameters}

-- `MalformedMode`
pub data MalformedMode : Type 0 where
  malformed_none malformed_oversized_count malformed_length_exceeds_payload
        malformed_unknown_method :
      MalformedMode

pub data Op : Type 0 where
  op_discover op_get op_set op_save op_reset op_get_ip op_get_uuid : Op

pub record DeviceConfig : Type 0 where
  pub mac : Bytes
  pub name : Bytes
  pub model : Bytes
  pub device_id : Bytes
  pub firmware : Bytes
  pub hardware : Bytes
  pub uuid : Bytes
  pub ip : Bytes
  pub subnet_mask : Bytes
  pub gateway : Bytes
  pub nvram : Dict Bytes
  pub fail_on : List Op
  -- a duration that is not above zero is 0: the code asks no more of it
  pub slow : ℕ
  pub unreachable : Bool
  pub reboot_delay : Bool × ℕ
  pub drop_get_data : Bool
  pub drop_get_ip : Bool
  pub drop_get_uuid : Bool
  pub suppress_discovery_uuid : Bool
  pub unknown_offsets : List (ℕ × Bytes)
  pub malformed : MalformedMode

-- `device`; the zero `time.Time` is `none`.
pub record MockDevice : Type 0 where
  pub cfg : DeviceConfig
  pub working_memory : Dict Bytes
  pub nvram : Dict Bytes
  pub reboot_deadline : Option ℕ

fill_defaults : List Parameter → Dict Bytes → Dict Bytes
fill_defaults [] out = out
fill_defaults (p ∷ ps) out = fill_defaults ps (put p.name p.factory_default out)

unfoldable pub factory_defaults : Dict Bytes
unfolding fill_defaults parameters
factory_defaults = fill_defaults parameters []

abbrev pub default_reboot_delay : Bool × ℕ
default_reboot_delay = (false, 100_000_000)

abbrev or_default : Bytes → Bytes → Bytes
or_default [] d = d
or_default (b ∷ s) d = b ∷ s

-- The defaults of `newDevice`.
unfoldable pub with_defaults : DeviceConfig → DeviceConfig
with_defaults cfg = record cfg {
  model = or_default cfg.model (codes "squeezebox");
  device_id = or_default cfg.device_id (codes "07");
  firmware = or_default cfg.firmware (codes "77");
  hardware = or_default cfg.hardware (codes "0005");
  reboot_delay = if cfg.reboot_delay.1 == 0 then default_reboot_delay else cfg.reboot_delay;
}

abbrev set_hostname : Bytes → Dict Bytes → Dict Bytes
set_hostname [] m = m
set_hostname (b ∷ s) m = put (codes "hostname") (b ∷ s) m

unfoldable pub new_device : DeviceConfig → MockDevice
unfolding with_defaults
new_device cfg =
    let memory = set_hostname cfg.name (copy factory_defaults cfg.nvram) in
    record {
      cfg = with_defaults cfg;
      working_memory = memory;
      nvram = memory;
      reboot_deadline = none;
    }

unfoldable pub apply_set : Dict Bytes → MockDevice → MockDevice
apply_set params d = record d { working_memory = copy d.working_memory params }

unfoldable pub apply_save : MockDevice → MockDevice
apply_save d = record d { nvram = d.working_memory }

unfoldable pub apply_reset : MockDevice → MockDevice
apply_reset d = record d { working_memory = d.nvram }

-- A time behind a duration, and not before the start of the clock.
abbrev later : ℕ → Bool × ℕ → ℕ
later now (negative, n) = if negative then now - n else now + n

unfoldable pub start_reboot : ℕ → MockDevice → MockDevice
start_reboot now d = record d { reboot_deadline = some (later now d.cfg.reboot_delay) }

-- Whether the device drops packets at the time `now`; the end of the window reloads its memory.
unfoldable pub rebooting : ℕ → MockDevice → Bool × MockDevice
rebooting now d = elim d.reboot_deadline [
  | none ↦ (false, d)
  | some deadline ↦
      if ltb now deadline
      then (true, d)
      else (false, record d { reboot_deadline = none; working_memory = d.nvram })
]

unfoldable pub op_eq : Op → Op → Bool
op_eq op_discover op_discover = true
op_eq op_get op_get = true
op_eq op_set op_set = true
op_eq op_save op_save = true
op_eq op_reset op_reset = true
op_eq op_get_ip op_get_ip = true
op_eq op_get_uuid op_get_uuid = true
op_eq _ _ = false

-- The loop of `failsOn`; a set and a save stand for one another.
fails_with : List Op → Op → Bool
fails_with [] op = false
fails_with (configured ∷ rest) op =
    op_eq configured op
    || (op_eq op op_set && op_eq configured op_save)
    || (op_eq op op_save && op_eq configured op_set)
    || fails_with rest op

unfoldable pub fails_on : Op → MockDevice → Bool
unfolding fails_with op_eq
fails_on op d = fails_with d.cfg.fail_on op

-- A read of a missing key gives the empty string.
abbrev pub read_key : Bytes → Dict Bytes → Bytes
read_key k m = elim (get k m) [ none ↦ [] | some v ↦ v ]

unfoldable pub state : MockDevice → Bytes
state d =
    if length (read_key (codes "hostname") d.working_memory) == 0
    then codes "init"
    else codes "wait_slimserver"
