-- ===== src/Cmd/Flags.antt =====
-- cmd/mocksbr/flags.go: the `--device` flags, and the part of cmd/mocksbr/main.go that applies them.
pub mod Indices
use go_udap.Prelude.{
  ℕ, suc, ◌+◌, ◌≡◌, refl, Bool, true, false, not, ◌&&◌, ◌||◌, List, [], ◌∷◌, ◌++◌, Option, none,
  some, ltb, ◌==◌, if◌then◌else◌, length, Result, ok, err, ◌>>=◌,
}
use Prim.Native.String.{String}
use go_udap.Prelude.Bytes.{Bytes, codes, bytes_eq}
use go_udap.Go.Strings.{to_lower, to_lower_word, cut_at}
use go_udap.Go.Strconv.{atoi}
use go_udap.Go.Space.{trim_space}
use go_udap.Mocksbr.Device.{
  DeviceConfig, MalformedMode, malformed_none, malformed_oversized_count,
  malformed_length_exceeds_payload, malformed_unknown_method, Op, op_discover, op_get, op_set,
  op_save, op_reset,
}
use go_udap.Mocksbr.Network.{
  Network, AddError, add, remove_auto, auto_config, new_network, three_digits,
}
use go_udap.Cmd.Values.{is_one_of}
pub use go_udap.Cmd.Values.{
  FlagError, missing_separator, not_a_number, out_of_range, not_a_duration, not_a_bool, unknown_op,
  unknown_mode, unknown_key, missing_idx, duplicate_idx,
}
unfoldable pub use go_udap.Cmd.Values.{
  split, fields_loop, parse_bool, parse_op, parse_ops, parse_fail_on, parse_malformed,
}

-- `deviceOverride`
pub record DeviceOverride : Type 0 where
  pub idx : ℕ
  pub cfg : DeviceConfig

-- The override so far, and `idxSeen` as whether there is an index.
pub record Spec : Type 0 where
  pub index : Option ℕ
  pub config : DeviceConfig

-- A config with every field at its zero value.
abbrev pub zero_config : DeviceConfig
zero_config = record (auto_config 1) { mac = []; uuid = [] }

-- `idx`
unfoldable pub parse_index : ℕ → Bytes → Result FlagError ℕ
parse_index n_devices val = elim (atoi val) [
  | none ↦ err (not_a_number val)
  | some (negative, n) ↦
      if negative || ltb n 1 || ltb n_devices n then err (out_of_range val) else ok n
]

abbrev required {ℓ} : {A : Type ℓ} → FlagError → Option A → Result FlagError A
required e none = err e
required e (some a) = ok a

abbrev stored {ℓ} : {A : Type ℓ} → (A → Spec) → Result FlagError A → Result FlagError Spec
stored f (err e) = err e
stored f (ok a) = ok (f a)

-- The part of a duration above zero.
abbrev positive : Bool × ℕ → ℕ
positive (negative, n) = if negative then 0 else n

-- `time.ParseDuration` is a parameter: whether the duration is below zero and its nanoseconds, or an
-- error.
module _ (parse_duration : Bytes → Option (Bool × ℕ)) (n_devices : ℕ) where
  -- The switch on the key.
  unfoldable pub set_key : Bytes → Bytes → Spec → Result FlagError Spec
  set_key key val st =
      let cfg = st.config in
      if is_one_of key ("idx" ∷ [])
      then stored (λ n. record st { index = some n }) (parse_index n_devices val)
      else if is_one_of key ("mac" ∷ [])
      then ok (record st { config = record cfg { mac = val } })
      else if is_one_of key ("name" ∷ [])
      then ok (record st { config = record cfg { name = val } })
      else if is_one_of key ("model" ∷ [])
      then ok (record st { config = record cfg { model = val } })
      else if is_one_of key ("firmware" ∷ [])
      then ok (record st { config = record cfg { firmware = val } })
      else if is_one_of key ("hardware" ∷ [])
      then ok (record st { config = record cfg { hardware = val } })
      else if is_one_of key ("device-id" ∷ "deviceid" ∷ [])
      then ok (record st { config = record cfg { device_id = val } })
      else if is_one_of key ("uuid" ∷ [])
      then ok (record st { config = record cfg { uuid = val } })
      else if is_one_of key ("reboot" ∷ [])
      then stored (λ d. record st { config = record cfg { reboot_delay = d } })
          (required (not_a_duration key val) (parse_duration val))
      else if is_one_of key ("slow" ∷ [])
      then stored (λ d. record st { config = record cfg { slow = positive d } })
          (required (not_a_duration key val) (parse_duration val))
      else if is_one_of key ("unreachable" ∷ [])
      then stored (λ b. record st { config = record cfg { unreachable = b } })
          (required (not_a_bool val) (parse_bool val))
      else if is_one_of key ("fail-on" ∷ "failon" ∷ [])
      then stored (λ ops. record st { config = record cfg { fail_on = ops } }) (parse_fail_on val)
      else if is_one_of key ("malformed" ∷ [])
      then stored (λ m. record st { config = record cfg { malformed = m } }) (parse_malformed val)
      else err (unknown_key key)

  -- One round of the loop over the comma-separated parts.
  unfoldable pub parse_part : Bytes → Spec → Result FlagError Spec
  parse_part part st =
      let kv = trim_space part in
      if length kv == 0 then ok st else elim (cut_at b'=' kv) [
        | none ↦ err (missing_separator kv)
        | some (key, val) ↦ set_key (to_lower_word (trim_space key)) (trim_space val) st
      ]

  unfoldable pub parse_parts : List Bytes → Spec → Result FlagError Spec
  parse_parts [] st = ok st
  parse_parts (part ∷ parts) st = parse_part part st >>= parse_parts parts

  abbrev with_index : Spec → Result FlagError DeviceOverride
  with_index st = elim st.index [
    | none ↦ err missing_idx
    | some n ↦ ok (record { idx = n; cfg = st.config })
  ]

  -- `parseOneDeviceSpec`
  unfoldable pub parse_one_device_spec : Bytes → Result FlagError DeviceOverride
  unfolding parse_parts parse_part set_key
  parse_one_device_spec spec =
      parse_parts (split b',' spec) (record { index = none; config = zero_config }) >>= with_index

  abbrev seen : ℕ → List DeviceOverride → Bool
  seen n [] = false
  seen n (ov ∷ ovs) = (ov.idx == n) || seen n ovs

  -- The loop of `parseDeviceFlags`: `seenIdx` has the indices in `out`.
  unfoldable pub parse_specs :
      List Bytes → List DeviceOverride → Result FlagError (List DeviceOverride)
  parse_specs [] out = ok out
  parse_specs (spec ∷ specs) out = elim (parse_one_device_spec spec) [
    | err e ↦ err e
    | ok ov ↦
        if seen ov.idx out then err (duplicate_idx ov.idx) else parse_specs specs (out ++ ov ∷ [])
  ]

  -- `parseDeviceFlags`
  unfoldable pub parse_device_flags : List Bytes → Result FlagError (List DeviceOverride)
  unfolding parse_specs
  parse_device_flags specs = parse_specs specs []

pub data ReplaceError : Type 0 where
  no_auto_device : ℕ → ReplaceError
  not_added : AddError → ReplaceError

abbrev or_text : Bytes → Bytes → Bytes
or_text [] d = d
or_text (c ∷ s) d = c ∷ s

-- The config with the identity fields of the device that it replaces; `%03d` of an index below 1000.
abbrev pub inherited : ℕ → Bytes → DeviceConfig → DeviceConfig
inherited idx mac cfg = record cfg {
  mac = or_text cfg.mac mac;
  uuid = or_text cfg.uuid (codes "mock-sbr-" ++ three_digits idx);
}

abbrev pub added : Result AddError Bytes × Network → Result ReplaceError (Unit {0}) × Network
added (ok mac, n) = (ok tt, n)
added (err e, n) = (err (not_added e), n)

-- `replaceAutoDevice`
unfoldable pub replace_auto_device :
    ℕ → DeviceConfig → Network → Result ReplaceError (Unit {0}) × Network
replace_auto_device idx cfg n =
    let (mac, n') = remove_auto idx n in
    if length mac == 0
    then (err (no_auto_device idx), n')
    else added (add (inherited idx mac cfg) n')

-- The loop of `run` over the overrides.
unfoldable pub apply_overrides :
    List DeviceOverride → Network → Result ReplaceError (Unit {0}) × Network
apply_overrides [] n = (ok tt, n)
apply_overrides (ov ∷ ovs) n =
    let (r, n') = replace_auto_device ov.idx (record ov.cfg { mac = to_lower ov.cfg.mac }) n in
    elim r [ ok u ↦ apply_overrides ovs n' | err e ↦ (err e, n') ]
