-- ===== src/Examples/Flags.antt =====
-- The flags of the simulator at concrete inputs.
use go_udap.Prelude.{◌≡◌, refl, Bool, List, [], ◌∷◌, none, Option, ℕ, ok, err}
use go_udap.Prelude.Bytes.{Bytes, codes, bytes_eq}
use go_udap.Prelude.Dict.{get, put, delete_where}
use go_udap.Go.Hex.{hex_digit}
use go_udap.Go.Strings.{to_lower, to_lower_word, cut_at}
use go_udap.Go.Strconv.{atoi, parse_uint}
use go_udap.Go.Space.{trim_space, is_space, last_rune}
use go_udap.Go.Utf8.{decode_rune}
use go_udap.Mocksbr.Device.{op_get, op_set}
use go_udap.Mocksbr.Network.{auto_config, new_network, add, remove_auto, valid_mac}
use go_udap.Cmd.Flags.{
  DeviceOverride, parse_device_flags, parse_specs, parse_one_device_spec, parse_parts, parse_part,
  set_key, parse_index, split, fields_loop, parse_fail_on, parse_ops, parse_op, zero_config,
  apply_overrides, replace_auto_device, unknown_op, duplicate_idx,
}
use go_udap.Cmd.Flags.Indices.{AreNumbered, parse_device_flags-AreNumbered}

abbrev no_duration : Bytes → Option (Bool × ℕ)
no_duration s = none

abbrev specs : List Bytes
specs = codes "idx=2, name=attic" ∷ codes "IDX=1" ∷ []

abbrev overrides : List DeviceOverride
overrides =
    record { idx = 2; cfg = record zero_config { name = codes "attic" } }
    ∷ record { idx = 1; cfg = zero_config }
    ∷ []

specs_parsed : parse_device_flags no_duration 3 specs ≡ ok overrides
unfolding parse_device_flags parse_specs parse_one_device_spec parse_parts parse_part set_key
    parse_index split trim_space is_space last_rune decode_rune cut_at to_lower_word atoi parse_uint
    bytes_eq auto_config
specs_parsed = refl

parse_device_flags-AreNumbered_example : AreNumbered no_duration 3 overrides
parse_device_flags-AreNumbered_example =
    parse_device_flags-AreNumbered no_duration 3 specs overrides specs_parsed

flag_tests :
    (parse_fail_on (codes "get:/ Set") ≡ ok (op_get ∷ op_set ∷ []))
    × (parse_fail_on (codes "get|fly") ≡ err (unknown_op (codes "fly")))
    × (parse_device_flags no_duration 3 (codes "idx=1" ∷ codes "idx=1" ∷ [])
        ≡ err (duplicate_idx 1))
unfolding parse_fail_on fields_loop parse_ops parse_op parse_device_flags parse_specs
    parse_one_device_spec parse_parts parse_part set_key parse_index split trim_space is_space
    last_rune decode_rune cut_at to_lower_word atoi parse_uint bytes_eq auto_config
flag_tests = (refl, refl, refl)

abbrev named : ℕ → DeviceOverride
named n = record { idx = n; cfg = zero_config }

-- Behind the replacement of the first of three devices, the second is the one that was third.
shifted_order :
    (apply_overrides (named 1 ∷ []) (new_network 3)).1.order
    ≡ codes "00:04:20:00:00:02" ∷ codes "00:04:20:00:00:03" ∷ codes "00:04:20:00:00:01" ∷ []
unfolding apply_overrides replace_auto_device new_network add remove_auto auto_config to_lower
    valid_mac decode_rune get put delete_where bytes_eq hex_digit
shifted_order = refl
