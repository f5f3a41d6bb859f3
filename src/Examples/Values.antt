-- ===== src/Examples/Values.antt =====
-- Validated values at concrete inputs.
use go_udap.Prelude.{◌≡◌, ◌≢◌, refl, [], some, ok, err}
use go_udap.Prelude.Bytes.{Bytes, bytes_eq, codes}
use go_udap.Go.Strconv.{parse_uint, atoi}
use go_udap.Udap.Parameters.Table.{Parameter, parameters, parameter_index, parameter_by_name}
use go_udap.Udap.Parameters.Codec.{encode, format_get_data_value}
use go_udap.Udap.Parameters.Canonical.{LacksNul}
use go_udap.Udap.Validation.{
  type_rule, name_rule, is_channel, validate_parameter, bad_channel, bad_ssid, not_a_byte,
}
use go_udap.Udap.Validation.Encodes.{encode-validate_parameter}

abbrev ssid : Parameter
ssid = record {
  name = codes "wireless_SSID";
  offset = 183;
  len = 33;
  placeholder = codes "SSID";
  help = codes "Wireless SSID (1-32 chars)";
  factory_default = [];
}

ssid_found : parameter_by_name (codes "wireless_SSID") ≡ some ssid
unfolding parameter_by_name parameter_index parameters
ssid_found = refl

ssid_valid : validate_parameter (codes "wireless_SSID") (codes "attic") ≡ ok tt
unfolding validate_parameter type_rule name_rule parameter_by_name parameter_index parameters
    bytes_eq
ssid_valid = refl

rejected_tests :
    (validate_parameter (codes "wireless_SSID") [] ≡ err bad_ssid)
    × (validate_parameter (codes "wireless_channel") (codes "14") ≡ err bad_channel)
    × (validate_parameter (codes "wireless_channel") (codes "+1") ≡ err (not_a_byte (codes "+1")))
unfolding validate_parameter type_rule name_rule is_channel parameter_by_name parameter_index
    parameters bytes_eq parse_uint atoi
rejected_tests = (refl, refl, refl)

encode-validate_parameter_example :
    (bs : Bytes) × (encode ssid (codes "attic") ≡ ok bs)
    × (ssid.len ≢ 1
        → ssid.len ≢ 2
        → ssid.len ≢ 4
        → LacksNul (codes "attic")
        → format_get_data_value bs ≡ codes "attic")
encode-validate_parameter_example =
    encode-validate_parameter (codes "wireless_SSID") (codes "attic") ssid ssid_found ssid_valid
