-- ===== src/Udap/Validation.antt =====
-- udap/validation.go: the checks on what a user enters, and on a device. The checks on packets and
-- TLVs stand with their formats.
pub mod Encodes
use go_udap.Prelude.{
  ℕ, ◌≡◌, refl, Bool, true, false, not, ◌&&◌, ◌||◌, List, [], ◌∷◌, Option, none, some, ltb, ◌==◌,
  if◌then◌else◌, length, Result, ok, err, ◌>>=◌,
}
use Prim.Native.String.{String}
use go_udap.Prelude.Bytes.{Bytes, bytes_eq, codes}
use go_udap.Prelude.Dict.{Dict}
use go_udap.Go.Strconv.{parse_uint, atoi}
use go_udap.Go.NetIp.{parse_ip, to4}
use go_udap.Udap.Mac.{is_zero}
use go_udap.Udap.Parameters.Table.{Parameter, parameter_by_name}
use go_udap.Udap.Discovery.{Device}

pub data ValueError : Type 0 where
  not_a_byte : Bytes → ValueError
  not_a_word : Bytes → ValueError
  not_an_address : Bytes → ValueError
  too_long : ℕ → ℕ → ValueError
  bad_mode bad_channel bad_keylen bad_psk bad_ssid : ValueError

unfoldable pub is_valid_ip : Bytes → Bool
is_valid_ip s = elim (parse_ip s) [
  | none ↦ false
  | some ip ↦ elim (to4 ip) [ none ↦ false | some ip4 ↦ true ]
]

abbrev require : Bool → ValueError → Result ValueError (Unit {0})
require true e = ok tt
require false e = err e

-- The rules by the parameter's length.
unfoldable pub type_rule : Parameter → Bytes → Result ValueError (Unit {0})
type_rule p value =
    if p.len == 1
    then elim (parse_uint 255 value) [ none ↦ err (not_a_byte value) | some n ↦ ok tt ]
    else if p.len == 2
    then elim (parse_uint 65535 value) [ none ↦ err (not_a_word value) | some n ↦ ok tt ]
    else if p.len == 4
    then require (is_valid_ip value) (not_an_address value)
    else require (not (ltb p.len (length value))) (too_long p.len (length value))

unfoldable pub is_channel : Bytes → Bool
is_channel value = elim (atoi value) [
  | none ↦ false
  | some (negative, n) ↦ not negative && not (ltb n 1) && not (ltb 13 n)
]

abbrev is_text : Bytes → String → Bool
is_text s t = bytes_eq s (codes t)

-- The rules by the name that the user wrote.
unfoldable pub name_rule : Bytes → Bytes → Result ValueError (Unit {0})
name_rule name value =
    if is_text name "wireless_mode"
    then require (is_text value "0" || is_text value "1") bad_mode
    else if is_text name "wireless_channel"
    then require (is_channel value) bad_channel
    else if is_text name "wireless_keylen"
    then require (is_text value "5" || is_text value "13") bad_keylen
    else if is_text name "wireless_wpa_psk"
    then require (not (ltb (length value) 8) && not (ltb 63 (length value))) bad_psk
    else if is_text name "wireless_SSID"
    then require (not (ltb (length value) 1) && not (ltb 32 (length value))) bad_ssid
    else ok tt

-- An unknown name is accepted with any value.
unfoldable pub validate_parameter : Bytes → Bytes → Result ValueError (Unit {0})
validate_parameter name value = elim (parameter_by_name name) [
  | none ↦ ok tt
  | some p ↦ type_rule p value >>= λ _. name_rule name value
]

abbrev pub max_device_name_length : ℕ
max_device_name_length = 64

pub data DeviceError : Type 0 where
  zero_address : DeviceError
  bad_address : Bytes → DeviceError
  name_too_long : ℕ → DeviceError
  bad_value : Bytes → ValueError → DeviceError

-- The loop over the parameters, in the order in which `range` visits them.
unfoldable pub validate_values : Dict Bytes → Result DeviceError (Unit {0})
validate_values [] = ok tt
validate_values ((name, value) ∷ params) = elim (validate_parameter name value) [
  | err e ↦ err (bad_value name e)
  | ok u ↦ validate_values params
]

-- `Device.Validate`
unfoldable pub validate_device : Device → Result DeviceError (Unit {0})
validate_device d =
    if is_zero d.mac
    then err zero_address
    else if not (length d.ip == 0) && not (is_text d.ip "0.0.0.0") && not (is_valid_ip d.ip)
    then err (bad_address d.ip)
    else if ltb max_device_name_length (length d.name)
    then err (name_too_long (length d.name))
    else validate_values d.parameters

pub data ClientError : Type 0 where
  no_transport no_logger no_devices : ClientError

-- `Client.Validate`, by what is nil.
unfoldable validate_client : Bool → Bool → Bool → Result ClientError (Unit {0})
validate_client transport_nil logger_nil devices_nil =
    if transport_nil
    then err no_transport
    else if logger_nil
    then err no_logger
    else if devices_nil
    then err no_devices
    else ok tt
