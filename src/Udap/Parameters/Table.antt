-- ===== src/Udap/Parameters/Table.antt =====
-- udap/parameters.go: the table of NVRAM parameters and the lookups in it; the reverse index by
-- offset of udap/getdata_response.go.
use Prim.Native.String.{String}
use go_udap.Prelude.{
  ℕ, ◌≡◌, refl, Bool, List, [], ◌∷◌, map, Option, none, some, ltb, ◌==◌, if◌then◌else◌, Result, ok,
  err,
}
use go_udap.Prelude.Bytes.{Bytes, codes, bytes_eq}
use go_udap.Prelude.Dict.{Dict, get}
use go_udap.Go.Strings.{to_lower}

pub record Parameter : Type 0 where
  pub name : Bytes
  pub offset : ℕ
  pub len : ℕ
  pub placeholder : Bytes
  pub help : Bytes
  pub factory_default : Bytes

abbrev row : String → ℕ → ℕ → String → String → String → Parameter
row name offset len placeholder help factory_default = record {
  name = codes name;
  offset = offset;
  len = len;
  placeholder = codes placeholder;
  help = codes help;
  factory_default = codes factory_default;
}

unfoldable pub parameters : List Parameter
parameters =
    row "lan_ip_mode" 4 1 "0|1" "0=static, 1=DHCP" "1"
    ∷ row "lan_network_address" 5 4 "IP" "Static IPv4 address (e.g. 192.168.1.50)" "0.0.0.0"
    ∷ row "lan_subnet_mask" 9 4 "MASK" "Subnet mask (e.g. 255.255.255.0)" "255.255.255.0"
    ∷ row "lan_gateway" 13 4 "IP" "Default gateway IPv4 address" "0.0.0.0"
    ∷ row "hostname" 17 33 "NAME" "Device hostname (max 33 chars)" ""
    ∷ row "bridging" 50 1 "0|1" "0=disabled, 1=enabled" "0"
    ∷ row "interface" 52 1 "0|1" "0=wireless, 1=wired (Ethernet)" "128"
    ∷ row "primary_dns" 59 4 "IP" "Primary DNS server IPv4 address" "0.0.0.0"
    ∷ row "secondary_dns" 67 4 "IP" "Secondary DNS server IPv4 address" "0.0.0.0"
    ∷ row "server_address" 71 4 "IP" "Logitech Media Server IPv4 address" "0.0.0.0"
    ∷ row "lms_address" 79 4 "IP" "Alternative LMS server IPv4 address" "0.0.0.0"
    ∷ row "squeezecenter_name" 83 33 "NAME" "Squeezecenter / LMS server name (max 33 chars)" ""
    ∷ row "wireless_mode" 173 1 "0|1" "0=infrastructure, 1=ad-hoc" "0"
    ∷ row "wireless_SSID" 183 33 "SSID" "Wireless SSID (1-32 chars)" ""
    ∷ row "wireless_channel" 216 1 "N" "Wireless channel (1-13)" "6"
    ∷ row "wireless_region_id" 218 1 "ID"
        "Wireless region identifier (4=US, 6=CA, 7=AU, 13=FR, 14=EU, 16=JP, 21=TW, 23=CH)" "4"
    ∷ row "wireless_keylen" 220 1 "5|13" "WEP key length" "0"
    ∷ row "wireless_wep_key" 222 13 "HEX" "Primary WEP key" ""
    ∷ row "wireless_wep_key_1" 235 13 "HEX" "WEP key slot 1" ""
    ∷ row "wireless_wep_key_2" 248 13 "HEX" "WEP key slot 2" ""
    ∷ row "wireless_wep_key_3" 261 13 "HEX" "WEP key slot 3" ""
    ∷ row "wireless_wep_on" 274 1 "0|1" "0=disabled, 1=enabled" "0"
    ∷ row "wireless_wpa_cipher" 275 1 "1|2|3" "1=TKIP, 2=AES (CCMP), 3=TKIP+AES" "3"
    ∷ row "wireless_wpa_mode" 276 1 "1|2" "1=WPA, 2=WPA2" "1"
    ∷ row "wireless_wpa_on" 277 1 "0|1" "0=disabled, 1=enabled" "0"
    ∷ row "wireless_wpa_psk" 278 64 "PSK" "WPA pre-shared key (8-63 chars)" ""
    ∷ []

abbrev pub parameter_aliases : Dict Bytes
parameter_aliases =
    (codes "slimserver_address", codes "server_address")
    ∷ (codes "squeezecenter_address", codes "server_address")
    ∷ []

-- What a map that a loop over `xs` fills holds for a key: the last element with that key.
unfoldable pub last_match {ℓ} : {A : Type ℓ} → (A → Bool) → List A → Option A
last_match test [] = none
last_match test (x ∷ xs) = elim (last_match test xs) [
  | some y ↦ some y
  | none ↦ if test x then some x else none
]

-- `parameterIndex[name]`
unfoldable pub parameter_index : Bytes → Option Parameter
unfolding parameters last_match bytes_eq
parameter_index name = last_match (λ p. bytes_eq p.name name) parameters

-- `ParameterByName`
unfoldable pub parameter_by_name : Bytes → Option Parameter
unfolding get bytes_eq
parameter_by_name name = elim (parameter_index name) [
  | some p ↦ some p
  | none ↦ elim (get name parameter_aliases) [
    | none ↦ none
    | some canonical ↦ parameter_index canonical
  ]
]

-- `ParameterNames`
unfoldable pub parameter_names : List Bytes
unfolding parameters
parameter_names = map (λ p. p.name) parameters

-- `configParamByOffset[offset]`
unfoldable pub config_param_by_offset : ℕ → Option Bytes
unfolding parameters last_match
config_param_by_offset offset = elim (last_match (λ p. p.offset == offset) parameters) [
  | none ↦ none
  | some p ↦ some p.name
]

-- `Parameter.FlagName`
dashed : Bytes → Bytes
dashed = map (λ c. if c == b'_' then b'-' else c)

unfoldable pub flag_name : Parameter → Bytes
unfolding dashed to_lower
flag_name p = dashed (to_lower p.name)

abbrev pub max_nvram_offset : ℕ
max_nvram_offset = 65535

abbrev pub max_config_length : ℕ
max_config_length = 256

pub data InvalidParameter : Type 0 where
  offset_too_large : ℕ → InvalidParameter
  zero_length : InvalidParameter
  length_too_large : ℕ → InvalidParameter

-- `Parameter.Validate`
unfoldable pub validate_entry : Parameter → Result InvalidParameter (Unit {0})
validate_entry p =
    if ltb max_nvram_offset p.offset
    then err (offset_too_large p.offset)
    else if p.len == 0
    then err zero_length
    else if ltb max_config_length p.len
    then err (length_too_large p.len)
    else ok tt

lookup_tests :
    (config_param_by_offset 71 ≡ some (codes "server_address")) × (config_param_by_offset 70 ≡ none)
unfolding config_param_by_offset
lookup_tests = (refl, refl)
