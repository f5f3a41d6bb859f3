-- ===== src/Udap/GetIp.antt =====
-- udap/getip.go: `parseGetIPResponse`; udap/netconfig.go: the record that it returns.
pub mod Fields
use go_udap.Prelude.{
  ℕ, ◌≡◌, refl, [], ◌∷◌, ◌++◌, ◌==◌, if◌then◌else◌, length, bit_or, Bool, false, true, ◌&&◌, ◌||◌,
  Option, some, none,
}
use go_udap.Prelude.Bytes.{Bytes, codes, bytes_eq}
use go_udap.Go.NetIp.{net_ipv4, to4, format_ip4}
use go_udap.Udap.Tlv.{scan_tlvs}

abbrev pub tlv_ip_addr : ℕ
tlv_ip_addr = 5

abbrev pub tlv_subnet_mask : ℕ
tlv_subnet_mask = 6

abbrev pub tlv_gateway_addr : ℕ
tlv_gateway_addr = 7

-- `NetworkConfig`; a nil `net.IP` is `[]`.
pub record NetworkConfig : Type 0 where
  pub ip : Bytes
  pub subnet_mask : Bytes
  pub gateway : Bytes

abbrev pub empty_config : NetworkConfig
empty_config = record { ip = []; subnet_mask = []; gateway = [] }

-- One entry: a known code with four bytes sets its field.
unfoldable pub set_field : ℕ → Bytes → NetworkConfig → NetworkConfig
set_field tag (a ∷ b ∷ c ∷ d ∷ []) nc =
    if tag == tlv_ip_addr
    then record nc { ip = net_ipv4 a b c d }
    else if tag == tlv_subnet_mask
    then record nc { subnet_mask = net_ipv4 a b c d }
    else if tag == tlv_gateway_addr
    then record nc { gateway = net_ipv4 a b c d }
    else nc
set_field tag value nc = nc

unfoldable pub parse_get_ip_response : Bytes → NetworkConfig
unfolding scan_tlvs set_field
parse_get_ip_response buf = scan_tlvs set_field buf empty_config

get_ip_test :
    parse_get_ip_response (5 ∷ 4 ∷ 10 ∷ 0 ∷ 0 ∷ 1 ∷ 6 ∷ 3 ∷ 255 ∷ 255 ∷ 255 ∷ 7 ∷ 9 ∷ [])
    ≡ record { ip = net_ipv4 10 0 0 1; subnet_mask = []; gateway = [] }
unfolding parse_get_ip_response
get_ip_test = refl
