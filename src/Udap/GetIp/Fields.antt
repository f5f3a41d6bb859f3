-- ===== src/Udap/GetIp/Fields.antt =====
-- Which entry a field of the parsed configuration comes from.
use go_udap.Prelude.{ℕ, ◌≡◌, refl, List, [], ◌∷◌, ◌==◌, if◌then◌else◌, arith, ◌∙◌, ap}
use go_udap.Prelude.Bytes.{Bytes}
use go_udap.Go.NetIp.{net_ipv4}
use go_udap.Udap.Tlv.{Tlv, decode_tlv}
use go_udap.Udap.Tlv.Fold.{fold_tlvs, scan_tlvs-fold}
use go_udap.Udap.GetIp.{
  NetworkConfig, empty_config, set_field, parse_get_ip_response, tlv_ip_addr, tlv_subnet_mask,
  tlv_gateway_addr,
}

-- The address that an entry of the wanted code carries, if it has four bytes.
abbrev four_bytes : Bytes → Bytes → Bytes
four_bytes (a ∷ b ∷ c ∷ d ∷ []) old = net_ipv4 a b c d
four_bytes value old = old

-- The address of the last entry with the code `tag` and four bytes, or `old` if there is none.
abbrev pub last_address : ℕ → List Tlv → Bytes → Bytes
last_address tag [] old = old
last_address tag (t ∷ ts) old =
    last_address tag ts (if t.type == tag then four_bytes t.value old else old)

set_field_lem :
    (tag : ℕ) (value : Bytes) (nc : NetworkConfig)
    → set_field tag value nc ≡ record {
      ip = if tag == tlv_ip_addr then four_bytes value nc.ip else nc.ip;
      subnet_mask =
          if tag == tlv_subnet_mask then four_bytes value nc.subnet_mask else nc.subnet_mask;
      gateway = if tag == tlv_gateway_addr then four_bytes value nc.gateway else nc.gateway;
    }
unfolding set_field
set_field_lem tag [] nc = ground arith
set_field_lem tag (a ∷ []) nc = ground arith
set_field_lem tag (a ∷ b ∷ []) nc = ground arith
set_field_lem tag (a ∷ b ∷ c ∷ []) nc = ground arith
set_field_lem tag (a ∷ b ∷ c ∷ d ∷ []) nc = ground arith
set_field_lem tag (a ∷ b ∷ c ∷ d ∷ e ∷ s) nc = ground arith

fold_fields :
    (ts : List Tlv) (nc : NetworkConfig)
    → fold_tlvs set_field ts nc ≡ record {
      ip = last_address tlv_ip_addr ts nc.ip;
      subnet_mask = last_address tlv_subnet_mask ts nc.subnet_mask;
      gateway = last_address tlv_gateway_addr ts nc.gateway;
    }
fold_fields [] nc = refl
fold_fields (t ∷ ts) nc =
    ap (fold_tlvs set_field ts) (set_field_lem t.type t.value nc) ∙ fold_fields ts _

-- Each field of the parsed configuration is the address of the last entry, among those that
-- `DecodeTLV` returns, that has the field's code and four bytes; without such an entry it is nil.
pub parse_get_ip_response_fields :
    (buf : Bytes)
    → parse_get_ip_response buf ≡ record {
      ip = last_address tlv_ip_addr (decode_tlv buf) [];
      subnet_mask = last_address tlv_subnet_mask (decode_tlv buf) [];
      gateway = last_address tlv_gateway_addr (decode_tlv buf) [];
    }
unfolding parse_get_ip_response
parse_get_ip_response_fields buf =
    scan_tlvs-fold set_field buf empty_config ∙ fold_fields (decode_tlv buf) empty_config
