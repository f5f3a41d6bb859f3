-- ===== src/Mocksbr/Network.antt =====
-- mocksbr/network.go and mocksbr/identity.go: the registry of virtual devices.
pub mod Members
pub mod Fresh
use go_udap.Prelude.{
  ℕ, zero, suc, ◌+◌, ◌-◌, ◌/◌, ◌%◌, ◌≡◌, refl, Bool, true, false, not, ◌&&◌, ◌||◌, List, [], ◌∷◌,
  ◌++◌, none, some, ltb, leb, ◌==◌, if◌then◌else◌, length, take, drop, get_elem?, Result, ok, err,
}
use go_udap.Prelude.Bytes.{Bytes, codes, bytes_eq}
use go_udap.Prelude.Dict.{Dict, get, put, delete_where}
use go_udap.Go.Hex.{hex_digit}
use go_udap.Go.Strings.{to_lower}
use go_udap.Go.Utf8.{decode_rune}
use go_udap.Mocksbr.Device.{DeviceConfig, MockDevice, malformed_none, new_device}

-- `Network`
pub record Network : Type 0 where
  pub devices : Dict MockDevice
  pub order : List Bytes

abbrev pub empty_network : Network
empty_network = record { devices = []; order = [] }

unfoldable pub is_hex : ℕ → Bool
is_hex b = (leb b'0' b && leb b b'9') || (leb b'a' b && leb b b'f') || (leb b'A' b && leb b b'F')

-- The switch on `i % 3`; `byte(ch)` keeps the low eight bits of the rune.
char_ok : ℕ → ℕ → Bool
unfolding is_hex
char_ok i ch = if i % 3 == 2 then ch == b':' else is_hex (ch % 256)

-- The loop over the runes, from byte position `i` on; a round takes one byte at least.
valid_loop : ℕ → ℕ → Bytes → Bool
unfolding char_ok
valid_loop zero i s = true
valid_loop (suc fuel) i [] = true
valid_loop (suc fuel) i (c ∷ s) =
    let (ch, width) = decode_rune c s in
    char_ok i ch && valid_loop fuel (i + width) (drop (width - 1) s)

-- `validMAC`
unfoldable pub valid_mac : Bytes → Bool
unfolding valid_loop
valid_mac s = (length s == 17) && valid_loop 17 0 s

pub data AddError : Type 0 where
  invalid_mac : Bytes → AddError
  duplicate_mac : Bytes → AddError

-- `Add`
unfoldable pub add : DeviceConfig → Network → Result AddError Bytes × Network
add cfg n =
    let mac = to_lower cfg.mac in
    if not (valid_mac cfg.mac) then (err (invalid_mac cfg.mac), n) else elim (get mac n.devices) [
      | some d ↦ (err (duplicate_mac mac), n)
      | none ↦ (
        ok mac,
        record {
          devices = put mac (new_device (record cfg { mac = mac })) n.devices;
          order = n.order ++ mac ∷ [];
        },
      )
    ]

-- `RemoveAuto`; the index counts from one.
unfoldable pub remove_auto : ℕ → Network → Bytes × Network
remove_auto idx n =
    if (ltb idx 1) || (ltb (length n.order) idx)
    then ([], n)
    else elim (get_elem? n.order (idx - 1)) [
      | none ↦ ([], n)
      | some mac ↦ (
        mac,
        record {
          devices = delete_where (λ k. bytes_eq k mac) n.devices;
          order = take (idx - 1) n.order ++ drop idx n.order;
        },
      )
    ]

-- `%03d` of a number below a thousand.
abbrev pub three_digits : ℕ → Bytes
three_digits n = (b'0' + n / 100 % 10) ∷ (b'0' + n / 10 % 10) ∷ (b'0' + n % 10) ∷ []

-- `autoConfig`; the source panics outside 1 … 255.
unfoldable pub auto_config : ℕ → DeviceConfig
auto_config idx = record {
  mac = codes "00:04:20:00:00:" ++ (hex_digit (idx / 16) ∷ hex_digit (idx % 16) ∷ []);
  name = [];
  model = [];
  device_id = [];
  firmware = [];
  hardware = [];
  uuid = codes "mock-sbr-" ++ three_digits idx;
  ip = [];
  subnet_mask = [];
  gateway = [];
  nvram = [];
  fail_on = [];
  slow = 0;
  unreachable = false;
  reboot_delay = (false, 0);
  drop_get_data = false;
  drop_get_ip = false;
  drop_get_uuid = false;
  suppress_discovery_uuid = false;
  unknown_offsets = [];
  malformed = malformed_none;
}

-- The loop of `NewNetwork`: `left` devices to make, the next index `i`.
unfoldable pub fill_network : ℕ → ℕ → Network → Network
fill_network zero i n = n
fill_network (suc left) i n =
    let mac = to_lower (auto_config i).mac in
    fill_network left (suc i) (record {
      devices = put mac (new_device (auto_config i)) n.devices;
      order = n.order ++ mac ∷ [];
    })

unfoldable pub new_network : ℕ → Network
unfolding fill_network
new_network n = fill_network n 1 empty_network

-- U+0141 is two bytes, and its low eight bits are those of `A`: a text with that letter in place of
-- two digits is accepted.
accepts_letter : valid_mac (0xC5 ∷ 0x81 ∷ codes ":04:20:00:00:01") ≡ true
unfolding valid_mac decode_rune
accepts_letter = refl
