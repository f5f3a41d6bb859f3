-- ===== src/Go/NetIp/Print.antt =====
-- `net.IP.String`, and `IP.IsUnspecified`.
use go_udap.Prelude.{
  ℕ, suc, ◌+◌, ◌*◌, ◌/◌, ◌%◌, ◌≡◌, refl, Bool, ◌&&◌, ◌||◌, List, [], ◌∷◌, ◌++◌, none, some, ltb,
  ◌==◌, if◌then◌else◌, length, take, drop, replicate,
}
use go_udap.Prelude.Bytes.{Bytes, codes, bytes_eq}
use go_udap.Go.Hex.{hex_digit, encode_to_string}
use go_udap.Go.Strconv.{format_uint}
use go_udap.Go.NetIp.{net_ipv4, to4, format_ip4}

-- The 16-bit groups of an address of 16 bytes.
groups : Bytes → List ℕ
groups [] = []
groups (hi ∷ []) = []
groups (hi ∷ lo ∷ s) = (hi * 256 + lo) ∷ groups s

-- The number of zeros at the front.
zeros : List ℕ → ℕ
zeros [] = 0
zeros (g ∷ gs) = if g == 0 then suc (zeros gs) else 0

-- The first longest run of two zeros at least: the groups in front of it, and its length.
longest_run : ℕ → ℕ → ℕ → List ℕ → ℕ × ℕ
unfolding zeros
longest_run i start len [] = (start, len)
longest_run i start len (g ∷ gs) =
    let n = zeros (g ∷ gs) in
    let better = ltb 1 n && ltb len n in
    longest_run (suc i) (if better then i else start) (if better then n else len) gs

-- `appendHex`: no zeros in front.
append_hex : ℕ → Bytes
append_hex g =
    if ltb g 16
    then hex_digit g ∷ []
    else if ltb g 256
    then hex_digit (g / 16) ∷ hex_digit (g % 16) ∷ []
    else if ltb g 4096
    then hex_digit (g / 256) ∷ hex_digit (g / 16 % 16) ∷ hex_digit (g % 16) ∷ []
    else hex_digit (g / 4096)
      ∷ hex_digit (g / 256 % 16)
      ∷ hex_digit (g / 16 % 16)
      ∷ hex_digit (g % 16)
      ∷ []

colons : List ℕ → Bytes
unfolding append_hex
colons [] = []
colons (g ∷ []) = append_hex g
colons (g ∷ h ∷ gs) = append_hex g ++ (b':' ∷ colons (h ∷ gs))

-- `netip.Addr.string6`
v6_string : List ℕ → Bytes
unfolding longest_run colons
v6_string gs =
    let (start, len) = longest_run 0 0 0 gs in
    if len == 0
    then colons gs
    else colons (take start gs) ++ (b':' ∷ b':' ∷ colons (drop (start + len) gs))

v4_string : Bytes → Bytes
v4_string (a ∷ b ∷ c ∷ d ∷ []) = format_ip4 a b c d
v4_string s = []

-- `IP.String`
unfoldable pub ip_string : Bytes → Bytes
unfolding v4_string v6_string groups
ip_string ip = if length ip == 0 then codes "<nil>" else elim (to4 ip) [
  | some v4 ↦ v4_string v4
  | none ↦ if length ip == 16 then v6_string (groups ip) else b'?' ∷ encode_to_string ip
]

-- `IP.IsUnspecified`: `IP.Equal` reads four bytes as the mapped address.
unfoldable pub is_unspecified : Bytes → Bool
unfolding bytes_eq
is_unspecified ip =
    bytes_eq ip (0 ∷ 0 ∷ 0 ∷ 0 ∷ [])
    || bytes_eq ip (net_ipv4 0 0 0 0)
    || bytes_eq ip (replicate 16 0)

print_tests :
    (ip_string (net_ipv4 192 168 1 50) ≡ codes "192.168.1.50")
    × (ip_string (10 ∷ 0 ∷ 0 ∷ 1 ∷ []) ≡ codes "10.0.0.1")
    × (ip_string [] ≡ codes "<nil>")
    × (ip_string (1 ∷ 255 ∷ []) ≡ codes "?01ff")
    × (ip_string (0xfe ∷ 0x80 ∷ 0 ∷ 0 ∷ 0 ∷ 0 ∷ 0 ∷ 0 ∷ 0 ∷ 0 ∷ 0 ∷ 1 ∷ 0 ∷ 0 ∷ 0x1a ∷ 0xb2 ∷ [])
        ≡ codes "fe80::1:0:1ab2")
    × (ip_string (replicate 16 0) ≡ codes "::")
unfolding ip_string to4 format_ip4 format_uint hex_digit encode_to_string
print_tests = (refl, refl, refl, refl, refl, refl)
