-- ===== src/Go/NetIp.antt =====
-- `net.ParseIP`, `IP.To4`, `net.IPv4` and the dotted-quad print. An IP is its bytes, nil is `[]`.
pub mod Print
pub mod RoundTrip
pub mod Range
use go_udap.Prelude.{
  ℕ, zero, suc, ◌+◌, ◌-◌, ◌*◌, ◌/◌, ◌%◌, ◌<◌, ◌≤◌, ◌≡◌, refl, ◌∙◌, Bool, true, false, ◌&&◌, ◌||◌,
  not, List, [], ◌∷◌, ◌++◌, Option, none, some, arith, ltb, leb, ◌==◌, if◌then◌else◌, length, take,
  drop, replicate, Bool-cases, inl, inr, ltb→lt, ltb→le,
}
use go_udap.Prelude.Bytes.{Bytes, IsByte, codes, bytes_eq}
use go_udap.Go.Hex.{hex_value}
use go_udap.Go.Strconv.{format_uint, format_uint_one, format_uint_two, format_uint_three}

is_nil : Bytes → Bool
is_nil [] = true
is_nil (c ∷ s) = false

is_digit : ℕ → Bool
is_digit c = leb b'0' c && leb c b'9'

-- `netip.parseIPv4Fields`: the current field's value and number of digits, and the fields so far.
v4_fields : Bytes → ℕ → ℕ → Bytes → Option Bytes
unfolding is_nil is_digit
v4_fields [] val dig fields = if length fields == 3 then some (fields ++ (val % 256) ∷ []) else none
v4_fields (c ∷ s) val dig fields =
    let digit = v4_fields s (val * 10 + (c - b'0')) (dig + 1) fields in
    let field = v4_fields s 0 0 (fields ++ (val % 256) ∷ []) in
    if is_digit c
    then (if (dig == 1) && (val == 0)
        then none
        else if ltb 255 (val * 10 + (c - b'0'))
        then none
        else digit)
    else if c == b'.'
    then (if (dig == 0) || is_nil s then none else if length fields == 3 then none else field)
    else none

-- A group of up to four hexadecimal digits: its value, its length, and the rest.
hex_group : Bytes → ℕ → ℕ → Option (ℕ × ℕ × Bytes)
hex_group [] off acc = some (acc, off, [])
hex_group (c ∷ s) off acc = elim (hex_value c) [
  | none ↦ some (acc, off, c ∷ s)
  | some d ↦ if ltb 3 off then none else hex_group s (off + 1) (acc * 16 + d)
]

v6_finish : Bytes → Bytes → Option ℕ → Option Bytes
v6_finish (c ∷ s) ip ellipsis = none
v6_finish [] ip none = if ltb (length ip) 16 then none else some ip
v6_finish [] ip (some e) =
    if ltb (length ip) 16
    then some (take e ip ++ (replicate (16 - length ip) 0 ++ drop e ip))
    else none

is_none : Option ℕ → Bool
is_none none = true
is_none (some e) = false

-- What follows a group: the end, or a colon and more, or an ellipsis.
v6_after : (Bytes → Bytes → Option ℕ → Option Bytes) → Bytes → Bytes → Option ℕ → Option Bytes
v6_after again [] ip ellipsis = v6_finish [] ip ellipsis
v6_after again (c ∷ []) ip ellipsis = none
v6_after again (c ∷ d ∷ []) ip ellipsis =
    if not (c == b':')
    then none
    else if not (d == b':')
    then again (d ∷ []) ip ellipsis
    else if is_none ellipsis
    then v6_finish [] ip (some (length ip))
    else none
v6_after again (c ∷ d ∷ e ∷ s) ip ellipsis =
    if not (c == b':')
    then none
    else if not (d == b':')
    then again (d ∷ e ∷ s) ip ellipsis
    else if is_none ellipsis
    then again (e ∷ s) ip (some (length ip))
    else none

-- An embedded IPv4 address at the end.
v6_embedded : Bytes → Bytes → Option ℕ → Option Bytes
v6_embedded s ip ellipsis =
    if is_none ellipsis && not (length ip == 12)
    then none
    else if ltb 16 (length ip + 4)
    then none
    else elim (v4_fields s 0 0 []) [ none ↦ none | some v ↦ v6_finish [] (ip ++ v) ellipsis ]

starts_with_dot : Bytes → Bool
starts_with_dot [] = false
starts_with_dot (c ∷ s) = c == b'.'

v6_round : (Bytes → Bytes → Option ℕ → Option Bytes) → Bytes → Bytes → Option ℕ → Option Bytes
v6_round again s ip ellipsis = elim (hex_group s 0 0) [
  | none ↦ none
  | some (acc, off, rest) ↦
      if off == 0
      then none
      else if starts_with_dot rest
      then v6_embedded s ip ellipsis
      else v6_after again rest (ip ++ (acc / 256 % 256 ∷ acc % 256 ∷ [])) ellipsis
]

-- `netip.parseIPv6` without a zone: at most eight groups of two bytes.
v6_loop : ℕ → Bytes → Bytes → Option ℕ → Option Bytes
v6_loop zero s ip ellipsis = v6_finish s ip ellipsis
v6_loop (suc f) s ip ellipsis = v6_round (v6_loop f) s ip ellipsis

parse_ipv6 : Bytes → Option Bytes
parse_ipv6 (c ∷ d ∷ []) =
    if (c == b':') && (d == b':') then some (replicate 16 0) else v6_loop 8 (c ∷ d ∷ []) [] none
parse_ipv6 (c ∷ d ∷ e ∷ s) =
    if (c == b':') && (d == b':')
    then v6_loop 8 (e ∷ s) [] (some 0)
    else v6_loop 8 (c ∷ d ∷ e ∷ s) [] none
parse_ipv6 s = v6_loop 8 s [] none

has_zone : Bytes → Bool
has_zone [] = false
has_zone (c ∷ s) = (c == b'%') || has_zone s

abbrev mapped : Bytes
mapped = 0 ∷ 0 ∷ 0 ∷ 0 ∷ 0 ∷ 0 ∷ 0 ∷ 0 ∷ 0 ∷ 0 ∷ 255 ∷ 255 ∷ []

-- `net.IPv4(a, b, c, d)`: the 16-byte form.
abbrev pub net_ipv4 : ℕ → ℕ → ℕ → ℕ → Bytes
net_ipv4 a b c d = mapped ++ (a ∷ b ∷ c ∷ d ∷ [])

v4_address : Bytes → Option Bytes
v4_address s = elim (v4_fields s 0 0 []) [ none ↦ none | some v ↦ some (mapped ++ v) ]

v6_address : Bytes → Option Bytes
v6_address s = if has_zone s then none else parse_ipv6 s

-- The first `.`, `:` or `%` decides which kind of address the text `s` is read as.
parse_by_first : Bytes → Bytes → Option Bytes
parse_by_first s [] = none
parse_by_first s (c ∷ t) =
    if c == b'.'
    then v4_address s
    else if c == b':'
    then v6_address s
    else if c == b'%'
    then none
    else parse_by_first s t

-- `net.ParseIP`: 16 bytes, or nil.
unfoldable pub parse_ip : Bytes → Option Bytes
unfolding parse_by_first v4_address v6_address v4_fields has_zone parse_ipv6 v6_loop v6_round
    v6_after v6_embedded v6_finish is_none starts_with_dot hex_group hex_value bytes_eq
parse_ip s = parse_by_first s s

-- `ip.To4()`
unfoldable pub to4 : Bytes → Option Bytes
unfolding bytes_eq
to4 ip =
    if length ip == 4
    then some ip
    else if (length ip == 16) && bytes_eq (take 12 ip) mapped
    then some (drop 12 ip)
    else none

-- `fmt.Sprintf("%d.%d.%d.%d", …)`, and `net.IP.String` of four bytes.
unfoldable pub format_ip4 : ℕ → ℕ → ℕ → ℕ → Bytes
format_ip4 a b c d =
    format_uint a ++ (b'.' ∷ (format_uint b ++ (b'.' ∷ (format_uint c ++ (b'.' ∷ format_uint d)))))

parse_examples :
    (parse_ip (codes "192.168.1.50") ≡ some (net_ipv4 192 168 1 50))
    × (parse_ip (codes "::ffff:10.0.0.1") ≡ some (net_ipv4 10 0 0 1))
    × (parse_ip (codes "01.2.3.4") ≡ none)
    × (parse_ip (codes "1.2.3.") ≡ none)
    × (parse_ip (codes "fe80::1%eth0") ≡ none)
    × (parse_ip (codes "1:2:3:4:5:6:7:8")
        ≡ some (0 ∷ 1 ∷ 0 ∷ 2 ∷ 0 ∷ 3 ∷ 0 ∷ 4 ∷ 0 ∷ 5 ∷ 0 ∷ 6 ∷ 0 ∷ 7 ∷ 0 ∷ 8 ∷ []))
unfolding parse_ip
parse_examples = (refl, refl, refl, refl, refl, refl)
