-- ===== src/Udap/Mac/RoundTrip.antt =====
-- Parsing and printing MAC addresses are inverse to one another, up to the case of the digits.
use go_udap.Prelude.{
  ℕ, ◌+◌, ◌*◌, ◌/◌, ◌%◌, ◌<◌, ◌≡◌, refl, ap, ◌∙◌, true, false, ◌&&◌, not, [], ◌∷◌, some, arith, map,
  ◌==◌, ok, length, ltb, Result-cases, inl, inr,
}
use go_udap.Prelude.Bytes.{Bytes, IsByte, bytes_eq_self}
use go_udap.Go.Hex.{hex_digit, hex_digit_lem}
use go_udap.Go.Strings.{lower_byte, to_lower}
use go_udap.Udap.Mac.{
  Mac, IsMac, mac_bytes, mac_eq, hex_nibble, byte_at, nibble_at, octet_at, octets, parse_mac,
  mac_string,
}

hex_nibble-hex_digit : (n : ℕ) → n < 16 → hex_nibble (hex_digit n) ≡ some n
unfolding hex_nibble
hex_nibble-hex_digit n h = ground (arith, hex_digit_lem n h)

-- Two digits of a byte are read back as the byte, whatever the position.
octet_at-digits :
    (s : Bytes) (i b : ℕ)
    → IsByte b
    → byte_at s (i * 3) ≡ hex_digit (b / 16)
    → byte_at s (i * 3 + 1) ≡ hex_digit (b % 16)
    → (ltb i 5 && not (byte_at s (i * 3 + 2) == b':')) ≡ false
    → octet_at s i ≡ ok b
unfolding octet_at nibble_at
octet_at-digits s i b hb hi lo colon = ground (
  arith,
  hex_nibble-hex_digit (b / 16) (omega arith),
  hex_nibble-hex_digit (b % 16) (omega arith),
)

-- What `ParseMAC` makes of the canonical print of a MAC is that MAC.
pub parse_mac-mac_string : (m : Mac) → IsMac m → parse_mac (mac_string m) ≡ ok m
unfolding parse_mac mac_string
parse_mac-mac_string m v = rw (
  octet_at-digits _ 0 m.b0 v.r0 refl refl refl,
  octet_at-digits _ 1 m.b1 v.r1 refl refl refl,
  octet_at-digits _ 2 m.b2 v.r2 refl refl refl,
  octet_at-digits _ 3 m.b3 v.r3 refl refl refl,
  octet_at-digits _ 4 m.b4 v.r4 refl refl refl,
  octet_at-digits _ 5 m.b5 v.r5 refl refl refl,
)

-- Equality of arrays.
pub mac_eq→eq : (m n : Mac) → mac_eq m n ≡ true → m ≡ n
unfolding mac_eq
mac_eq→eq m n h = ground arith

pub mac_eq_self : (m : Mac) → mac_eq m m ≡ true
unfolding mac_eq
mac_eq_self m = bytes_eq_self (mac_bytes m)

nibble_at_ok :
    (s : Bytes) (i v : ℕ)
    → nibble_at s i ≡ ok v
    → (v < 16) × (hex_digit v ≡ lower_byte (byte_at s i))
unfolding nibble_at lower_byte
nibble_at_ok s i v h =
    let small : v < 16 = ground arith in (small, ground (arith, hex_digit_lem v small))

octet_value :
    (s : Bytes) (i b hi lo : ℕ)
    → nibble_at s (i * 3) ≡ ok hi
    → nibble_at s (i * 3 + 1) ≡ ok lo
    → octet_at s i ≡ ok b
    → (b ≡ hi * 16 + lo) × (i < 5 → byte_at s (i * 3 + 2) ≡ b':')
unfolding octet_at
octet_value s i b hi lo eh el h = (ground arith, λ small. ground arith)

lower_byte_colon : lower_byte b':' ≡ b':'
unfolding lower_byte
lower_byte_colon = refl

-- The digits of an octet that was read.
octet_at_ok :
    (s : Bytes) (i b : ℕ)
    → octet_at s i ≡ ok b
    → (b < 256)
      × (hex_digit (b / 16) ≡ lower_byte (byte_at s (i * 3)))
      × (hex_digit (b % 16) ≡ lower_byte (byte_at s (i * 3 + 1)))
      × (i < 5 → b':' ≡ lower_byte (byte_at s (i * 3 + 2)))
octet_at_ok s i b h = elim (Result-cases (nibble_at s (i * 3))) [
  | inl (hi, eh) ↦ elim (Result-cases (nibble_at s (i * 3 + 1))) [
    | inl (lo, el) ↦
        let (hs, hd) = nibble_at_ok s (i * 3) hi eh in
        let (ls, ld) = nibble_at_ok s (i * 3 + 1) lo el in
        let (e, colon) = octet_value s i b hi lo eh el h in
        let q : b / 16 ≡ hi = omega arith in
        let r : b % 16 ≡ lo = omega arith in
        (
          omega arith,
          ap hex_digit q ∙ hd,
          ap hex_digit r ∙ ld,
          λ small. cc (colon small, lower_byte_colon),
        )
    | inr (e, el) ↦ absurd (unfold octet_at in ground arith)
  ]
  | inr (e, eh) ↦ absurd (unfold octet_at in ground arith)
]

octets_ok :
    (s : Bytes) (m : Mac)
    → octets s ≡ ok m
    → (octet_at s 0 ≡ ok m.b0)
      × (octet_at s 1 ≡ ok m.b1)
      × (octet_at s 2 ≡ ok m.b2)
      × (octet_at s 3 ≡ ok m.b3)
      × (octet_at s 4 ≡ ok m.b4)
      × (octet_at s 5 ≡ ok m.b5)
unfolding octets
octets_ok s m h = ground arith

parse_mac_ok : (s : Bytes) (m : Mac) → parse_mac s ≡ ok m → (length s ≡ 17) × (octets s ≡ ok m)
unfolding parse_mac
parse_mac_ok s m h = (ground arith, ground arith)

-- A text of 17 bytes is the list of its bytes.
bytes_of_17 :
    (s : Bytes)
    → length s ≡ 17
    → s
      ≡ byte_at s 0
        ∷ byte_at s 1
        ∷ byte_at s 2
        ∷ byte_at s 3
        ∷ byte_at s 4
        ∷ byte_at s 5
        ∷ byte_at s 6
        ∷ byte_at s 7
        ∷ byte_at s 8
        ∷ byte_at s 9
        ∷ byte_at s 10
        ∷ byte_at s 11
        ∷ byte_at s 12
        ∷ byte_at s 13
        ∷ byte_at s 14
        ∷ byte_at s 15
        ∷ byte_at s 16
        ∷ []
unfolding byte_at
bytes_of_17
      (c0 ∷ c1 ∷ c2 ∷ c3 ∷ c4 ∷ c5 ∷ c6 ∷ c7 ∷ c8 ∷ c9 ∷ c10 ∷ c11 ∷ c12 ∷ c13 ∷ c14 ∷ c15 ∷ c16
        ∷ [])
      h =
    refl
bytes_of_17 s h = absurd (omega arith)

-- Whatever `ParseMAC` accepts is, in lower case, the canonical print of the MAC that it returns,
-- whose octets are bytes.
pub mac_string-parse_mac :
    (s : Bytes) (m : Mac) → parse_mac s ≡ ok m → IsMac m × (mac_string m ≡ to_lower s)
unfolding mac_string to_lower
mac_string-parse_mac s m h =
    let (len, os) = parse_mac_ok s m h in
    let (e0, e1, e2, e3, e4, e5) = octets_ok s m os in
    let (r0, h0, l0, k0) = octet_at_ok s 0 m.b0 e0 in
    let (r1, h1, l1, k1) = octet_at_ok s 1 m.b1 e1 in
    let (r2, h2, l2, k2) = octet_at_ok s 2 m.b2 e2 in
    let (r3, h3, l3, k3) = octet_at_ok s 3 m.b3 e3 in
    let (r4, h4, l4, k4) = octet_at_ok s 4 m.b4 e4 in
    let (r5, h5, l5, k5) = octet_at_ok s 5 m.b5 e5 in
    (
      record { r0 = r0; r1 = r1; r2 = r2; r3 = r3; r4 = r4; r5 = r5 },
      cc (
        ap (map lower_byte) (bytes_of_17 s len),
        k0 (omega arith),
        k1 (omega arith),
        k2 (omega arith),
        k3 (omega arith),
        k4 (omega arith),
      ),
    )
