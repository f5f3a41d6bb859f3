-- ===== src/Udap/Interfaces.antt =====
-- udap/interfaces.go: the interfaces that are used for discovery. What the operating system has is a
-- parameter: `net.Interfaces` with the addresses of each.
pub mod Addresses
use go_udap.Prelude.{
  ℕ, ◌-◌, ◌≡◌, refl, Bool, not, List, [], ◌∷◌, Option, none, some, bit_or, ◌==◌, if◌then◌else◌,
  length, drop, Result, ok, err,
}
use go_udap.Prelude.Bytes.{Bytes}
use go_udap.Go.NetIp.{to4}

-- `NetInterface`
pub record NetInterface : Type 0 where
  pub name : Bytes
  pub index : ℕ
  pub addr : Bytes
  pub broadcast : Bytes

-- An address of an interface: a `*net.IPNet`, or of another kind.
pub data Address : Type 0 where
  ip_net : Bytes → Bytes → Address
  other_address : Address

-- `net.Interface`, with the result of `Addrs`.
pub record RawInterface : Type 0 where
  pub name : Bytes
  pub index : ℕ
  pub up : Bool
  pub broadcasts : Bool
  pub loopback : Bool
  pub addrs : Option (List Address)

-- `ip4[i] | ^m[i]` for a mask as long as the address; a shorter mask panics in the source.
unfoldable or_inverse : Bytes → Bytes → Bytes
or_inverse (a ∷ rest) (m ∷ ms) = bit_or a (255 - m) ∷ or_inverse rest ms
or_inverse _ _ = []

-- `computeDirectedBroadcast`; nil is `[]`.
unfoldable pub compute_directed_broadcast : Bytes → Bytes → Bytes
unfolding or_inverse
compute_directed_broadcast addr mask = elim (to4 addr) [
  | none ↦ []
  | some ip4 ↦ or_inverse ip4 (if length mask == 16 then drop 12 mask else mask)
]

-- The first IPv4 address.
unfoldable pub first_ip4 : List Address → Option (Bytes × Bytes)
first_ip4 [] = none
first_ip4 (other_address ∷ rest) = first_ip4 rest
first_ip4 (ip_net ip mask ∷ rest) = elim (to4 ip) [
  | none ↦ first_ip4 rest
  | some ip4 ↦ some (ip4, compute_directed_broadcast ip4 mask)
]

-- One round of the loop: the interface, if it is usable.
unfoldable pub usable : RawInterface → Option NetInterface
unfolding first_ip4
usable i =
    if not i.up
    then none
    else if not i.broadcasts
    then none
    else if i.loopback
    then none
    else elim i.addrs [
      | none ↦ none
      | some addrs ↦ elim (first_ip4 addrs) [
        | none ↦ none
        | some (ip4, broadcast) ↦
            some (record { name = i.name; index = i.index; addr = ip4; broadcast = broadcast })
      ]
    ]

unfoldable pub usable_interfaces : List RawInterface → List NetInterface
usable_interfaces [] = []
usable_interfaces (i ∷ others) =
    let rest = usable_interfaces others in elim (usable i) [ none ↦ rest | some ni ↦ ni ∷ rest ]

-- `EnumerateInterfaces`
unfoldable pub enumerate_interfaces : Result ℕ (List RawInterface) → Result ℕ (List NetInterface)
unfolding usable usable_interfaces
enumerate_interfaces (err e) = err e
enumerate_interfaces (ok raw) = ok (usable_interfaces raw)

broadcast_tests :
    (compute_directed_broadcast (192 ∷ 168 ∷ 1 ∷ 7 ∷ []) (255 ∷ 255 ∷ 255 ∷ 0 ∷ [])
      ≡ 192 ∷ 168 ∷ 1 ∷ 255 ∷ [])
    × (compute_directed_broadcast (10 ∷ 0 ∷ 4 ∷ 1 ∷ []) (255 ∷ 255 ∷ 252 ∷ 0 ∷ [])
        ≡ 10 ∷ 0 ∷ 7 ∷ 255 ∷ [])
    × (compute_directed_broadcast [] (255 ∷ 255 ∷ 255 ∷ 0 ∷ []) ≡ [])
unfolding compute_directed_broadcast to4
broadcast_tests = (refl, refl, refl)
