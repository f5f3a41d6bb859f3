-- ===== src/Udap/Interfaces/Addresses.antt =====
-- Every interface that is used for discovery has an address.
use mathlib.Core.Path.{subst}
use go_udap.Prelude.{
  ℕ, ◌≡◌, ap, false, inl, inr, List, [], ◌∷◌, Option-cases, some, ◌==◌, length, length-drop, Result,
  ok, err, All, arith,
}
use go_udap.Prelude.Bytes.{Bytes}
use go_udap.Go.NetIp.{to4}
use go_udap.Udap.Interfaces.{
  NetInterface, Address, ip_net, other_address, RawInterface, first_ip4, usable, usable_interfaces,
  enumerate_interfaces,
}

-- Every interface has an address.
abbrev pub HaveAddresses : List NetInterface → Type 0
HaveAddresses = All (λ (i : NetInterface). (length i.addr == 0) ≡ false)

to4-length : (ip v4 : Bytes) → to4 ip ≡ some v4 → length v4 ≡ 4
unfolding to4
to4-length ip v4 h = ground (arith, length-drop 12 ip)

first_ip4-length :
    (addrs : List Address) (ip broadcast : Bytes)
    → first_ip4 addrs ≡ some (ip, broadcast)
    → length ip ≡ 4
unfolding first_ip4
first_ip4-length [] ip broadcast h = absurd (ground arith)
first_ip4-length (other_address ∷ rest) ip broadcast h = first_ip4-length rest ip broadcast h
first_ip4-length (ip_net a mask ∷ rest) ip broadcast h = elim (Option-cases (to4 a)) [
  | inl none4 ↦ first_ip4-length rest ip broadcast (ground (arith, none4, h))
  | inr (v4, e) ↦
      let same : v4 ≡ ip = ground (arith, e, h) in omega (arith, ap length same, to4-length a v4 e)
]

usable-address :
    (r : RawInterface) (i : NetInterface) → usable r ≡ some i → (length i.addr == 0) ≡ false
unfolding usable
usable-address r i h = elim (Option-cases r.addrs) [
  | inl q ↦ absurd (ground (arith, q, h))
  | inr (addrs, q) ↦ elim (Option-cases (first_ip4 addrs)) [
    | inl w ↦ absurd (ground (arith, q, w, h))
    | inr ((ip, b), w) ↦
        let same : ip ≡ i.addr = ground (arith, q, w, h) in
        ground (arith, ap length same, first_ip4-length addrs ip b w)
  ]
]

usable_interfaces-addresses : (raw : List RawInterface) → HaveAddresses (usable_interfaces raw)
unfolding usable_interfaces
usable_interfaces-addresses [] = tt
usable_interfaces-addresses (r ∷ raw) = elim (Option-cases (usable r)) [
  | inl skipped ↦ rw (skipped, usable_interfaces) (usable_interfaces-addresses raw)
  | inr (i, e) ↦ rw (e, usable_interfaces) (usable-address r i e, usable_interfaces-addresses raw)
]

pub enumerate_interfaces-addresses :
    (raw : Result ℕ (List RawInterface)) (is : List NetInterface)
    → enumerate_interfaces raw ≡ ok is
    → HaveAddresses is
unfolding enumerate_interfaces
enumerate_interfaces-addresses (err e) is h = absurd (ground arith)
enumerate_interfaces-addresses (ok raw) is h =
    let same : usable_interfaces raw ≡ is = cc h in
    subst HaveAddresses same (usable_interfaces-addresses raw)
