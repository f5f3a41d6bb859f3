-- ===== src/Udap/LocalIps.antt =====
-- udap/protocol.go: `getLocalIPs`. What the operating system lists is a parameter.
use go_udap.Prelude.{ℕ, Bool, true, List, [], ◌∷◌, none, some, Result, ok, err}
use go_udap.Prelude.Bytes.{codes}
use go_udap.Prelude.Dict.{Dict, put}
use go_udap.Go.NetIp.Print.{ip_string}
use go_udap.Udap.Interfaces.{Address, ip_net, other_address, RawInterface}

-- The addresses of one interface.
unfoldable put_addresses : List Address → Dict Bool → Dict Bool
put_addresses [] ips = ips
put_addresses (other_address ∷ rest) ips = put_addresses rest ips
put_addresses (ip_net ip mask ∷ rest) ips = put_addresses rest (put (ip_string ip) true ips)

-- An interface whose addresses cannot be read is skipped.
unfoldable put_interfaces : List RawInterface → Dict Bool → Dict Bool
unfolding put_addresses
put_interfaces [] ips = ips
put_interfaces (i ∷ rest) ips = elim i.addrs [
  | none ↦ put_interfaces rest ips
  | some addrs ↦ put_interfaces rest (put_addresses addrs ips)
]

-- `getLocalIPs`
unfoldable get_local_ips : Result ℕ (List RawInterface) → Dict Bool
unfolding put_interfaces
get_local_ips (err e) = put (codes "::1") true (put (codes "::") true [])
get_local_ips (ok raw) = put (codes "::1") true (put (codes "::") true (put_interfaces raw []))
