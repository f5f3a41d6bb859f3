-- ===== src/Mocksbr/Handlers/Members.antt =====
-- No packet changes which devices the network has.
use mathlib.Core.Path.{subst}
use go_udap.Prelude.{
  ℕ, ◌≡◌, refl, ◌∙◌, List, [], ◌∷◌, Bool, true, false, inl, inr, Option, some, Option-cases,
  Result-cases, if◌then◌else◌, arith,
}
use go_udap.Prelude.Bytes.{Bytes, bytes_eq_iff}
use go_udap.Prelude.Dict.{Dict, get, put, get-put}
use go_udap.Go.Strings.{to_lower}
use go_udap.Udap.Mac.{mac_string}
use go_udap.Udap.Packet.{Packet, parse_packet}
use go_udap.Mocksbr.Device.{Op, MockDevice, rebooting}
use go_udap.Mocksbr.Network.{Network}
use go_udap.Mocksbr.Network.Members.{has, IsNetwork}
use go_udap.Mocksbr.Handlers.{
  ScheduledReply, serve_device, dispatch_unicast, discovery_loop, handle_discovery, receive_packet,
  receive_scheduled,
}

has-put :
    (k mac : Bytes) (d d' : MockDevice) (m : Dict MockDevice)
    → get mac m ≡ some d
    → has k (put mac d' m) ≡ has k m
has-put k mac d d' m h = ground (arith, get-put mac k d' m, bytes_eq_iff mac k)

has-discovery_loop :
    (k : Bytes) (now : ℕ) (req : Packet) (macs : List Bytes) (m : Dict MockDevice)
    → has k (discovery_loop now req macs m).1 ≡ has k m
unfolding discovery_loop
has-discovery_loop k now req [] m = refl
has-discovery_loop k now req (mac ∷ macs) m = elim (Option-cases (get mac m)) [
  | inl absent ↦ ground (arith, absent, has-discovery_loop k now req macs m)
  | inr (d, present) ↦
      let d' = (rebooting now d).1 in
      ground (
        arith,
        present,
        has-discovery_loop k now req macs m,
        has-discovery_loop k now req macs (put mac d' m),
        has-put k mac d d' m present,
      )
]

IsNetwork-handle_discovery :
    (now : ℕ) (req : Packet) (n : Network) → IsNetwork n → IsNetwork (handle_discovery now req n).1
unfolding handle_discovery
IsNetwork-handle_discovery now req n h = record {
  keyed = λ k. has-discovery_loop k now req n.order n.devices ∙ h.keyed k;
  distinct = h.distinct;
}

IsNetwork-dispatch_unicast :
    (now : ℕ) (req : Packet) (op : Op) (handler : MockDevice → Option Bytes × MockDevice)
    (n : Network)
    → IsNetwork n
    → IsNetwork (dispatch_unicast now req op handler n).1
unfolding dispatch_unicast
IsNetwork-dispatch_unicast now req op handler n h =
    let mac = to_lower (mac_string req.dst_address) in
    elim (Option-cases (get mac n.devices)) [
      | inl absent ↦
          let e : n ≡ (dispatch_unicast now req op handler n).1 = ground arith in
          subst IsNetwork e h
      | inr (d, present) ↦
          let d' = (serve_device now req op handler d).1 in
          let e : record n { devices = put mac d' n.devices }
              ≡ (dispatch_unicast now req op handler n).1 =
            ground arith in
          subst IsNetwork e (record {
            keyed = λ k. has-put k mac d d' n.devices present ∙ h.keyed k;
            distinct = h.distinct;
          })
    ]

either :
    (c : Bool) (x y : List ScheduledReply × Network)
    → IsNetwork x.1
    → IsNetwork y.1
    → IsNetwork (if c then x else y).1
either true x y h k = h
either false x y h k = k

IsNetwork-receive_packet :
    (now : ℕ) (req : Packet) (payload : Bytes) (n : Network)
    → IsNetwork n
    → IsNetwork (receive_packet now req payload n).1
unfolding receive_packet
IsNetwork-receive_packet now req payload n h =
    search (either, IsNetwork-handle_discovery, IsNetwork-dispatch_unicast) depth 16

-- Whatever bytes the network receives, at any time, it keeps its invariant: the insertion order
-- lists every device once, and nothing else.
pub IsNetwork-receive_scheduled :
    (now : ℕ) (bytes : Bytes) (n : Network)
    → IsNetwork n
    → IsNetwork (receive_scheduled now bytes n).1
unfolding receive_scheduled
IsNetwork-receive_scheduled now bytes n h = elim (Result-cases (parse_packet bytes)) [
  | inr (e, bad) ↦
      let same : n ≡ (receive_scheduled now bytes n).1 = ground arith in subst IsNetwork same h
  | inl (r, good) ↦
      let same : (receive_packet now r.0 r.1 n).1 ≡ (receive_scheduled now bytes n).1 =
        ground arith in
      subst IsNetwork same (IsNetwork-receive_packet now r.0 r.1 n h)
]
