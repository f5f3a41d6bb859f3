-- ===== src/Udap/Operations/Latest.antt =====
-- Discovery against an abstract registry: a map from MAC addresses to devices, in which the last reply
-- that is heard from a device wins.
use mathlib.Core.Path.{subst}
use go_udap.Prelude.{
  ℕ, ◌≡◌, refl, ap, ◌∙◌, List, [], ◌∷◌, Option, none, some, Option-cases, Result, ok, err,
  Result-cases, Bool-cases, if◌then◌else◌, arith, inl, inr, ◌==◌,
}
use go_udap.Prelude.Bytes.{Bytes, bytes_eq}
use go_udap.Prelude.Dict.{get, get-put}
use go_udap.Udap.Mac.{mac_string}
use go_udap.Udap.Packet.{parse_packet, type_ucp}
use go_udap.Udap.Discovery.{Device, parse_discovery_response}
use go_udap.Udap.Transport.{Transport, packet, failed, RecvError}
use go_udap.Udap.Client.{Client, record_device, get_device}
use go_udap.Udap.Client.Registry.{IsRegistry}
use go_udap.Udap.Operations.{OpError, discovery_end, handle_discovery_reply, discover_devices}
use go_udap.Udap.Operations.Discover.{
  Discovers, stops, hears, asked, transport-handle_discovery_reply,
  IsRegistry-handle_discovery_reply, IsRegistry-asked, discover_devices-Discovers,
}

-- A packet with its source and the time at which it was read.
pub record Heard : Type 0 where
  pub reply : Bytes
  pub source : Bytes
  pub time : ℕ

-- The device that a packet announces.
unfoldable pub announced : Heard → Option Device
announced h = elim (parse_packet h.reply) [
  | err e ↦ none
  | ok (p, payload) ↦
      if p.udap_type == type_ucp then parse_discovery_response payload h.source p h.time else none
]

abbrev pub update : Bytes → Option Device → Option Device → Option Device
update mac none old = old
update mac (some d) old = if bytes_eq (mac_string d.mac) mac then some d else old

-- The abstract registry at a MAC address when the packets are heard.
unfoldable pub latest : Bytes → List Heard → Option Device → Option Device
latest mac [] old = old
latest mac (h ∷ hs) old = latest mac hs (update mac (announced h) old)

abbrev at_address : (ℕ → Device) → Option ℕ → Option Device
at_address heap none = none
at_address heap (some a) = some (heap a)

module _ {S : Type 0} where
  -- What the client's registry shows at a MAC address.
  unfoldable pub view : Bytes → Client S → Option Device
  view mac c = at_address c.heap (get_device mac c)

  view-record_device :
      (mac : Bytes) (d : Device) (c : Client S)
      → IsRegistry c
      → view mac (record_device d c) ≡ update mac (some d) (view mac c)
  unfolding view record_device get_device
  view-record_device mac d c h = elim (Option-cases (get mac c.devices)) [
    | inl nothing ↦ ground (arith, get-put (mac_string d.mac) mac c.next c.devices, nothing)
    | inr (a, found) ↦
        ground (arith, get-put (mac_string d.mac) mac c.next c.devices, found, h.found mac a found)
  ]

  view-handle_discovery_reply :
      (mac reply src : Bytes) (now : ℕ) (c : Client S)
      → IsRegistry c
      → view mac (handle_discovery_reply reply src now c)
        ≡ update mac (announced (record { reply = reply; source = src; time = now })) (view mac c)
  unfolding handle_discovery_reply announced
  view-handle_discovery_reply mac reply src now c h = elim (Result-cases (parse_packet reply)) [
    | inr (e, bad) ↦ ground (arith, bad)
    | inl ((p, payload), good) ↦ elim (Bool-cases (p.udap_type == type_ucp)) [
      | inr other ↦ ground (arith, good, other)
      | inl ucp ↦ elim (Option-cases (parse_discovery_response payload src p now)) [
        | inl nothing ↦ ground (arith, good, ucp, nothing)
        | inr (d, new) ↦ ground (arith, good, ucp, new, view-record_device mac d c h)
      ]
    ]
  ]

module _ {S : Type 0} (t : Transport S) where
  -- What the transport delivers up to its first error.
  pub data Delivers : S → List Heard → RecvError → Type 0 where
    ends : (s s' : S) (e : RecvError) → t.recv s ≡ (failed e, s') → Delivers s [] e
    next :
        (s s' : S) (reply src : Bytes) (hs : List Heard) (e : RecvError)
        → t.recv s ≡ (packet reply src, s')
        → Delivers s' hs e
        → Delivers s (record { reply = reply; source = src; time = t.clock s' } ∷ hs) e

  -- A discovery that implements the abstract one: the transport delivers packets and then an error,
  -- discovery ends by the error, and the registry shows, under every MAC address, the last device
  -- that the packets announce, or what it showed before.
  pub record IsLatest (c : Client S) (out : Result OpError (Unit {0})) (c' : Client S)
      : Type 0 where
    pub heard : List Heard
    pub error : RecvError
    pub delivered : Delivers c.transport heard error
    pub result : out ≡ discovery_end error
    pub shown : (mac : Bytes) → view mac c' ≡ latest mac heard (view mac c)

  Discovers-IsLatest :
      (c c' : Client S) (out : Result OpError (Unit {0}))
      → Discovers t c out c'
      → IsRegistry c
      → IsLatest c out c'
  unfolding latest view get_device
  Discovers-IsLatest c _ _ (stops _ s e q) h = record {
    heard = [];
    error = e;
    delivered = ends c.transport s e q;
    result = refl;
    shown = λ mac. refl;
  }
  Discovers-IsLatest c c' out (hears _ _ s reply src _ q d) h =
      let c1 = record c { transport = s } in
      let c2 = handle_discovery_reply reply src (t.clock s) c1 in
      let h1 : IsRegistry c1 = record { found = h.found } in
      let rest =
        Discovers-IsLatest c2 c' out d
          (IsRegistry-handle_discovery_reply reply src (t.clock s) c1 h1) in
      record {
        heard = record { reply = reply; source = src; time = t.clock s } ∷ rest.heard;
        error = rest.error;
        delivered = next c.transport s reply src rest.heard rest.error q (
            subst (λ (s' : S). Delivers s' rest.heard rest.error)
              (transport-handle_discovery_reply reply src (t.clock s) c1) rest.delivered);
        result = rest.result;
        shown = λ mac.
            rest.shown mac
            ∙ ap (latest mac rest.heard)
                (view-handle_discovery_reply mac reply src (t.clock s) c1 h1);
      }

  -- Over a registry that has the invariant, a discovery whose request is sent implements the abstract
  -- one.
  pub discover_devices-IsLatest :
      (c : Client S)
      → IsRegistry c
      → (asked t c).0 ≡ none
      → IsLatest (asked t c).1 (discover_devices t c).0 (discover_devices t c).1
  discover_devices-IsLatest c h sent =
      Discovers-IsLatest (asked t c).1 (discover_devices t c).1 (discover_devices t c).0
        ((discover_devices-Discovers t c).0 sent) (IsRegistry-asked t c h)
