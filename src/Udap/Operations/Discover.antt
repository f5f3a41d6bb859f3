-- ===== src/Udap/Operations/Discover.antt =====
-- The discovery loop: that it ends, what it ends with, and that it keeps the registry's invariant.
use mathlib.Core.Path.{subst}
use go_udap.Prelude.{
  Bool-cases, ◌⊎◌, ℕ, zero, suc, ◌<◌, ◌≡◌, ◌≢◌, refl, sym, ap, Option, none, some, Option-cases,
  Result, err, Result-cases, arith, inl, inr, ◌==◌,
}
use go_udap.Prelude.Bytes.{Bytes}
use go_udap.Udap.Packet.{parse_packet, type_ucp}
use go_udap.Udap.Discovery.{Device, parse_discovery_response}
use go_udap.Udap.Transport.{
  Transport, Received, packet, failed, RecvError, deadline_exceeded, canceled, transport_error,
  SendError,
}
use go_udap.Udap.Client.{Client, record_device, send_retried}
use go_udap.Udap.Client.Packets.{create_advanced_discovery_packet}
use go_udap.Udap.Client.Registry.{IsRegistry, IsRegistry-record_device}
use go_udap.Udap.Operations.{
  OpError, discovery_end, handle_discovery_reply, discover_round, discover_loop, discover_devices,
  transmit, send_failed, out_of_fuel,
}

module _ {S : Type 0} where
  pub transport-handle_discovery_reply :
      (reply src : Bytes) (now : ℕ) (c : Client S)
      → (handle_discovery_reply reply src now c).transport ≡ c.transport
  unfolding handle_discovery_reply record_device
  transport-handle_discovery_reply reply src now c = ground arith

  -- A packet is ignored, or makes one device that is recorded.
  pub handled-cases :
      (reply src : Bytes) (now : ℕ) (c : Client S)
      → (handle_discovery_reply reply src now c ≡ c)
        ⊎ ((device : Device) × (handle_discovery_reply reply src now c ≡ record_device device c))
  unfolding handle_discovery_reply
  handled-cases reply src now c = elim (Result-cases (parse_packet reply)) [
    | inr (e, bad) ↦ inl (ground arith)
    | inl (r, good) ↦ elim (Bool-cases (r.0.udap_type == type_ucp)) [
      | inr other ↦ inl (ground arith)
      | inl ucp ↦ elim (Option-cases (parse_discovery_response r.1 src r.0 now)) [
        | inl nothing ↦ inl (ground arith)
        | inr (device, found) ↦ inr (device, ground arith)
      ]
    ]
  ]

  pub IsRegistry-handle_discovery_reply :
      (reply src : Bytes) (now : ℕ) (c : Client S)
      → IsRegistry c
      → IsRegistry (handle_discovery_reply reply src now c)
  IsRegistry-handle_discovery_reply reply src now c h = elim (handled-cases reply src now c) [
    | inl same ↦ subst IsRegistry (sym same) h
    | inr (device, new) ↦ subst IsRegistry (sym new) (IsRegistry-record_device device c h)
  ]

discovery_end_enough : (e : RecvError) → discovery_end e ≢ err out_of_fuel
unfolding discovery_end
discovery_end_enough deadline_exceeded h = cc
discovery_end_enough canceled h = cc
discovery_end_enough (transport_error n) h = absurd (ground arith)

module _ {S : Type 0} (t : Transport S) where
  -- The receive loop as a relation: the first error of the transport ends it, and every packet in
  -- front of that is handled.
  pub data Discovers : Client S → Result OpError (Unit {0}) → Client S → Type 0 where
    stops :
        (c : Client S) (s : S) (e : RecvError)
        → t.recv c.transport ≡ (failed e, s)
        → Discovers c (discovery_end e) (record c { transport = s })
    hears :
        (c c' : Client S) (s : S) (reply src : Bytes) (out : Result OpError (Unit {0}))
        → t.recv c.transport ≡ (packet reply src, s)
        → Discovers
            (handle_discovery_reply reply src (t.clock s) (record c { transport = s }))
            out
            c'
        → Discovers c out c'

  module _ (fuel : ℕ)
      (next : (c : Client S)
        → t.backlog c.transport < fuel
        → Discovers c (discover_loop t fuel c).0 (discover_loop t fuel c).1) where
    discover_round-Discovers :
        (c : Client S) (s : S) (received : Received)
        → t.backlog c.transport < suc fuel
        → t.recv c.transport ≡ (received, s)
        → Discovers c
            (discover_round
              (discover_loop t fuel)
              (t.clock s)
              received
              (record c { transport = s })).0
            (discover_round
              (discover_loop t fuel)
              (t.clock s)
              received
              (record c { transport = s })).1
    unfolding discover_round
    discover_round-Discovers c s (failed e) h q = stops c s e q
    discover_round-Discovers c s (packet reply src) h q =
        let c' = handle_discovery_reply reply src (t.clock s) (record c { transport = s }) in
        let same =
          transport-handle_discovery_reply reply src (t.clock s) (record c { transport = s }) in
        let shorter = t.recv_backlog c.transport reply src s q in
        hears c _ s reply src _ q (next c' (rw same (omega (arith, shorter))))

  -- On more fuel than packets can still arrive, the loop runs as the relation says.
  pub discover_loop-Discovers :
      (fuel : ℕ) (c : Client S)
      → t.backlog c.transport < fuel
      → Discovers c (discover_loop t fuel c).0 (discover_loop t fuel c).1
  unfolding discover_loop
  discover_loop-Discovers zero c h = absurd (omega arith)
  discover_loop-Discovers (suc fuel) c h =
      discover_round-Discovers fuel (discover_loop-Discovers fuel) c (t.recv c.transport).1
        (t.recv c.transport).0 h refl

  pub IsRegistry-Discovers :
      (c c' : Client S) (out : Result OpError (Unit {0}))
      → Discovers c out c'
      → IsRegistry c
      → IsRegistry c'
  IsRegistry-Discovers c _ _ (stops _ s e q) h = record { found = h.found }
  IsRegistry-Discovers c c' out (hears _ _ s reply src _ q d) h = IsRegistry-Discovers _ c' out d (
      IsRegistry-handle_discovery_reply reply src (t.clock s) (record c { transport = s })
        (record { found = h.found }))

  -- The client behind the send of the discovery request, and the send's error.
  abbrev pub asked : Client S → Option SendError × Client S
  asked c =
      let (bytes, seq) = create_advanced_discovery_packet c.sequence in
      send_retried t bytes (record c { sequence = seq })

  -- Discovery whose request cannot be sent ends with the send's error; otherwise it always ends, at
  -- the first error of the transport, after it has handled every packet in front of that.
  pub discover_devices-Discovers :
      (c : Client S)
      → ((asked c).0 ≡ none
          → Discovers (asked c).1 (discover_devices t c).0 (discover_devices t c).1)
        × ((e : SendError)
            → (asked c).0 ≡ some e
            → discover_devices t c ≡ (err (send_failed e), (asked c).1))
  unfolding discover_devices transmit
  discover_devices-Discovers c = (
    λ h.
        rw h (
          discover_loop-Discovers (suc (t.backlog (asked c).1.transport)) (asked c).1
            (omega arith)),
    λ e h. rw h refl,
  )

  pub IsRegistry-asked : (c : Client S) → IsRegistry c → IsRegistry (asked c).1
  unfolding send_retried
  IsRegistry-asked c h = record { found = h.found }

  -- Discovery keeps the registry's invariant, whatever packets arrive.
  pub IsRegistry-discover_devices :
      (c : Client S) → IsRegistry c → IsRegistry (discover_devices t c).1
  IsRegistry-discover_devices c h = elim (Option-cases (asked c).0) [
    | inl sent ↦
        IsRegistry-Discovers (asked c).1 (discover_devices t c).1 (discover_devices t c).0
          ((discover_devices-Discovers c).0 sent) (IsRegistry-asked c h)
    | inr (e, bad) ↦
        subst IsRegistry (sym (ap (λ r. r.1) ((discover_devices-Discovers c).1 e bad)))
          (IsRegistry-asked c h)
  ]

  Discovers-enough :
      (c c' : Client S) (out : Result OpError (Unit {0}))
      → Discovers c out c'
      → out ≢ err out_of_fuel
  Discovers-enough c _ _ (stops _ s e q) = discovery_end_enough e
  Discovers-enough c c' out (hears _ _ s reply src _ q d) = Discovers-enough _ c' out d

  -- Discovery has enough fuel.
  pub discover_devices_enough : (c : Client S) → (discover_devices t c).0 ≢ err out_of_fuel
  discover_devices_enough c = elim (Option-cases (asked c).0) [
    | inl sent ↦
        Discovers-enough (asked c).1 (discover_devices t c).1 (discover_devices t c).0
          ((discover_devices-Discovers c).0 sent)
    | inr (e, bad) ↦ λ h.
        let q = ap (λ r. r.0) ((discover_devices-Discovers c).1 e bad) in
        absurd (ground (arith, q, h))
  ]
