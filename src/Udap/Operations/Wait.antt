-- ===== src/Udap/Operations/Wait.antt =====
-- The receive loops end, and what they return follows from the packets that arrive.
use go_udap.Prelude.{
  ◌↔◌, ℕ, zero, suc, ◌<◌, ◌≡◌, refl, true, Option, none, some, length, [], ◌∷◌, ◌==◌, Result, ok,
  err, arith, inl, inr, ◌⊎◌,
}
use go_udap.Prelude.Bytes.{Bytes, bytes_eq, bytes_eq→eq, eq→bytes_eq}
use go_udap.Udap.Mac.{mac_eq}
use go_udap.Udap.Mac.RoundTrip.{mac_eq_self, mac_eq→eq}
use go_udap.Udap.Packet.{Packet, parse_packet}
use go_udap.Udap.Discovery.{Device}
use go_udap.Udap.Transport.{Transport, Received, packet, failed, RecvError}
use go_udap.Udap.Client.{Client}
use go_udap.Udap.Operations.{
  OpError, recv_failed, match_reply, wait_match, wait_round, wait_loop, wait_for_device_reply,
}

-- What it takes for a packet to be accepted as the device's reply.
pub record IsReplyOf (device : Device) (reply src : Bytes) (r : Packet × Bytes) : Type 0 where
  pub parses : parse_packet reply ≡ ok r
  pub source : r.0.src_address ≡ device.mac
  pub address : (device.ip ≡ []) ⊎ (src ≡ device.ip)

length-nil : (s : Bytes) → (length s == 0) ≡ true → s ≡ []
length-nil [] h = refl
length-nil (b ∷ s) h = ground arith

-- An accepted packet is a well-formed packet from the device's MAC address, and arrived from the
-- device's IP address unless none is known.
pub match_reply_sound :
    (device : Device) (reply src : Bytes) (r : Packet × Bytes)
    → match_reply device reply src ≡ some r
    → IsReplyOf device reply src r
unfolding match_reply
match_reply_sound device reply src r h =
    let p : parse_packet reply ≡ ok r = ground arith in
    let m : mac_eq r.0.src_address device.mac ≡ true = ground arith in
    let a : ((length device.ip == 0) ≡ true) ⊎ (bytes_eq src device.ip ≡ true) = ground arith in
    record {
      parses = p;
      source = mac_eq→eq r.0.src_address device.mac m;
      address = elim a [
        | inl e ↦ inl (length-nil device.ip e)
        | inr e ↦ inr (bytes_eq→eq src device.ip e)
      ];
    }

match_reply_complete :
    (device : Device) (reply src : Bytes) (r : Packet × Bytes)
    → IsReplyOf device reply src r
    → match_reply device reply src ≡ some r
unfolding match_reply
match_reply_complete device reply src r h =
    let m : mac_eq r.0.src_address device.mac ≡ true = rw h.source (mac_eq_self device.mac) in
    elim h.address [
      | inl none_known ↦
          let e : (length device.ip == 0) ≡ true = rw none_known refl in
          ground (arith, h.parses, m, e)
      | inr known ↦
          let e : bytes_eq src device.ip ≡ true = eq→bytes_eq src device.ip known in
          ground (arith, h.parses, m, e)
    ]

-- A packet is taken as the device's reply exactly if it is a well-formed packet, its source is the
-- device's MAC address, and it arrived from the device's IP address unless none is known.
pub match_reply_iff :
    (device : Device) (reply src : Bytes) (r : Packet × Bytes)
    → (match_reply device reply src ≡ some r) ↔ IsReplyOf device reply src r
match_reply_iff device reply src r =
    (match_reply_sound device reply src r, match_reply_complete device reply src r)

module _ {S : Type 0} (t : Transport S) where
  -- The receive loop as a relation: the first error or the first accepted packet ends it, and every
  -- packet in front of that is dropped.
  pub data Awaits (device : Device) : S → Result OpError (Packet × Bytes) → S → Type 0 where
    fails :
        (s s' : S) (e : RecvError)
        → t.recv s ≡ (failed e, s')
        → Awaits device s (err (recv_failed e)) s'
    accepts :
        (s s' : S) (reply src : Bytes) (r : Packet × Bytes)
        → t.recv s ≡ (packet reply src, s')
        → match_reply device reply src ≡ some r
        → Awaits device s (ok r) s'
    drops :
        (s s' s'' : S) (reply src : Bytes) (out : Result OpError (Packet × Bytes))
        → t.recv s ≡ (packet reply src, s')
        → match_reply device reply src ≡ none
        → Awaits device s' out s''
        → Awaits device s out s''

  module _ (fuel : ℕ) (device : Device)
      (next : (s : S)
        → t.backlog s < fuel
        → Awaits device s (wait_loop t fuel device s).0 (wait_loop t fuel device s).1) where
    wait_match-Awaits :
        (s s' : S) (reply src : Bytes) (o : Option (Packet × Bytes))
        → t.backlog s < suc fuel
        → t.recv s ≡ (packet reply src, s')
        → match_reply device reply src ≡ o
        → Awaits device s
            (wait_match (wait_loop t fuel device) o s').0
            (wait_match (wait_loop t fuel device) o s').1
    unfolding wait_match
    wait_match-Awaits s s' reply src (some r) h e m = accepts s s' reply src r e m
    wait_match-Awaits s s' reply src none h e m =
        drops s s' _ reply src _ e m (next s' (omega (arith, t.recv_backlog s reply src s' e)))

    wait_round-Awaits :
        (s s' : S) (received : Received)
        → t.backlog s < suc fuel
        → t.recv s ≡ (received, s')
        → Awaits device s
            (wait_round (wait_loop t fuel device) device received s').0
            (wait_round (wait_loop t fuel device) device received s').1
    unfolding wait_round
    wait_round-Awaits s s' (failed e) h q = fails s s' e q
    wait_round-Awaits s s' (packet reply src) h q =
        wait_match-Awaits s s' reply src (match_reply device reply src) h q refl

  wait_loop-Awaits :
      (fuel : ℕ) (device : Device) (s : S)
      → t.backlog s < fuel
      → Awaits device s (wait_loop t fuel device s).0 (wait_loop t fuel device s).1
  unfolding wait_loop
  wait_loop-Awaits zero device s h = absurd (omega arith)
  wait_loop-Awaits (suc fuel) device s h =
      wait_round-Awaits fuel device (wait_loop-Awaits fuel device) s (t.recv s).1 (t.recv s).0 h
        refl

  -- Waiting for a device's reply always ends: with the first error of the transport, or with the
  -- first packet that matches the device, and every packet in front of it is dropped.
  pub wait_for_device_reply-Awaits :
      (a : ℕ) (c : Client S)
      → Awaits
          (c.heap a)
          c.transport
          (wait_for_device_reply t a c).0
          (wait_for_device_reply t a c).1.transport
  unfolding wait_for_device_reply
  wait_for_device_reply-Awaits a c =
      wait_loop-Awaits (suc (t.backlog c.transport)) (c.heap a) c.transport (omega arith)

  -- The first packet that is received is the reply.
  pub wait_for_device_reply_first :
      (a : ℕ) (c : Client S) (reply src : Bytes) (s : S) (r : Packet × Bytes)
      → t.recv c.transport ≡ (packet reply src, s)
      → match_reply (c.heap a) reply src ≡ some r
      → wait_for_device_reply t a c ≡ (ok r, record c { transport = s })
  unfolding wait_for_device_reply wait_loop wait_round wait_match
  wait_for_device_reply_first a c reply src s r h m = rw (h, m) refl
