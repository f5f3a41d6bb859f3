-- ===== src/Mocksbr/Exchange.antt =====
-- A request of the client and its answer, through the in-process transport.
pub mod Served
pub mod Get
pub mod Set
use go_udap.Prelude.{
  ℕ, suc, ◌+◌, ◌≡◌, refl, sym, ap, ◌∙◌, Bool, true, false, List, [], ◌∷◌, Option, none, some,
  Result, ok, err, length, arith,
}
use go_udap.Prelude.Bytes.{Bytes}
use go_udap.Udap.Packet.{Packet}
use go_udap.Udap.Discovery.{Device}
use go_udap.Udap.Transport.{SendError, Received, packet}
use go_udap.Udap.Client.{Client, send_retried}
use go_udap.Udap.Client.Send.{send_retried_once}
use go_udap.Udap.Operations.Wait.{wait_for_device_reply_first}
use go_udap.Udap.Client.Packets.{Built}
use go_udap.Udap.Operations.{
  OpError, Op, continue, build, transmit, device_at, match_reply, wait_for_device_reply, round_trip,
}
use go_udap.Mocksbr.Network.{Network}
use go_udap.Mocksbr.Handlers.{ScheduledReply, receive_scheduled}
use go_udap.Mocksbr.Transport.{
  MockTransport, PendingReply, mock_source_mac, enqueue, schedule_reply, schedule_all, mock_send,
  mock_recv, mock_port,
}

-- Nothing waits in the transport, and it is open.
pub record IsQuiet (t : MockTransport) : Type 0 where
  pub empty : t.pending ≡ []
  pub alive : t.closed ≡ false

-- The transport with another network.
abbrev pub with_net : Network → MockTransport → MockTransport
with_net net t = record t { net = net; pending = [] }

abbrev queued : Bytes → Network → MockTransport → MockTransport
queued reply net t = record t {
  net = net;
  pending = record { bytes = reply; src = mock_source_mac reply } ∷ [];
}

abbrev prompt_reply : Bytes → ScheduledReply
prompt_reply reply = record { bytes = reply; delay = 0 }

-- A request that is answered at once, by one reply.
mock_send-queued :
    (t : MockTransport) (bytes reply : Bytes) (net : Network)
    → IsQuiet t
    → receive_scheduled t.now bytes t.net ≡ (prompt_reply reply ∷ [], net)
    → mock_send bytes t ≡ (none, queued reply net t)
unfolding mock_send schedule_all schedule_reply enqueue
mock_send-queued t bytes reply net q h = rw (h, q.alive, q.empty) refl

mock_recv-queued :
    (t : MockTransport) (reply : Bytes) (net : Network)
    → IsQuiet t
    → mock_recv (queued reply net t) ≡ (packet reply (mock_source_mac reply), with_net net t)
unfolding mock_recv
mock_recv-queued t reply net q = rw q.alive refl

-- What an exchange leaves of the client.
abbrev pub behind : ℕ → Network → Client MockTransport → Client MockTransport
behind seq net c = record c { sequence = seq; transport = with_net net c.transport }

build_ok :
    (make : ℕ → Built) (c : Client MockTransport) (bytes : Bytes) (seq : ℕ)
    → make c.sequence ≡ (ok bytes, seq)
    → build make c ≡ (ok bytes, record c { sequence = seq })
unfolding build
build_ok make c bytes seq h = rw h refl

transmit-queued :
    (bytes reply : Bytes) (net : Network) (c : Client MockTransport)
    → c.retries ≡ 0
    → IsQuiet c.transport
    → receive_scheduled c.transport.now bytes c.transport.net ≡ (prompt_reply reply ∷ [], net)
    → transmit mock_port bytes c ≡ (ok tt, record c { transport = queued reply net c.transport })
unfolding transmit
transmit-queued bytes reply net c once q h =
    rw
      (send_retried_once mock_port bytes c (queued reply net c.transport) once
        (mock_send-queued c.transport bytes reply net q h))
      refl

-- A request that is built, sent once, and answered at once by a packet that matches the device,
-- returns that packet.
pub round_trip-behind :
    (make : Device → ℕ → Built) (a : ℕ) (c : Client MockTransport) (bytes reply : Bytes) (seq : ℕ)
    (net : Network) (r : Packet × Bytes)
    → c.retries ≡ 0
    → IsQuiet c.transport
    → make (c.heap a) c.sequence ≡ (ok bytes, seq)
    → receive_scheduled c.transport.now bytes c.transport.net ≡ (prompt_reply reply ∷ [], net)
    → match_reply (c.heap a) reply (mock_source_mac reply) ≡ some r
    → round_trip mock_port make a c ≡ (ok r, behind seq net c)
unfolding round_trip device_at
round_trip-behind make a c bytes reply seq net r once q made served matched =
    let c1 = record c { sequence = seq } in
    let c2 = record c1 { transport = queued reply net c.transport } in
    ap
      (continue
        (λ b. λ c'. continue (λ _. wait_for_device_reply mock_port a) (transmit mock_port b c')))
      (build_ok (make (c.heap a)) c bytes seq made)
    ∙ ap (continue (λ _. wait_for_device_reply mock_port a))
        (transmit-queued bytes reply net c1 once q served)
    ∙ wait_for_device_reply_first mock_port a c2 reply (mock_source_mac reply)
        (with_net net c.transport) r (mock_recv-queued c.transport reply net q) matched
