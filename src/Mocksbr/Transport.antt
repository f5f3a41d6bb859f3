-- ===== src/Mocksbr/Transport.antt =====
-- mocksbr/transport.go: the in-process transport, an implementation of the client's port.
use go_udap.Prelude.{
  ℕ, ◌+◌, ◌<◌, ◌≡◌, refl, Bool, true, false, List, [], ◌∷◌, ◌++◌, Option, none, ltb, ◌==◌,
  if◌then◌else◌, length, arith, ok, err, ap,
}
use go_udap.Prelude.Bytes.{Bytes}
use go_udap.Udap.Mac.{mac_string}
use go_udap.Udap.Packet.{parse_packet, udap_header_size}
use go_udap.Udap.Transport.{
  Transport, SendError, Received, packet, failed, deadline_exceeded, canceled,
}
use go_udap.Mocksbr.Network.{Network}
use go_udap.Mocksbr.Handlers.{ScheduledReply, receive_scheduled}

-- `pendingReply`
pub record PendingReply : Type 0 where
  pub bytes : Bytes
  pub src : Bytes

-- A reply that `time.AfterFunc` will queue.
pub record Timer : Type 0 where
  pub due : ℕ
  pub reply : PendingReply

-- `MockTransport`, with the clock, the timers in the order in which they fire, and the deadline of
-- the caller's context.
pub record MockTransport : Type 0 where
  pub net : Network
  pub pending : List PendingReply
  pub closed : Bool
  pub now : ℕ
  pub timers : List Timer
  pub deadline : ℕ

-- `NewMockTransport`
unfoldable pub new_mock_transport : Network → ℕ → ℕ → MockTransport
new_mock_transport net now deadline = record {
  net = net;
  pending = [];
  closed = false;
  now = now;
  timers = [];
  deadline = deadline;
}

-- `mockSourceMAC`
unfoldable pub mock_source_mac : Bytes → Bytes
mock_source_mac reply =
    if ltb (length reply) udap_header_size
    then []
    else elim (parse_packet reply) [ err e ↦ [] | ok (p, payload) ↦ mac_string p.src_address ]

unfoldable pub enqueue : PendingReply → MockTransport → MockTransport
enqueue reply t = if t.closed then t else record t { pending = t.pending ++ reply ∷ [] }

unfoldable pub add_timer : Timer → List Timer → List Timer
add_timer x [] = x ∷ []
add_timer x (y ∷ ys) = if ltb x.due y.due then x ∷ y ∷ ys else y ∷ add_timer x ys

unfoldable pub schedule_reply : ScheduledReply → MockTransport → MockTransport
schedule_reply r t =
    let reply : PendingReply = record { bytes = r.bytes; src = mock_source_mac r.bytes } in
    if r.delay == 0
    then enqueue reply t
    else record t { timers = add_timer (record { due = t.now + r.delay; reply = reply }) t.timers }

unfoldable pub schedule_all : List ScheduledReply → MockTransport → MockTransport
schedule_all [] t = t
schedule_all (r ∷ rs) t = schedule_all rs (schedule_reply r t)

-- `InjectReply`
unfoldable pub inject_reply : Bytes → Bytes → MockTransport → MockTransport
inject_reply bytes src = enqueue (record { bytes = bytes; src = src })

unfoldable pub mock_send : Bytes → MockTransport → Option SendError × MockTransport
mock_send bytes t =
    let (replies, net) = receive_scheduled t.now bytes t.net in
    (none, schedule_all replies (record t { net = net }))

-- With nothing queued, `Recv` sleeps until a timer queues a reply or the context is done.
recv_timer : List Timer → MockTransport → Received × MockTransport
recv_timer [] t = (failed deadline_exceeded, record t { now = t.deadline })
recv_timer (x ∷ xs) t =
    if ltb t.deadline x.due
    then (failed deadline_exceeded, record t { now = t.deadline })
    else (packet x.reply.bytes x.reply.src, record t { now = x.due; timers = xs })

recv_pending : List PendingReply → MockTransport → Received × MockTransport
recv_pending [] t = recv_timer t.timers t
recv_pending (r ∷ rs) t = (packet r.bytes r.src, record t { pending = rs })

unfoldable pub mock_recv : MockTransport → Received × MockTransport
unfolding recv_pending recv_timer
mock_recv t = if t.closed then (failed canceled, t) else recv_pending t.pending t

-- `Close`
unfoldable pub mock_close : MockTransport → MockTransport
mock_close t = record t { closed = true; pending = [] }

abbrev pub mock_backlog : MockTransport → ℕ
mock_backlog t = length t.pending + length t.timers

-- A packet that is received has left the queue or the timers.
recv_timer_backlog :
    (xs : List Timer) (t t' : MockTransport) (bytes src : Bytes)
    → recv_timer xs t ≡ (packet bytes src, t')
    → (length t'.pending ≡ length t.pending) × (length t'.timers < length xs)
unfolding recv_timer
recv_timer_backlog [] t t' bytes src h = absurd (ground arith)
recv_timer_backlog (x ∷ xs) t t' bytes src h = (ground arith, ground arith)

recv_pending_backlog :
    (ps : List PendingReply) (t t' : MockTransport) (bytes src : Bytes)
    → t.pending ≡ ps
    → recv_pending ps t ≡ (packet bytes src, t')
    → mock_backlog t' < mock_backlog t
recv_pending_backlog [] t t' bytes src e h =
    omega (arith, recv_timer_backlog t.timers t t' bytes src (unfold recv_pending in h))
recv_pending_backlog (r ∷ rs) t t' bytes src e h =
    let left : length t'.pending ≡ length rs = unfold recv_pending in ground arith in
    let same : length t'.timers ≡ length t.timers = unfold recv_pending in ground arith in
    omega (arith, ap length e)

pub mock_recv_backlog :
    (t : MockTransport) (bytes src : Bytes) (t' : MockTransport)
    → mock_recv t ≡ (packet bytes src, t')
    → mock_backlog t' < mock_backlog t
mock_recv_backlog t bytes src t' h =
    recv_pending_backlog t.pending t t' bytes src refl (unfold mock_recv in ground arith)

-- The in-process transport is a transport.
abbrev pub mock_port : Transport MockTransport
mock_port = record {
  send = mock_send;
  recv = mock_recv;
  clock = λ t. t.now;
  backlog = mock_backlog;
  recv_backlog = mock_recv_backlog;
}
