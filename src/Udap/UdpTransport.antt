-- ===== src/Udap/UdpTransport.antt =====
-- udap/transport.go: `UDPTransport`, the transport over a UDP socket. The socket and the caller's
-- context are parameters.
pub mod Replies
use go_udap.Prelude.{ℕ, zero, suc, ◌<◌, ◌≡◌, Option, none, some, if◌then◌else◌, length}
use go_udap.Prelude.Bytes.{Bytes}
use go_udap.Udap.Packet.{is_udap_request_packet}
use go_udap.Udap.Transport.{SendError, RecvError, transport_error, Received, packet, failed}

-- What `ReadFromUDP` gives until its deadline: the bytes of a datagram that fit the buffer with their
-- source, a timeout, or another error.
pub data Read : Type 0 where
  datagram : Bytes → Bytes → Read
  timeout : Read
  read_error : ℕ → Read

-- The socket, in the states `S` of the world, and the caller's context.
pub record Socket (S : Type 0) : Type 0 where
  pub write : Bytes → S → Option SendError × S
  pub read : S → Read × S
  pub context_error : S → Option RecvError
  pub clock : S → ℕ

-- That the context is done after so many reads, as one with a deadline is, since each read ends at a
-- deadline that lies ahead. `Recv` with a context that is only cancelled can block for ever.
pub record Ending {S : Type 0} (sock : Socket S) : Type 0 where
  pub rounds : S → ℕ
  pub read_rounds : (s : S) → sock.context_error s ≡ none → rounds (sock.read s).1 < rounds s

module _ {S : Type 0} where
  -- A timeout and a request are passed over.
  pub recv_read : (S → Received × S) → Read × S → Received × S
  recv_read again (datagram bytes src, s) =
      if is_udap_request_packet bytes (length bytes) then again s else (packet bytes src, s)
  recv_read again (timeout, s) = again s
  recv_read again (read_error n, s) = (failed (transport_error n), s)

  pub recv_from_read : (S → Received × S) → Read × S → Received × S
  recv_from_read again (datagram bytes src, s) = (packet bytes src, s)
  recv_from_read again (timeout, s) = again s
  recv_from_read again (read_error n, s) = (failed (transport_error n), s)

  -- A context that is done ends the loop.
  pub unless_done : (S → Received × S) → S → Option RecvError → Received × S
  unless_done again s none = again s
  unless_done again s (some e) = (failed e, s)

module _ {S : Type 0} (sock : Socket S) where
  -- The loops of `Recv` and `RecvFrom`, on fuel.
  pub recv_loop : ℕ → S → Received × S
  recv_loop zero s = (failed (transport_error 0), s)
  recv_loop (suc fuel) s =
      unless_done (λ (s' : S). recv_read (recv_loop fuel) (sock.read s')) s (sock.context_error s)

  pub recv_from_loop : ℕ → S → Received × S
  recv_from_loop zero s = (failed (transport_error 0), s)
  recv_from_loop (suc fuel) s =
      unless_done (λ (s' : S). recv_from_read (recv_from_loop fuel) (sock.read s')) s
        (sock.context_error s)

  -- `Send`, to the broadcast address, which always resolves.
  abbrev pub udp_send : Bytes → S → Option SendError × S
  udp_send bytes s = sock.write bytes s

  -- `Recv`
  unfoldable pub udp_recv : Ending sock → S → Received × S
  unfolding recv_loop unless_done recv_read
  udp_recv ending s = recv_loop (suc (ending.rounds s)) s

  -- `RecvFrom`
  unfoldable pub udp_recv_from : Ending sock → S → Received × S
  unfolding recv_from_loop unless_done recv_from_read
  udp_recv_from ending s = recv_from_loop (suc (ending.rounds s)) s
