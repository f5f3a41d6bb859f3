-- ===== src/Udap/UdpTransport/Replies.antt =====
-- What `Recv` returns, and the transport that the client sees.
use go_udap.Prelude.{
  ℕ, zero, suc, ◌<◌, ◌≡◌, refl, sym, ap, true, false, Bool-cases, none, some, Option-cases, length,
  inl, inr, arith,
}
use go_udap.Prelude.Bytes.{Bytes}
use go_udap.Udap.Packet.{is_udap_request_packet}
use go_udap.Udap.Transport.{Transport, RecvError, transport_error, Received, packet, failed}
use go_udap.Udap.UdpTransport.{
  Read, datagram, timeout, read_error, Socket, Ending, recv_read, unless_done, recv_loop, udp_recv,
  udp_send,
}

module _ {S : Type 0} (sock : Socket S) where
  -- `Recv` from a state: the context is done, or a read fails, or gives a reply, or is passed over and
  -- the loop goes on.
  pub data Receives : S → Received → S → Type 0 where
    is_done : (s : S) (e : RecvError) → sock.context_error s ≡ some e → Receives s (failed e) s
    fails :
        (s s' : S) (n : ℕ)
        → sock.context_error s ≡ none
        → sock.read s ≡ (read_error n, s')
        → Receives s (failed (transport_error n)) s'
    returns :
        (s s' : S) (bytes src : Bytes)
        → sock.context_error s ≡ none
        → sock.read s ≡ (datagram bytes src, s')
        → is_udap_request_packet bytes (length bytes) ≡ false
        → Receives s (packet bytes src) s'
    waits :
        (s s' s'' : S) (r : Received)
        → sock.context_error s ≡ none
        → sock.read s ≡ (timeout, s')
        → Receives s' r s''
        → Receives s r s''
    skips :
        (s s' s'' : S) (bytes src : Bytes) (r : Received)
        → sock.context_error s ≡ none
        → sock.read s ≡ (datagram bytes src, s')
        → is_udap_request_packet bytes (length bytes) ≡ true
        → Receives s' r s''
        → Receives s r s''

  module _ (ending : Ending sock) where
    read_fewer :
        (s s' : S) (r : Read)
        → sock.context_error s ≡ none
        → sock.read s ≡ (r, s')
        → ending.rounds s' < ending.rounds s
    read_fewer s s' r alive q = rw (sym (ap (λ x. x.1) q)) (ending.read_rounds s alive)

    module _ (fuel : ℕ) (s : S) (alive : sock.context_error s ≡ none)
        (h : ending.rounds s < suc fuel)
        (next : (s' : S)
          → ending.rounds s' < fuel
          → Receives s' (recv_loop sock fuel s').0 (recv_loop sock fuel s').1) where
      recv_read-Receives :
          (r : Read) (s' : S)
          → sock.read s ≡ (r, s')
          → Receives s
              (recv_read (recv_loop sock fuel) (r, s')).0
              (recv_read (recv_loop sock fuel) (r, s')).1
      unfolding recv_read
      recv_read-Receives (read_error n) s' q = fails s s' n alive q
      recv_read-Receives timeout s' q =
          waits s s' _ _ alive q (next s' (omega (arith, read_fewer s s' _ alive q, h)))
      recv_read-Receives (datagram bytes src) s' q =
          elim (Bool-cases (is_udap_request_packet bytes (length bytes))) [
            | inl request ↦ rw request (
                skips s s' _ bytes src _ alive q request
                  (next s' (omega (arith, read_fewer s s' _ alive q, h))))
            | inr other ↦ rw other (returns s s' bytes src alive q other)
          ]

    recv_loop-Receives :
        (fuel : ℕ) (s : S)
        → ending.rounds s < fuel
        → Receives s (recv_loop sock fuel s).0 (recv_loop sock fuel s).1
    unfolding recv_loop unless_done
    recv_loop-Receives zero s h = absurd (omega arith)
    recv_loop-Receives (suc fuel) s h = elim (Option-cases (sock.context_error s)) [
      | inr (e, over) ↦ rw over (is_done s e over)
      | inl alive ↦ rw alive (
          recv_read-Receives fuel s alive h (recv_loop-Receives fuel) (sock.read s).0
            (sock.read s).1 refl)
    ]

    -- With a context that is done after finitely many reads, as one with a deadline is, `Recv` returns:
    -- with the context's error when it is done, with a failed read, or with the first datagram that is
    -- no request; timeouts and requests in front of that are passed over.
    pub udp_recv-Receives :
        (s : S) → Receives s (udp_recv sock ending s).0 (udp_recv sock ending s).1
    unfolding udp_recv
    udp_recv-Receives s = recv_loop-Receives (suc (ending.rounds s)) s (omega arith)

    -- A packet that is returned took a read at least.
    pub Receives-rounds :
        (s s' : S) (r : Received)
        → Receives s r s'
        → (bytes src : Bytes) → r ≡ packet bytes src
        → ending.rounds s' < ending.rounds s
    Receives-rounds s _ _ (is_done _ e _) bytes src h = absurd (ground arith)
    Receives-rounds s s' _ (fails _ _ n alive q) bytes src h = absurd (ground arith)
    Receives-rounds s s' _ (returns _ _ b c alive q _) bytes src h = read_fewer s s' _ alive q
    Receives-rounds s s'' r (waits _ s' _ _ alive q rest) bytes src h =
        omega (arith, read_fewer s s' _ alive q, Receives-rounds s' s'' r rest bytes src h)
    Receives-rounds s s'' r (skips _ s' _ b c _ alive q _ rest) bytes src h =
        omega (arith, read_fewer s s' _ alive q, Receives-rounds s' s'' r rest bytes src h)

    -- The UDP transport is a transport.
    abbrev pub udp_port : Transport S
    udp_port = record {
      send = udp_send sock;
      recv = udp_recv sock ending;
      clock = sock.clock;
      backlog = ending.rounds;
      recv_backlog = λ s bytes src s' e. rw (sym (ap (λ x. x.1) e)) (
          Receives-rounds s (udp_recv sock ending s).1 (udp_recv sock ending s).0
            (udp_recv-Receives s) bytes src (ap (λ x. x.0) e));
    }
