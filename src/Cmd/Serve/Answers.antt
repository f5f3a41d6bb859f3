-- ===== src/Cmd/Serve/Answers.antt =====
-- What the loop does until it ends.
use mathlib.Core.Path.{subst}
use go_udap.Prelude.{
  ℕ, zero, suc, ◌==◌, ◌<◌, ◌≤◌, ◌≡◌, refl, sym, ap, Bool-cases, true, false, List, [], ◌∷◌, inl,
  inr, arith,
}
use go_udap.Prelude.Bytes.{Bytes}
use go_udap.Mocksbr.Network.{Network}
use go_udap.Mocksbr.Network.Members.{IsNetwork}
use go_udap.Mocksbr.Handlers.{ScheduledReply, receive_scheduled}
use go_udap.Mocksbr.Handlers.Members.{IsNetwork-receive_scheduled}
use go_udap.Cmd.Serve.{
  Read, datagram, timeout, net_closed, read_error, Conn, Ending, write_reply, write_replies,
  serve_read, serve_loop, serve,
}

module _ {S : Type 0} (conn : Conn S) where
  -- Each reply goes to where the packet came from, at once, or when its delay has passed.
  pub data Writes (src : Bytes) : List ScheduledReply → S → S → Type 0 where
    no_more : (s : S) → Writes src [] s s
    at_once :
        (reply : ScheduledReply) (replies : List ScheduledReply) (s t : S)
        → reply.delay ≡ 0
        → Writes src replies (conn.write_to reply.bytes src s) t
        → Writes src (reply ∷ replies) s t
    delayed :
        (reply : ScheduledReply) (replies : List ScheduledReply) (s t : S)
        → 0 < reply.delay
        → Writes src replies (conn.write_after reply.delay reply.bytes src s) t
        → Writes src (reply ∷ replies) s t

  write_replies-Writes :
      (src : Bytes) (replies : List ScheduledReply) (s : S)
      → Writes src replies s (write_replies conn src replies s)
  unfolding write_replies write_reply
  write_replies-Writes src [] s = no_more s
  write_replies-Writes src (reply ∷ replies) s = elim (Bool-cases (reply.delay == 0)) [
    | inl now ↦
        rw (now, write_replies)
          (at_once reply replies s _ (ground (arith, now)) (write_replies-Writes src replies _))
    | inr later ↦
        rw (later, write_replies)
          (delayed reply replies s _ (ground (arith, later)) (write_replies-Writes src replies _))
  ]

  -- The network answers each packet, and the answers go to where it came from, until a signal or the
  -- closing of the socket ends the loop.
  pub data Answers : Network → S → Network → S → Type 0 where
    signalled : (n : Network) (s : S) → conn.context_done s ≡ true → Answers n s n s
    closes :
        (n : Network) (s s' : S)
        → conn.context_done s ≡ false
        → conn.read s ≡ (net_closed, s')
        → Answers n s n s'
    waits :
        (n m : Network) (s s' t : S)
        → conn.context_done s ≡ false
        → conn.read s ≡ (timeout, s')
        → Answers n s' m t
        → Answers n s m t
    fails :
        (n m : Network) (s s' t : S) (e : ℕ)
        → conn.context_done s ≡ false
        → conn.read s ≡ (read_error e, s')
        → Answers n s' m t
        → Answers n s m t
    answers :
        (n n' m : Network) (s s' u t : S) (bytes src : Bytes) (replies : List ScheduledReply)
        → conn.context_done s ≡ false
        → conn.read s ≡ (datagram bytes src, s')
        → receive_scheduled (conn.clock s') bytes n ≡ (replies, n')
        → Writes src replies s' u
        → Answers n' u m t
        → Answers n s m t

  -- Whatever is answered, the network keeps its invariant.
  pub Answers-IsNetwork : (n m : Network) (s t : S) → Answers n s m t → IsNetwork n → IsNetwork m
  Answers-IsNetwork n _ s _ (signalled _ _ _) h = h
  Answers-IsNetwork n _ s _ (closes _ _ _ _ _) h = h
  Answers-IsNetwork n m s t (waits _ _ _ s' _ _ _ a) h = Answers-IsNetwork n m s' t a h
  Answers-IsNetwork n m s t (fails _ _ _ s' _ _ _ _ a) h = Answers-IsNetwork n m s' t a h
  Answers-IsNetwork n m s t (answers _ n' _ _ s' _ _ bytes src replies _ _ e _ a) h =
      Answers-IsNetwork n' m _ t a
        (subst IsNetwork (ap (λ x. x.1) e) (IsNetwork-receive_scheduled (conn.clock s') bytes n h))

  module _ (ending : Ending conn) where
    write_reply_rounds :
        (src : Bytes) (reply : ScheduledReply) (s : S)
        → ending.rounds (write_reply conn src reply s) ≤ ending.rounds s
    unfolding write_reply
    write_reply_rounds src reply s = ground (
      arith,
      ending.write_rounds reply.bytes src s,
      ending.after_rounds reply.delay reply.bytes src s,
    )

    write_replies_rounds :
        (src : Bytes) (replies : List ScheduledReply) (s : S)
        → ending.rounds (write_replies conn src replies s) ≤ ending.rounds s
    unfolding write_replies
    write_replies_rounds src [] s = omega arith
    write_replies_rounds src (reply ∷ replies) s = omega (
      arith,
      write_replies_rounds src replies (write_reply conn src reply s),
      write_reply_rounds src reply s,
    )

    read_fewer :
        (s s' : S) (r : Read)
        → conn.context_done s ≡ false
        → conn.read s ≡ (r, s')
        → ending.rounds s' < ending.rounds s
    read_fewer s s' r alive q = rw (sym (ap (λ x. x.1) q)) (ending.read_rounds s alive)

    module _ (fuel : ℕ) (n : Network) (s : S) (alive : conn.context_done s ≡ false)
        (h : ending.rounds s < suc fuel)
        (next : (n' : Network) (s' : S)
          → ending.rounds s' < fuel
          → Answers n' s' (serve_loop conn fuel n' s').0 (serve_loop conn fuel n' s').1) where
      serve_read-Answers :
          (r : Read) (s' : S)
          → conn.read s ≡ (r, s')
          → Answers n s
              (serve_read conn (serve_loop conn fuel) n (r, s')).0
              (serve_read conn (serve_loop conn fuel) n (r, s')).1
      unfolding serve_read
      serve_read-Answers net_closed s' q = closes n s s' alive q
      serve_read-Answers timeout s' q =
          waits n _ s s' _ alive q (next n s' (omega (arith, read_fewer s s' _ alive q, h)))
      serve_read-Answers (read_error e) s' q =
          fails n _ s s' _ e alive q (next n s' (omega (arith, read_fewer s s' _ alive q, h)))
      serve_read-Answers (datagram bytes src) s' q =
          let (replies, n') = receive_scheduled (conn.clock s') bytes n in
          answers n n' _ s s' _ _ bytes src replies alive q refl
            (write_replies-Writes src replies s')
            (next n' (write_replies conn src replies s')
              (omega (arith, read_fewer s s' _ alive q, h, write_replies_rounds src replies s')))

    serve_loop-Answers :
        (fuel : ℕ) (n : Network) (s : S)
        → ending.rounds s < fuel
        → Answers n s (serve_loop conn fuel n s).0 (serve_loop conn fuel n s).1
    unfolding serve_loop
    serve_loop-Answers zero n s h = absurd (omega arith)
    serve_loop-Answers (suc fuel) n s h = elim (Bool-cases (conn.context_done s)) [
      | inl over ↦ rw (over, serve_loop) (signalled n s over)
      | inr alive ↦
          rw (alive, serve_loop)
            (serve_read-Answers fuel n s alive h (serve_loop-Answers fuel) (conn.read s).0
              (conn.read s).1 refl)
    ]

    -- In a world where a signal or the closing of the socket comes after finitely many reads, the loop
    -- ends by it: every packet in front of that is answered by the network, and each of its replies
    -- is written to where the packet came from, at once if it has no delay, else behind its delay;
    -- timeouts and failed reads are passed over. A network with the invariant keeps it.
    pub serve-Answers :
        (n : Network) (s : S)
        → IsNetwork n
        → Answers n s (serve conn ending n s).0 (serve conn ending n s).1
          × IsNetwork (serve conn ending n s).0
    unfolding serve
    serve-Answers n s h =
        let a = serve_loop-Answers (suc (ending.rounds s)) n s (omega arith) in
        (a, Answers-IsNetwork n _ s _ a h)
