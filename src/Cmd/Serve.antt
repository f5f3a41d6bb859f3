-- ===== src/Cmd/Serve.antt =====
-- cmd/mocksbr/main.go: the loop that answers packets. The socket, the clock and the signals that end
-- the loop are a parameter.
pub mod Answers
use go_udap.Prelude.{
  ℕ, zero, suc, ◌<◌, ◌≤◌, ◌≡◌, Bool, true, false, List, [], ◌∷◌, ◌==◌, ◌+◌, Option, none, some, ltb,
  if◌then◌else◌,
}
use go_udap.Prelude.Bytes.{Bytes}
use go_udap.Mocksbr.Network.{Network}
use go_udap.Mocksbr.Handlers.{ScheduledReply, receive_scheduled}

-- What `ReadFromUDP` gives until its deadline.
pub data Read : Type 0 where
  datagram : Bytes → Bytes → Read
  timeout : Read
  net_closed : Read
  read_error : ℕ → Read

-- The socket, the clock and the signals, in the states `S` of the world; a write that fails is only
-- logged.
pub record Conn (S : Type 0) : Type 0 where
  pub context_done : S → Bool
  pub read : S → Read × S
  -- `WriteToUDP` of the bytes to an address, at once or when so much time has passed
  pub write_to : Bytes → Bytes → S → S
  pub write_after : ℕ → Bytes → Bytes → S → S
  pub clock : S → ℕ

-- That a signal, or the closing of the socket, comes after so many reads: the loop has no other end.
-- What is written does not put it off.
pub record Ending {S : Type 0} (conn : Conn S) : Type 0 where
  pub rounds : S → ℕ
  pub read_rounds : (s : S) → conn.context_done s ≡ false → rounds (conn.read s).1 < rounds s
  pub write_rounds : (bytes src : Bytes) (s : S) → rounds (conn.write_to bytes src s) ≤ rounds s
  pub after_rounds :
      (delay : ℕ) (bytes src : Bytes) (s : S)
      → rounds (conn.write_after delay bytes src s) ≤ rounds s

-- `deadlineFromContext`: in 200 ms, unless the context ends before that; times are nanoseconds.
unfoldable deadline_from_context : ℕ → Option ℕ → ℕ
deadline_from_context now none = now + 200_000_000
deadline_from_context now (some ends) =
    if ltb ends (now + 200_000_000) then ends else now + 200_000_000

module _ {S : Type 0} (conn : Conn S) where
  -- `writeReply`
  unfoldable pub write_reply : Bytes → ScheduledReply → S → S
  write_reply src reply s =
      if reply.delay == 0
      then conn.write_to reply.bytes src s
      else conn.write_after reply.delay reply.bytes src s

  unfoldable pub write_replies : Bytes → List ScheduledReply → S → S
  unfolding write_reply
  write_replies src [] s = s
  write_replies src (reply ∷ replies) s = write_replies src replies (write_reply src reply s)

  -- What a read gives the loop: it ends, goes on, or answers a packet and goes on.
  unfoldable pub serve_read : (Network → S → Network × S) → Network → Read × S → Network × S
  unfolding write_replies
  serve_read again n (net_closed, s) = (n, s)
  serve_read again n (timeout, s) = again n s
  serve_read again n (read_error e, s) = again n s
  serve_read again n (datagram bytes src, s) =
      let (replies, n') = receive_scheduled (conn.clock s) bytes n in
      again n' (write_replies src replies s)

  -- The loop of `serve`, on fuel.
  unfoldable pub serve_loop : ℕ → Network → S → Network × S
  unfolding serve_read
  serve_loop zero n s = (n, s)
  serve_loop (suc fuel) n s = elim (conn.context_done s) [
    | true ↦ (n, s)
    | false ↦ serve_read (serve_loop fuel) n (conn.read s)
  ]

  -- `serve`, in a world where it ends.
  unfoldable pub serve : Ending conn → Network → S → Network × S
  unfolding serve_loop
  serve ending n s = serve_loop (suc (ending.rounds s)) n s
