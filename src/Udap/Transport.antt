-- ===== src/Udap/Transport.antt =====
-- udap/transport.go: the port underneath the client. An implementation gives the operations on its
-- state, the time, and a bound on the packets that arrive before the caller's context is done.
use go_udap.Prelude.{ℕ, ◌<◌, ◌≡◌, Option}
use go_udap.Prelude.Bytes.{Bytes}

pub data SendError : Type 0 where
  send_error : ℕ → SendError

pub data RecvError : Type 0 where
  deadline_exceeded : RecvError
  canceled : RecvError
  transport_error : ℕ → RecvError

-- What a call of `Recv` returns: a packet with its source, or an error.
pub data Received : Type 0 where
  packet : Bytes → Bytes → Received
  failed : RecvError → Received

pub record Transport (S : Type 0) : Type 0 where
  pub send : Bytes → S → Option SendError × S
  pub recv : S → Received × S
  pub clock : S → ℕ
  pub backlog : S → ℕ
  pub recv_backlog :
      (s : S) (bytes src : Bytes) (s' : S)
      → recv s ≡ (packet bytes src, s')
      → backlog s' < backlog s
