-- ===== src/Udap/Operations/Frame.antt =====
-- A request changes nothing of the client but the sequence counter and the transport.
use go_udap.Prelude.{ℕ, ◌≡◌, refl, ◌∙◌, Option, none, some, Result, ok, err}
use go_udap.Prelude.Bytes.{Bytes}
use go_udap.Udap.Discovery.{Device}
use go_udap.Udap.Transport.{Transport, SendError}
use go_udap.Udap.Client.{Client, send_retried}
use go_udap.Udap.Client.Packets.{Built}
use go_udap.Udap.Actions.{built, sent}
use go_udap.Udap.Operations.{
  Op, OpError, continue, build, transmit, device_at, wait_for_device_reply, round_trip,
}

module _ {S : Type 0} where
  pub record Frame (c c' : Client S) : Type 0 where
    pub devices : c'.devices ≡ c.devices
    pub heap : c'.heap ≡ c.heap
    pub next : c'.next ≡ c.next
    pub retries : c'.retries ≡ c.retries

  pub Frame-refl : (c : Client S) → Frame c c
  Frame-refl c = record { devices = refl; heap = refl; next = refl; retries = refl }

  pub Frame-trans : {c c' c'' : Client S} → Frame c c' → Frame c' c'' → Frame c c''
  Frame-trans f g = record {
    devices = g.devices ∙ f.devices;
    heap = g.heap ∙ f.heap;
    next = g.next ∙ f.next;
    retries = g.retries ∙ f.retries;
  }

  built-Frame : (c : Client S) (b : Built) → Frame c (built c b).1
  built-Frame c (ok bytes, seq) = record {
    devices = refl;
    heap = refl;
    next = refl;
    retries = refl;
  }
  built-Frame c (err e, seq) = record { devices = refl; heap = refl; next = refl; retries = refl }

  continue-Frame :
      {A B : Type 0} (c : Client S) (f : A → Op S B) (r : Result OpError A × Client S)
      → Frame c r.1
      → ((a : A) (c' : Client S) → Frame c' (f a c').1)
      → Frame c (continue f r).1
  continue-Frame c f (ok a, c') g k = Frame-trans g (k a c')
  continue-Frame c f (err e, c') g k = g

module _ {S : Type 0} (t : Transport S) where
  sent-Frame : (c : Client S) (r : Option SendError × Client S) → Frame c r.1 → Frame c (sent r).1
  sent-Frame c (none, c') f = f
  sent-Frame c (some e, c') f = f

  pub transmit-Frame : (bytes : Bytes) (c : Client S) → Frame c (transmit t bytes c).1
  unfolding transmit send_retried
  transmit-Frame bytes c =
      sent-Frame c (send_retried t bytes c)
        (record { devices = refl; heap = refl; next = refl; retries = refl })

  wait-Frame : (a : ℕ) (c : Client S) → Frame c (wait_for_device_reply t a c).1
  unfolding wait_for_device_reply
  wait-Frame a c = record { devices = refl; heap = refl; next = refl; retries = refl }

  -- Whether it succeeds or fails, a request leaves every device, the registry and the retry count
  -- as they were.
  pub round_trip-Frame :
      (make : Device → ℕ → Built) (a : ℕ) (c : Client S) → Frame c (round_trip t make a c).1
  unfolding round_trip device_at build
  round_trip-Frame make a c =
      continue-Frame c _ (built c (make (c.heap a) c.sequence))
        (built-Frame c (make (c.heap a) c.sequence))
        (λ bytes c1.
          continue-Frame c1 _ (transmit t bytes c1) (transmit-Frame bytes c1)
            (λ _ c2. wait-Frame a c2))
