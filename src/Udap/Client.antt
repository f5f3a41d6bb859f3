-- ===== src/Udap/Client.antt =====
-- udap/client.go: the client's state, retransmission, and the device registry. A `*Device` is an
-- address in `heap`, so that the registry and the callers share one device.
pub mod Packets
pub mod Send
pub mod Registry
pub mod Order
pub mod Headers
pub mod Open
use go_udap.Prelude.{
  ℕ, zero, suc, ◌+◌, ◌-◌, ltb, ◌%◌, ◌^◌, ◌≡◌, refl, Option, none, some, ◌==◌, if◌then◌else◌, Result,
  ok, err, Bool, List, [], ◌∷◌, map,
}
use go_udap.Prelude.Bytes.{Bytes}
use go_udap.Prelude.Dict.{Dict, get, put, copy}
use go_udap.Udap.Mac.{mac_string}
use go_udap.Udap.Discovery.{Device}
use go_udap.Udap.Transport.{Transport, SendError}

pub record Client (S : Type 0) : Type 0 where
  pub transport : S
  pub devices : Dict ℕ
  pub heap : ℕ → Device
  pub next : ℕ
  pub sequence : ℕ
  pub retries : ℕ

-- `NewClientWithTransport`; nothing is allocated yet, and `heap` is arbitrary.
unfoldable pub new_client_with_transport : {S : Type 0} → S → (ℕ → Device) → Client S
new_client_with_transport s heap = record {
  transport = s;
  devices = [];
  heap = heap;
  next = 0;
  sequence = 0;
  retries = 0;
}

module _ {S : Type 0} where
  abbrev pub write_device : ℕ → Device → Client S → Client S
  write_device a d c = record c { heap = λ b. if b == a then d else c.heap b }

  -- `recordDevice`: the new device is filed under its MAC, whatever was there before.
  unfoldable pub record_device : Device → Client S → Client S
  record_device d c = record c {
    devices = put (mac_string d.mac) c.next c.devices;
    heap = λ b. if b == c.next then d else c.heap b;
    next = c.next + 1;
  }

  -- `GetDevice`
  unfoldable pub get_device : Bytes → Client S → Option ℕ
  get_device mac c = get mac c.devices

  -- `ListDevices`
  unfoldable pub list_devices : Client S → List ℕ
  list_devices c = map (λ e. e.1) c.devices

module _ {S : Type 0} where
  -- `GetDevices`: a map of its own, with the same addresses.
  unfoldable pub get_devices : Client S → Dict ℕ
  get_devices c = copy [] c.devices

  -- `SetRetries` of a number with its sign; below zero it is none.
  unfoldable pub set_retries : Bool → ℕ → Client S → Client S
  set_retries negative n c = record c { retries = if negative then 0 else n }

-- `math.MaxInt`
abbrev pub max_int : ℕ
max_int = 2 ^ 63 - 1

-- `attempts` of `sendRetried`: the sum wraps to a negative `int`, of which `range` makes no round.
unfoldable pub send_attempts : ℕ → ℕ
send_attempts retries = if ltb retries max_int then retries + 1 else 0

-- `firstErr`
abbrev pub first_error : Option SendError → SendError → SendError
first_error none e = e
first_error (some first) e = first

abbrev count_send : ℕ → Option SendError → ℕ
count_send n none = suc n
count_send n (some e) = n

abbrev note_error : Option SendError → Option SendError → Option SendError
note_error first none = first
note_error none (some e) = some e
note_error (some f) (some e) = some f

module _ {S : Type 0} (t : Transport S) where
  -- The loop of `sendRetried`: the first error, the number of successes, and the transport.
  pub send_loop : ℕ → Bytes → Option SendError → ℕ → S → Option SendError × ℕ × S
  send_loop zero bytes first successes s = (first, successes, s)
  send_loop (suc n) bytes first successes s =
      let (e, s') = t.send bytes s in
      send_loop n bytes (note_error first e) (count_send successes e) s'

  unfoldable pub send_retried : Bytes → Client S → Option SendError × Client S
  unfolding send_loop send_attempts
  send_retried bytes c =
      let (first, successes, s) = send_loop (send_attempts c.retries) bytes none 0 c.transport in
      (if successes == 0 then first else none, record c { transport = s })
