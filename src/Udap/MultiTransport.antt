-- ===== src/Udap/MultiTransport.antt =====
-- udap/multi_transport.go: the fan-out transport. A send goes to every child. One goroutine per child,
-- its pump, moves the child's packets into a bounded channel; what the goroutines do, in any
-- interleaving, is a step relation.
pub mod Order
use go_udap.Prelude.{
  ℕ, zero, suc, ◌+◌, ◌<◌, ◌≡◌, Bool, true, false, List, [], ◌∷◌, ◌++◌, Option, none, some, ◌==◌,
  if◌then◌else◌, length,
}
use go_udap.Prelude.Bytes.{Bytes}
use go_udap.Udap.Transport.{Transport, SendError, RecvError, packet, failed}

-- `multiTransportRecv`; its `err` is never set.
pub record MultiTransportRecv : Type 0 where
  pub pkt : Bytes
  pub src : Bytes

-- Where a pump stands: at the child's `Recv`, at the channel with a packet, or behind its return.
pub data Pump : Type 0 where
  waiting : Pump
  holding : MultiTransportRecv → Pump
  exited : Pump

pub record Child (S : Type 0) : Type 0 where
  pub transport : S
  pub pump : Pump

-- `MultiTransport`: the children, by their index, the channel `merged`, whether the pumps are spawned,
-- and whether `stop` is closed.
pub record MultiTransport (S : Type 0) : Type 0 where
  pub children : ℕ → Child S
  pub count : ℕ
  pub merged : List MultiTransportRecv
  pub started : Bool
  pub stopped : Bool

abbrev pub channel_size : ℕ
channel_size = 32

-- `NewMultiTransport`
unfoldable pub new_multi_transport : {S : Type 0} → (ℕ → S) → ℕ → MultiTransport S
new_multi_transport transports count = record {
  children = λ i. record { transport = transports i; pump = waiting };
  count = count;
  merged = [];
  started = false;
  stopped = false;
}

module _ {S : Type 0} where
  unfoldable pub set_child : ℕ → Child S → MultiTransport S → MultiTransport S
  set_child i child m = record m { children = λ j. if j == i then child else m.children j }

abbrev note_failure : Option SendError → List SendError → List SendError
note_failure none failures = failures
note_failure (some e) failures = failures ++ e ∷ []

abbrev count_success : Option SendError → ℕ → ℕ
count_success none n = n + 1
count_success (some e) n = n

-- What a run does, as its observer sees it.
pub data Event : Type 0 where
  received : ℕ → MultiTransportRecv → Event
  forwarded : ℕ → MultiTransportRecv → Event
  delivered : MultiTransportRecv → Event
  silent : Event

module _ {S : Type 0} (t : Transport S) where
  -- The loop of `Send`: the failures, the number of successes, and the children.
  pub send_children : Bytes → List S → List SendError → ℕ → List SendError × ℕ × List S
  send_children bytes [] failures successes = (failures, successes, [])
  send_children bytes (s ∷ ss) failures successes =
      let (e, s') = t.send bytes s in
      let (failures', successes', ss') =
        send_children bytes ss (note_failure e failures) (count_success e successes) in
      (failures', successes', s' ∷ ss')

  -- `Send`: the failures of the children, if all of them fail.
  unfoldable pub multi_send : Bytes → List S → Option (List SendError) × List S
  unfolding send_children
  multi_send bytes ss =
      let (failures, successes, ss') = send_children bytes ss [] 0 in
      (if successes == 0 then some failures else none, ss')

  -- One step of a goroutine, or of the caller.
  pub data Step (m : MultiTransport S) : Event → MultiTransport S → Type 0 where
    -- `spawnPumps`, at the first `Recv`
    spawn : m.started ≡ false → Step m silent (record m { started = true })
    pump_recv :
        (i : ℕ) (pkt src : Bytes) (s : S)
        → m.started ≡ true
        → i < m.count
        → (m.children i).pump ≡ waiting
        → t.recv (m.children i).transport ≡ (packet pkt src, s)
        → Step m (received i (record { pkt = pkt; src = src })) (
            set_child i
              (record { transport = s; pump = holding (record { pkt = pkt; src = src }) })
              m)
    pump_fail :
        (i : ℕ) (e : RecvError) (s : S)
        → m.started ≡ true
        → i < m.count
        → (m.children i).pump ≡ waiting
        → t.recv (m.children i).transport ≡ (failed e, s)
        → Step m silent (set_child i (record { transport = s; pump = exited }) m)
    pump_forward :
        (i : ℕ) (r : MultiTransportRecv)
        → (m.children i).pump ≡ holding r
        → length m.merged < channel_size
        → Step m (forwarded i r) (
            set_child i
              (record { transport = (m.children i).transport; pump = waiting })
              (record m { merged = m.merged ++ r ∷ [] }))
    pump_stop :
        (i : ℕ) (r : MultiTransportRecv)
        → m.stopped ≡ true
        → (m.children i).pump ≡ holding r
        → Step m silent
            (set_child i (record { transport = (m.children i).transport; pump = exited }) m)
    -- `Recv` takes a packet
    take_merged :
        (r : MultiTransportRecv) (rest : List MultiTransportRecv)
        → m.started ≡ true
        → m.merged ≡ r ∷ rest
        → Step m (delivered r) (record m { merged = rest })
    -- `Close`
    close : m.stopped ≡ false → Step m silent (record m { stopped = true })

  -- A run from a new transport, with the latest event first.
  pub data Run (transports : ℕ → S) (count : ℕ) : List Event → MultiTransport S → Type 0 where
    begins : Run transports count [] (new_multi_transport transports count)
    steps :
        (es : List Event) (m m' : MultiTransport S) (e : Event)
        → Run transports count es m
        → Step m e m'
        → Run transports count (e ∷ es) m'
