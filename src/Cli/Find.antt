-- ===== src/Cli/Find.antt =====
-- cli/find.go: `discoverAndFind`, a discovery in a goroutine of its own and a loop that polls for the
-- device. What the two goroutines interleave to is a schedule.
pub mod Ends
pub mod Exits
use go_udap.Prelude.{
  ℕ, zero, suc, Bool, true, false, ◌&&◌, Option, none, some, if◌then◌else◌, Result, ok, err,
}
use go_udap.Prelude.Bytes.{Bytes}
use go_udap.Udap.Transport.{Transport, Received, packet, failed}
use go_udap.Udap.Client.{Client, get_device}
use go_udap.Udap.Client.Packets.{create_advanced_discovery_packet}
use go_udap.Udap.Operations.{OpError, out_of_fuel, discovery_end, handle_discovery_reply, transmit}
use go_udap.Cli.Errors.{CommandError, ExitError, failure, discovery_failed, not_found}

pub record Schedule : Type 0 where
  -- whether the loop polls when so many packets are handled
  pub polls : ℕ → Bool
  -- how many packets discovery still handles when it is cancelled
  pub late : ℕ
  -- whether the caller's context is done when discovery has ended
  pub expired : Bool

-- The error without a device, by how discovery ended.
unfoldable pub no_device : Bytes → Bool → Result OpError (Unit {0}) → CommandError
no_device mac expired (ok u) = not_found mac
no_device mac expired (err e) = if expired then not_found mac else discovery_failed e

abbrev found_or : CommandError → Option ℕ → Result ExitError ℕ
found_or e none = err (failure e)
found_or e (some a) = ok a

-- A poll of the loop.
abbrev polled : Bool → Option ℕ → Option ℕ
polled true o = o
polled false o = none

module _ {S : Type 0} where
  -- The case in which discovery is done: a last look for the device.
  unfoldable pub look_again :
      Bytes → Bool → Result OpError (Unit {0}) × Client S → Result ExitError ℕ × Client S
  unfolding no_device
  look_again mac expired (out, c) = (found_or (no_device mac expired out) (get_device mac c), c)

  pub drain_round : (Client S → Client S) → ℕ → Received → Client S → Client S
  drain_round again now (failed e) c = c
  drain_round again now (packet reply src) c = again (handle_discovery_reply reply src now c)

  pub find_round :
      (Client S → Result ExitError ℕ × Client S)
      → Bytes
      → Bool
      → ℕ
      → Received
      → Client S
      → Result ExitError ℕ × Client S
  find_round again mac expired now (failed e) c = look_again mac expired (discovery_end e, c)
  find_round again mac expired now (packet reply src) c =
      again (handle_discovery_reply reply src now c)

module _ {S : Type 0} (t : Transport S) (sched : Schedule) (mac : Bytes) where
  -- `<-discoverDone` behind the cancellation.
  pub drain : ℕ → Client S → Client S
  drain zero c = c
  drain (suc n) c =
      let (received, s) = t.recv c.transport in
      drain_round (drain n) (t.clock s) received (record c { transport = s })

  -- One round: a device that is found cancels discovery; else the loop waits.
  pub find_step :
      (Client S → Result ExitError ℕ × Client S)
      → Option ℕ
      → Client S
      → Result ExitError ℕ × Client S
  find_step wait (some a) c = (ok a, drain sched.late c)
  find_step wait none c = wait c

  -- The loop when `seen` packets are handled, on fuel.
  pub find_loop : ℕ → ℕ → Client S → Result ExitError ℕ × Client S
  find_loop zero seen c = look_again mac sched.expired (err out_of_fuel, c)
  find_loop (suc fuel) seen c =
      let (received, s) = t.recv c.transport in
      find_step
        (λ (c' : Client S).
          find_round (find_loop fuel (suc seen)) mac sched.expired (t.clock s) received
            (record c' { transport = s }))
        (polled (sched.polls seen) (get_device mac c)) c

  -- When the request is sent, or not.
  pub find_sent : Result OpError (Unit {0}) × Client S → Result ExitError ℕ × Client S
  find_sent (err e, c) = look_again mac sched.expired (err e, c)
  find_sent (ok u, c) = find_loop (suc (t.backlog c.transport)) 0 c

  pub cancel_sent : Result OpError (Unit {0}) × Client S → Client S
  cancel_sent (err e, c) = c
  cancel_sent (ok u, c) = drain sched.late c

  pub look_first : Option ℕ → Result OpError (Unit {0}) × Client S → Result ExitError ℕ × Client S
  look_first (some a) sent = (ok a, cancel_sent sent)
  look_first none sent = find_sent sent

  -- `discoverAndFind`: the first look is in front of everything that discovery does.
  unfoldable pub discover_and_find : Client S → Result ExitError ℕ × Client S
  unfolding drain drain_round find_loop find_step find_round look_again find_sent cancel_sent
      look_first
  discover_and_find c =
      let (bytes, seq) = create_advanced_discovery_packet c.sequence in
      look_first (get_device mac c) (transmit t bytes (record c { sequence = seq }))
