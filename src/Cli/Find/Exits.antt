-- ===== src/Cli/Find/Exits.antt =====
-- The exit codes of the search for a device.
use go_udap.Prelude.{
  ℕ, zero, suc, refl, Bool, Option, none, some, Option-cases, Result, ok, err, inl, inr,
}
use go_udap.Prelude.Bytes.{Bytes}
use go_udap.Udap.Transport.{Transport, Received, packet, failed}
use go_udap.Udap.Client.{Client, get_device}
use go_udap.Udap.Operations.{OpError, transmit, handle_discovery_reply, discovery_end}
use go_udap.Udap.Client.Packets.{create_advanced_discovery_packet}
use go_udap.Cli.Errors.{ExitError, IsRun}
use go_udap.Cli.Find.{
  Schedule, look_again, find_round, find_step, find_loop, find_sent, look_first, discover_and_find,
}

module _ {S : Type 0} where
  look_again-IsRun :
      (mac : Bytes) (expired : Bool) (r : Result OpError (Unit {0}) × Client S)
      → IsRun (look_again mac expired r).0
  unfolding look_again
  look_again-IsRun mac expired (out, c) = elim (Option-cases (get_device mac c)) [
    | inl nothing ↦ rw nothing refl
    | inr (a, found) ↦ rw found tt
  ]

module _ {S : Type 0} (t : Transport S) (sched : Schedule) (mac : Bytes) where
  find_round-IsRun :
      (again : Client S → Result ExitError ℕ × Client S)
      → ((c : Client S) → IsRun (again c).0)
      → (now : ℕ) (received : Received) (c : Client S)
      → IsRun (find_round again mac sched.expired now received c).0
  unfolding find_round
  find_round-IsRun again h now (failed e) c =
      look_again-IsRun mac sched.expired (discovery_end e, c)
  find_round-IsRun again h now (packet reply src) c = h (handle_discovery_reply reply src now c)

  find_step-IsRun :
      (wait : Client S → Result ExitError ℕ × Client S) (o : Option ℕ) (c : Client S)
      → IsRun (wait c).0
      → IsRun (find_step t sched mac wait o c).0
  unfolding find_step
  find_step-IsRun wait none c h = h
  find_step-IsRun wait (some a) c h = tt

  find_loop-IsRun : (fuel seen : ℕ) (c : Client S) → IsRun (find_loop t sched mac fuel seen c).0
  unfolding find_loop
  find_loop-IsRun zero seen c = look_again-IsRun mac sched.expired (_, c)
  find_loop-IsRun (suc fuel) seen c =
      let (received, s) = t.recv c.transport in
      find_step-IsRun _ _ c (
        find_round-IsRun (find_loop t sched mac fuel (suc seen)) (find_loop-IsRun fuel (suc seen))
          (t.clock s) received (record c { transport = s }))

  find_sent-IsRun : (r : Result OpError (Unit {0}) × Client S) → IsRun (find_sent t sched mac r).0
  unfolding find_sent
  find_sent-IsRun (err e, c) = look_again-IsRun mac sched.expired (err e, c)
  find_sent-IsRun (ok u, c) = find_loop-IsRun _ 0 c

  look_first-IsRun :
      (o : Option ℕ) (r : Result OpError (Unit {0}) × Client S)
      → IsRun (look_first t sched mac o r).0
  unfolding look_first
  look_first-IsRun none r = find_sent-IsRun r
  look_first-IsRun (some a) r = tt

  -- The search fails with the exit code 1.
  pub discover_and_find-IsRun : (c : Client S) → IsRun (discover_and_find t sched mac c).0
  unfolding discover_and_find
  discover_and_find-IsRun c =
      let (bytes, seq) = create_advanced_discovery_packet c.sequence in
      look_first-IsRun (get_device mac c) (transmit t bytes (record c { sequence = seq }))
