-- ===== src/Examples/Serving.antt =====
-- A run of the simulator on a socket that gives the events of a list, and is then closed.
use go_udap.Prelude.{
  ◌==◌, ◌<◌, ◌≡◌, refl, Bool, false, List, [], ◌∷◌, ℕ, Option, none, Result, ok, length, arith,
}
use go_udap.Prelude.Bytes.{Bytes, codes}
use go_udap.Udap.Client.Packets.{create_discovery_packet}
use go_udap.Mocksbr.Network.{new_network}
use go_udap.Mocksbr.Network.Members.{IsNetwork}
use go_udap.Mocksbr.Network.Fresh.{IsNetwork-new_network}
use go_udap.Cmd.Flags.{parse_device_flags, parse_specs, apply_overrides}
use go_udap.Cmd.Serve.{Read, datagram, timeout, net_closed, read_error, Conn, Ending, serve}
use go_udap.Cmd.Serve.Answers.{Answers, serve-Answers}
use go_udap.Cmd.Run.{
  Options, flags, run, run_flags, network_of, listen_and_serve, served, exit_status,
}
use go_udap.Cmd.Run.Members.{HasRun, code_of, run-HasRun}

-- The events that are left, and what was written, the latest first.
abbrev World : Type 0
World = List Read × List Bytes

abbrev next_event : World → Read × World
next_event ([], out) = (net_closed, ([], out))
next_event (r ∷ rs, out) = (r, (rs, out))

-- A closed socket at the end takes up a round.
abbrev is_over : World → Bool
is_over (rs, out) = length rs == 0

event_rounds : (s : World) → is_over s ≡ false → length (next_event s).1.0 < length s.0
event_rounds ([], out) h = absurd (ground arith)
event_rounds (r ∷ rs, out) h = omega arith

abbrev conn : Conn World
conn = record {
  context_done = is_over;
  read = next_event;
  write_to = λ bytes src s. (s.0, bytes ∷ s.1);
  write_after = λ delay bytes src s. (s.0, bytes ∷ s.1);
  clock = λ s. length s.0;
}

abbrev ending : Ending conn
ending = record {
  rounds = λ s. length s.0;
  read_rounds = event_rounds;
  write_rounds = λ bytes src s. omega arith;
  after_rounds = λ delay bytes src s. omega arith;
}

abbrev discovery : Bytes
discovery = (create_discovery_packet 1).0

abbrev bound : World
bound = (
  timeout
      ∷ datagram discovery (codes "10.0.0.9:17784")
      ∷ read_error 5
      ∷ datagram (1 ∷ 2 ∷ []) (codes "10.0.0.9:17784")
      ∷ net_closed
      ∷ [],
  [],
)

serve-Answers_example :
    Answers conn
      (new_network 2)
      bound
      (serve conn ending (new_network 2) bound).0
      (serve conn ending (new_network 2) bound).1
    × IsNetwork (serve conn ending (new_network 2) bound).0
serve-Answers_example =
    serve-Answers conn ending (new_network 2) bound (IsNetwork-new_network 2 (omega arith))

abbrev no_duration : Bytes → Option (Bool × ℕ)
no_duration s = none

abbrev options : Options
options = record {
  negative = false;
  devices = 2;
  listen = codes "0.0.0.0:17784";
  show_version = false;
  show_help = false;
  device = [];
}

abbrev resolved : Bytes → Result ℕ Bytes
resolved s = ok s

abbrev bound_to : Bytes → Result ℕ World
bound_to addr = ok bound

run-HasRun_example :
    HasRun conn ending no_duration resolved bound_to options
      (run conn ending no_duration resolved bound_to (flags options))
    × (exit_status (run conn ending no_duration resolved bound_to (flags options))
        ≡ code_of conn ending no_duration resolved bound_to
            (run conn ending no_duration resolved bound_to (flags options)))
run-HasRun_example = run-HasRun conn ending no_duration resolved bound_to options (omega arith)

-- The run with these flags serves.
runs :
    run conn ending no_duration resolved bound_to (flags options)
    ≡ ok (served (serve conn ending (new_network 2) bound))
unfolding run run_flags network_of listen_and_serve parse_device_flags parse_specs apply_overrides
runs = refl
