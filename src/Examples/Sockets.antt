-- ===== src/Examples/Sockets.antt =====
-- A socket that gives the events of a list, and then a context that is done.
use go_udap.Prelude.{◌<◌, ◌≡◌, List, [], ◌∷◌, Option, none, some, length, arith}
use go_udap.Prelude.Bytes.{codes}
use go_udap.Udap.Transport.{RecvError, deadline_exceeded}
use go_udap.Udap.UdpTransport.{Read, datagram, timeout, Socket, Ending, udp_recv}
use go_udap.Udap.UdpTransport.Replies.{Receives, udp_recv-Receives}

abbrev read_event : List Read → Read × List Read
read_event [] = (timeout, [])
read_event (r ∷ rs) = (r, rs)

abbrev event_context : List Read → Option RecvError
event_context [] = some deadline_exceeded
event_context (r ∷ rs) = none

event_rounds : (s : List Read) → event_context s ≡ none → length (read_event s).1 < length s
event_rounds [] h = absurd (ground arith)
event_rounds (r ∷ rs) h = omega arith

abbrev socket : Socket (List Read)
socket = record {
  write = λ bytes s. (none, s);
  read = read_event;
  context_error = event_context;
  clock = length;
}

abbrev ending : Ending socket
ending = record { rounds = length; read_rounds = event_rounds }

abbrev events : List Read
events = timeout ∷ datagram (1 ∷ 2 ∷ []) (codes "10.0.0.2") ∷ []

udp_recv-Receives_example :
    Receives socket events (udp_recv socket ending events).0 (udp_recv socket ending events).1
udp_recv-Receives_example = udp_recv-Receives socket ending events
