-- ===== src/Examples/FanOut.antt =====
-- A run of the fan-out transport over two in-process transports.
use go_udap.Prelude.{ℕ, refl, true, List, [], ◌∷◌, arith}
use go_udap.Prelude.Bytes.{codes}
use go_udap.Udap.MultiTransport.{
  MultiTransportRecv, MultiTransport, new_multi_transport, set_child, Event, received, forwarded,
  delivered, silent, Step, spawn, pump_recv, pump_forward, take_merged, Run, begins, steps, holding,
  waiting,
}
use go_udap.Udap.MultiTransport.Order.{IsOrdered, Run-IsOrdered}
use go_udap.Mocksbr.Network.{empty_network}
use go_udap.Mocksbr.Transport.{
  MockTransport, new_mock_transport, inject_reply, enqueue, mock_port, mock_recv,
}

-- A packet waits at every child.
abbrev transports : ℕ → MockTransport
transports i = inject_reply (1 ∷ 2 ∷ []) (codes "10.0.0.2") (new_mock_transport empty_network 0 500)

abbrev fresh : MultiTransport MockTransport
fresh = new_multi_transport transports 2

abbrev spawned : MultiTransport MockTransport
spawned = record fresh { started = true }

abbrev reply : MultiTransportRecv
reply = record { pkt = 1 ∷ 2 ∷ []; src = codes "10.0.0.2" }

abbrev behind : MockTransport
behind = (mock_recv (transports 1)).1

abbrev held : MultiTransport MockTransport
held = set_child 1 (record { transport = behind; pump = holding reply }) spawned

abbrev sent : MultiTransport MockTransport
sent =
    set_child 1 (record { transport = (held.children 1).transport; pump = waiting })
      (record held { merged = reply ∷ [] })

abbrev taken : MultiTransport MockTransport
taken = record sent { merged = [] }

first-Step : Step mock_port fresh silent spawned
unfolding new_multi_transport
first-Step = spawn refl

second-Step : Step mock_port spawned (received 1 reply) held
unfolding new_multi_transport set_child inject_reply enqueue mock_recv new_mock_transport
second-Step = pump_recv 1 (1 ∷ 2 ∷ []) (codes "10.0.0.2") behind refl (omega arith) refl refl

third-Step : Step mock_port held (forwarded 1 reply) sent
unfolding new_multi_transport set_child
third-Step = pump_forward 1 reply refl (omega arith)

last-Step : Step mock_port sent (delivered reply) taken
unfolding new_multi_transport set_child
last-Step = take_merged reply [] refl refl

abbrev trace : List Event
trace = delivered reply ∷ forwarded 1 reply ∷ received 1 reply ∷ silent ∷ []

run : Run mock_port transports 2 trace taken
run =
    steps _ _ _ _
      (steps _ _ _ _ (steps _ _ _ _ (steps _ _ _ _ begins first-Step) second-Step) third-Step)
      last-Step

Run-IsOrdered_example : IsOrdered trace taken
Run-IsOrdered_example = Run-IsOrdered mock_port transports 2 trace taken run
