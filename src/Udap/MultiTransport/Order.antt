-- ===== src/Udap/MultiTransport/Order.antt =====
-- No packet is invented, doubled or reordered on its way from a child to the caller.
use mathlib.Core.Path.{subst}
use go_udap.Prelude.{
  ℕ, ◌≤◌, ◌≡◌, refl, sym, ap, ◌∙◌, true, false, Bool-cases, ==_iff, List, [], ◌∷◌, ◌++◌, append-nil,
  append_assoc, ◌==◌, if◌then◌else◌, length, length-append, inl, inr, arith,
}
use go_udap.Udap.Transport.{Transport}
use go_udap.Udap.MultiTransport.{
  MultiTransportRecv, Pump, waiting, holding, exited, Child, MultiTransport, channel_size,
  new_multi_transport, set_child, Event, received, forwarded, delivered, silent, Step, spawn,
  pump_recv, pump_fail, pump_forward, pump_stop, take_merged, close, Run, begins, steps,
}

-- The packets that a run received from a child, that the child's pump forwarded, that all pumps
-- forwarded, and that the caller got; in the order of time.
abbrev received_from : ℕ → List Event → List MultiTransportRecv
received_from i [] = []
received_from i (received j r ∷ es) =
    if i == j then received_from i es ++ r ∷ [] else received_from i es
received_from i (forwarded j r ∷ es) = received_from i es
received_from i (delivered r ∷ es) = received_from i es
received_from i (silent ∷ es) = received_from i es

abbrev forwarded_from : ℕ → List Event → List MultiTransportRecv
forwarded_from i [] = []
forwarded_from i (received j r ∷ es) = forwarded_from i es
forwarded_from i (forwarded j r ∷ es) =
    if i == j then forwarded_from i es ++ r ∷ [] else forwarded_from i es
forwarded_from i (delivered r ∷ es) = forwarded_from i es
forwarded_from i (silent ∷ es) = forwarded_from i es

abbrev all_forwarded : List Event → List MultiTransportRecv
all_forwarded [] = []
all_forwarded (received j r ∷ es) = all_forwarded es
all_forwarded (forwarded j r ∷ es) = all_forwarded es ++ r ∷ []
all_forwarded (delivered r ∷ es) = all_forwarded es
all_forwarded (silent ∷ es) = all_forwarded es

abbrev all_delivered : List Event → List MultiTransportRecv
all_delivered [] = []
all_delivered (received j r ∷ es) = all_delivered es
all_delivered (forwarded j r ∷ es) = all_delivered es
all_delivered (delivered r ∷ es) = all_delivered es ++ r ∷ []
all_delivered (silent ∷ es) = all_delivered es

-- How far a pump is behind its child: the packet that it holds, or that it held when it was stopped.
abbrev IsBehind : Pump → List MultiTransportRecv → List MultiTransportRecv → Type 0
IsBehind waiting f r = r ≡ f
IsBehind (holding p) f r = r ≡ f ++ p ∷ []
IsBehind exited f r = (lost : List MultiTransportRecv) × (length lost ≤ 1) × (r ≡ f ++ lost)

index_self : (i : ℕ) → (i == i) ≡ true
index_self i = (==_iff i i).1 refl

at_pump : (p q : Pump) (f r : List MultiTransportRecv) → p ≡ q → IsBehind p f r → IsBehind q f r
at_pump p q f r e h = subst (λ x. IsBehind x f r) e h

module _ {S : Type 0} where
  -- The channel holds what is forwarded and not yet delivered, and never overflows; every pump has
  -- forwarded what its child received, in order, but for one packet at most.
  pub record IsOrdered (es : List Event) (m : MultiTransport S) : Type 0 where
    pub channel : all_forwarded es ≡ all_delivered es ++ m.merged
    pub bounded : length m.merged ≤ channel_size
    pub pumps : (i : ℕ) → IsBehind (m.children i).pump (forwarded_from i es) (received_from i es)

  -- A change of one child.
  set_child-IsBehind :
      (i : ℕ) (child : Child S) (m : MultiTransport S) (f r : ℕ → List MultiTransportRecv)
      → IsBehind child.pump (f i) (r i)
      → ((j : ℕ) → (j == i) ≡ false → IsBehind (m.children j).pump (f j) (r j))
      → (j : ℕ) → IsBehind ((set_child i child m).children j).pump (f j) (r j)
  unfolding set_child
  set_child-IsBehind i child m f r here others j = elim (Bool-cases (j == i)) [
    | inl same ↦
        rw same (subst (λ k. IsBehind child.pump (f k) (r k)) (sym ((==_iff j i).0 same)) here)
    | inr other ↦ rw other (others j other)
  ]

module _ {S : Type 0} (t : Transport S) where
  -- Every step keeps the order.
  IsOrdered-Step :
      (es : List Event) (e : Event) (m m' : MultiTransport S)
      → Step t m e m'
      → IsOrdered es m
      → IsOrdered (e ∷ es) m'
  unfolding set_child
  IsOrdered-Step es _ m _ (spawn _) h = record {
    channel = h.channel;
    bounded = h.bounded;
    pumps = h.pumps;
  }
  IsOrdered-Step es _ m _ (close _) h = record {
    channel = h.channel;
    bounded = h.bounded;
    pumps = h.pumps;
  }
  IsOrdered-Step es _ m _ (take_merged r rest _ q) h = record {
    channel =
        h.channel
        ∙ ap (λ xs. all_delivered es ++ xs) q
        ∙ sym (append_assoc (all_delivered es) (r ∷ []) rest);
    bounded = let b = h.bounded in omega (arith, b, ap length q);
    pumps = h.pumps;
  }
  IsOrdered-Step es _ m _ (pump_recv i pkt src s _ _ idle _) h =
      let r : MultiTransportRecv = record { pkt = pkt; src = src } in
      record {
        channel = h.channel;
        bounded = h.bounded;
        pumps =
            set_child-IsBehind i (record { transport = s; pump = holding r }) m
              (λ j. forwarded_from j es) (λ j. received_from j (received i r ∷ es))
              (rw (index_self i) (
                ap (λ xs. xs ++ r ∷ [])
                  (at_pump _ _ (forwarded_from i es) (received_from i es) idle (h.pumps i))))
              (λ j other. rw other (h.pumps j));
      }
  IsOrdered-Step es _ m _ (pump_fail i e s _ _ idle _) h = record {
    channel = h.channel;
    bounded = h.bounded;
    pumps =
        set_child-IsBehind i (record { transport = s; pump = exited }) m (λ j. forwarded_from j es)
          (λ j. received_from j es)
          (
            [],
            omega arith,
            at_pump _ _ (forwarded_from i es) (received_from i es) idle (h.pumps i)
                ∙ sym (append-nil (forwarded_from i es)),
          )
          (λ j other. h.pumps j);
  }
  IsOrdered-Step es _ m _ (pump_stop i r _ held) h = record {
    channel = h.channel;
    bounded = h.bounded;
    pumps =
        set_child-IsBehind i (record { transport = (m.children i).transport; pump = exited }) m
          (λ j. forwarded_from j es) (λ j. received_from j es)
          (
            r ∷ [],
            omega arith,
            at_pump _ _ (forwarded_from i es) (received_from i es) held (h.pumps i),
          )
          (λ j other. h.pumps j);
  }
  IsOrdered-Step es _ m _ (pump_forward i r held room) h = record {
    channel = ap (λ xs. xs ++ r ∷ []) h.channel ∙ append_assoc (all_delivered es) m.merged (r ∷ []);
    bounded = omega (arith, length-append m.merged (r ∷ []), room);
    pumps =
        set_child-IsBehind i (record { transport = (m.children i).transport; pump = waiting })
          (record m { merged = m.merged ++ r ∷ [] }) (λ j. forwarded_from j (forwarded i r ∷ es))
          (λ j. received_from j es)
          (rw (index_self i)
            (at_pump _ _ (forwarded_from i es) (received_from i es) held (h.pumps i)))
          (λ j other. rw other (h.pumps j));
  }

  -- In every run of a new fan-out transport, whatever its goroutines interleave to: what the pumps
  -- forwarded is what the caller got and then what stands in the channel, which holds 32 packets at
  -- most; and every pump forwarded what its child received, in that order, but for the packet that it
  -- holds, or that it held when it was stopped.
  pub Run-IsOrdered :
      (transports : ℕ → S) (count : ℕ) (es : List Event) (m : MultiTransport S)
      → Run t transports count es m
      → IsOrdered es m
  unfolding new_multi_transport
  Run-IsOrdered transports count _ _ begins = record {
    channel = refl;
    bounded = omega arith;
    pumps = λ i. refl;
  }
  Run-IsOrdered transports count _ _ (steps es m m' e run step) =
      IsOrdered-Step es e m m' step (Run-IsOrdered transports count es m run)
