-- ===== src/Cli/NewClient/Sockets.antt =====
-- What the constructors of clients give, and how they fail.
use mathlib.Core.Path.{subst}
use go_udap.Prelude.{
  ℕ, ◌≡◌, refl, sym, Bool-cases, true, false, inl, inr, List, [], ◌∷◌, Option-cases, none, some,
  ◌==◌, length, Result, Result-cases, ok, err, All, arith,
}
use go_udap.Prelude.Bytes.{Bytes, bytes_eq}
use go_udap.Udap.Discovery.{Device}
use go_udap.Udap.Interfaces.{NetInterface, RawInterface, enumerate_interfaces}
use go_udap.Udap.Interfaces.Addresses.{HaveAddresses, enumerate_interfaces-addresses}
use go_udap.Udap.Client.{Client, new_client_with_transport}
use go_udap.Udap.Client.Open.{
  OpenError, resolve_failed, listen_failed, bind_failed, enumerate_failed, no_usable_interfaces,
  no_interface_bound, System, Opened, single, fan_out, port, client_of, fan_out_client,
  new_udp_transport, new_udp_transport_on_interface, new_client_with_port, open_named,
  new_client_for_interface, open_children, new_client_for_all_interfaces,
}
use go_udap.Cli.Root.{has_name}

module _ {T : Type 0} (sys : System T) where
  -- With one interface chosen: a socket that shares the port and is bound to an interface of that
  -- name, or an error of the system; no error that the name is not usable.
  abbrev pub IsNamed :
      Bytes → Result ℕ (List NetInterface) → Result OpenError (Client (Opened T)) → Type 0
  IsNamed name found (ok c) =
      (i : NetInterface) × (t : T) × (bytes_eq i.name name ≡ true)
      × (sys.listen_shared port ≡ ok t)
      × (sys.bind_to_interface t i ≡ none)
      × (c.transport ≡ single t)
  IsNamed name found (err (listen_failed e)) = sys.listen_shared port ≡ err e
  IsNamed name found (err (bind_failed at e)) =
      (i : NetInterface) × (t : T) × (bytes_eq i.name name ≡ true)
      × (at ≡ i.name)
      × (sys.bind_to_interface t i ≡ some e)
  IsNamed name found (err (enumerate_failed e)) = found ≡ err e
  IsNamed name found (err e) = ⊥

  -- With all interfaces chosen: a fan-out over one socket at least, or none could be opened.
  abbrev pub IsEvery : Result ℕ (List NetInterface) → Result OpenError (Client (Opened T)) → Type 0
  IsEvery found (ok c) = (t : T) × (ts : List T) × (c.transport ≡ fan_out (t ∷ ts))
  IsEvery found (err (enumerate_failed e)) = found ≡ err e
  IsEvery found (err no_usable_interfaces) = found ≡ ok []
  IsEvery found (err no_interface_bound) =
      (is : List NetInterface) × (found ≡ ok is)
      × All (λ i. (e : OpenError) × (new_udp_transport_on_interface sys i port ≡ err e)) is
  IsEvery found (err e) = ⊥

  -- Without a choice: one socket that has the port for itself, or an error of the system.
  abbrev pub IsDefault : Result OpenError (Client (Opened T)) → Type 0
  IsDefault (ok c) = (t : T) × (sys.listen port ≡ ok t) × (c.transport ≡ single t)
  IsDefault (err (resolve_failed e)) = sys.resolve port ≡ some e
  IsDefault (err (listen_failed e)) = sys.listen port ≡ err e
  IsDefault (err e) = ⊥

module _ {T : Type 0} (sys : System T) (heap : ℕ → Device) where
  client_at : NetInterface → Result OpenError (Client (Opened T))
  client_at i = client_of sys heap (new_udp_transport_on_interface sys i port)

  client_at-IsNamed :
      (name : Bytes) (found : Result ℕ (List NetInterface)) (i : NetInterface)
      → bytes_eq i.name name ≡ true
      → (length i.addr == 0) ≡ false
      → IsNamed sys name found (client_at i)
  unfolding client_at new_udp_transport_on_interface new_client_with_transport
  client_at-IsNamed name found i this h = elim (Result-cases (sys.listen_shared port)) [
    | inr (e, bad) ↦ subst (IsNamed sys name found) (sym (at_error e bad)) bad
    | inl (t, e) ↦ elim (Option-cases (sys.bind_to_interface t i)) [
      | inl fine ↦
          subst (IsNamed sys name found) (sym (at_socket t e fine)) (i, t, this, e, fine, refl)
      | inr (x, bad) ↦
          subst (IsNamed sys name found) (sym (at_bind t e x bad)) (i, t, this, refl, bad)
    ]
  ]
    where
      at_error : (e : ℕ) → sys.listen_shared port ≡ err e → client_at i ≡ err (listen_failed e)
      at_error e bad = rw (h, bad) refl

      at_socket :
          (t : T)
          → sys.listen_shared port ≡ ok t
          → sys.bind_to_interface t i ≡ none
          → client_at i ≡ ok (new_client_with_transport (single t) heap)
      at_socket t e fine = rw (h, e) (rw fine refl)

      at_bind :
          (t : T)
          → sys.listen_shared port ≡ ok t
          → (x : ℕ) → sys.bind_to_interface t i ≡ some x
          → client_at i ≡ err (bind_failed i.name x)
      at_bind t e x bad = rw (h, e) (rw bad refl)

  open_named-IsNamed :
      (name : Bytes) (found : Result ℕ (List NetInterface)) (is : List NetInterface)
      → HaveAddresses is
      → has_name name is ≡ true
      → IsNamed sys name found (open_named sys heap name port is)
  unfolding open_named has_name client_at
  open_named-IsNamed name found [] a h = absurd (ground arith)
  open_named-IsNamed name found (i ∷ is) (ai, a) h = elim (Bool-cases (bytes_eq i.name name)) [
    | inr other ↦ rw other (open_named-IsNamed name found is a (ground (arith, other, h)))
    | inl this ↦ rw this (client_at-IsNamed name found i this ai)
  ]

  pub new_client_for_interface-IsNamed :
      (name : Bytes) (raw : Result ℕ (List RawInterface))
      → ((is : List NetInterface) → enumerate_interfaces raw ≡ ok is → has_name name is ≡ true)
      → IsNamed sys name
          (enumerate_interfaces raw)
          (new_client_for_interface sys heap name port (enumerate_interfaces raw))
  unfolding new_client_for_interface
  new_client_for_interface-IsNamed name raw known = elim (Result-cases (enumerate_interfaces raw)) [
    | inr (e, bad) ↦ rw bad refl
    | inl (is, e) ↦
        rw e (
          open_named-IsNamed name (ok is) is (enumerate_interfaces-addresses raw is e) (known is e))
  ]

  pub port-IsDefault : IsDefault sys (new_client_with_port sys heap port)
  unfolding new_client_with_port new_udp_transport new_client_with_transport
  port-IsDefault = elim (Option-cases (sys.resolve port)) [
    | inr (e, bad) ↦ subst (IsDefault sys) (sym (at_resolve e bad)) bad
    | inl fine ↦ elim (Result-cases (sys.listen port)) [
      | inr (e, bad) ↦ subst (IsDefault sys) (sym (at_error fine e bad)) bad
      | inl (t, e) ↦ subst (IsDefault sys) (sym (at_socket fine t e)) (t, e, refl)
    ]
  ]
    where
      at_resolve :
          (e : ℕ)
          → sys.resolve port ≡ some e
          → new_client_with_port sys heap port ≡ err (resolve_failed e)
      at_resolve e bad = ground (arith, bad)

      at_error :
          sys.resolve port ≡ none
          → (e : ℕ) → sys.listen port ≡ err e
          → new_client_with_port sys heap port ≡ err (listen_failed e)
      at_error fine e bad = ground (arith, fine, bad)

      at_socket :
          sys.resolve port ≡ none
          → (t : T) → sys.listen port ≡ ok t
          → new_client_with_port sys heap port ≡ ok (new_client_with_transport (single t) heap)
      at_socket fine t e = ground (arith, fine, e)

  -- No socket, since none could be opened.
  open_children-none :
      (is : List NetInterface)
      → open_children sys heap is ≡ []
      → All (λ i. (e : OpenError) × (new_udp_transport_on_interface sys i port ≡ err e)) is
  unfolding open_children
  open_children-none [] h = tt
  open_children-none (i ∷ is) h = elim (Result-cases (new_udp_transport_on_interface sys i port)) [
    | inl (t, e) ↦ absurd (ground (arith, e, h))
    | inr (x, e) ↦ ((x, e), open_children-none is (ground (arith, e, h)))
  ]

  fan_out_client-IsEvery :
      (is : List NetInterface) (ts : List T)
      → open_children sys heap is ≡ ts
      → IsEvery sys (ok is) (fan_out_client sys heap ts)
  unfolding new_client_with_transport
  fan_out_client-IsEvery is [] h = (is, refl, open_children-none is h)
  fan_out_client-IsEvery is (t ∷ ts) h = (t, ts, refl)

  pub all-IsEvery :
      (found : Result ℕ (List NetInterface))
      → IsEvery sys found (new_client_for_all_interfaces sys heap found)
  unfolding new_client_for_all_interfaces
  all-IsEvery (err e) = refl
  all-IsEvery (ok []) = refl
  all-IsEvery (ok (i ∷ is)) = fan_out_client-IsEvery (i ∷ is) (open_children sys heap (i ∷ is)) refl
