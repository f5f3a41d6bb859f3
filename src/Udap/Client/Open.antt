-- ===== src/Udap/Client/Open.antt =====
-- udap/client.go and udap/transport.go: the constructors that open sockets. The system calls are
-- parameters, and numbers stand for their errors.
use go_udap.Prelude.{
  ℕ, List, [], ◌∷◌, Option, none, some, ◌==◌, if◌then◌else◌, length, Result, ok, err,
}
use go_udap.Prelude.Bytes.{Bytes, bytes_eq}
use go_udap.Udap.Discovery.{Device}
use go_udap.Udap.Interfaces.{NetInterface}
use go_udap.Udap.Client.{Client, new_client_with_transport}

-- `Port`
abbrev pub port : ℕ
port = 17784

pub data OpenError : Type 0 where
  resolve_failed : ℕ → OpenError
  listen_failed : ℕ → OpenError
  no_address : Bytes → OpenError
  bind_failed : Bytes → ℕ → OpenError
  enumerate_failed : ℕ → OpenError
  not_usable : Bytes → OpenError
  no_usable_interfaces : OpenError
  no_interface_bound : OpenError

-- The calls of the system: sockets `T`, which listen on a port of their own or on a shared one, and
-- are bound to an interface.
pub record System (T : Type 0) : Type 0 where
  pub resolve : ℕ → Option ℕ
  pub listen : ℕ → Result ℕ T
  pub listen_shared : ℕ → Result ℕ T
  pub bind_to_interface : T → NetInterface → Option ℕ

-- The transport of a client: one socket, or a fan-out over several.
pub data Opened (T : Type 0) : Type 0 where
  single : T → Opened T
  fan_out : List T → Opened T

module _ {T : Type 0} (sys : System T) where
  abbrev listening : Result ℕ T → Result OpenError T
  listening (err e) = err (listen_failed e)
  listening (ok t) = ok t

  -- `NewUDPTransport`
  unfoldable pub new_udp_transport : ℕ → Result OpenError T
  new_udp_transport p = elim (sys.resolve p) [
    | some e ↦ err (resolve_failed e)
    | none ↦ listening (sys.listen p)
  ]

  -- A socket that cannot be bound is closed.
  abbrev bound : Bytes → T → Option ℕ → Result OpenError T
  bound name t none = ok t
  bound name t (some e) = err (bind_failed name e)

  -- `NewUDPTransportOnInterface`
  unfoldable pub new_udp_transport_on_interface : NetInterface → ℕ → Result OpenError T
  new_udp_transport_on_interface iface p =
      if length iface.addr == 0 then err (no_address iface.name) else elim (sys.listen_shared p) [
        | err e ↦ err (listen_failed e)
        | ok t ↦ bound iface.name t (sys.bind_to_interface t iface)
      ]

  module _ (heap : ℕ → Device) where
    abbrev pub client_of : Result OpenError T → Result OpenError (Client (Opened T))
    client_of (err e) = err e
    client_of (ok t) = ok (new_client_with_transport (single t) heap)

    -- `newClientWithPort`; `NewClientWithLogger` gives it the standard port.
    unfoldable pub new_client_with_port : ℕ → Result OpenError (Client (Opened T))
    unfolding new_udp_transport
    new_client_with_port p = client_of (new_udp_transport p)

    -- The loop of `newClientForInterfaceWithPort`: the first interface of the name.
    unfoldable pub open_named : Bytes → ℕ → List NetInterface → Result OpenError (Client (Opened T))
    unfolding new_udp_transport_on_interface
    open_named name p [] = err (not_usable name)
    open_named name p (i ∷ is) =
        if bytes_eq i.name name
        then client_of (new_udp_transport_on_interface i p)
        else open_named name p is

    -- `newClientForInterfaceWithPort`; `NewClientForInterface` gives it the standard port.
    unfoldable pub new_client_for_interface :
        Bytes → ℕ → Result ℕ (List NetInterface) → Result OpenError (Client (Opened T))
    unfolding open_named
    new_client_for_interface name p (err e) = err (enumerate_failed e)
    new_client_for_interface name p (ok found) = open_named name p found

    abbrev or_skipped : Result OpenError T → List T → List T
    or_skipped (err e) ts = ts
    or_skipped (ok t) ts = t ∷ ts

    -- The loop of `NewClientForAllInterfaces`: an interface that cannot be bound is skipped.
    unfoldable pub open_children : List NetInterface → List T
    unfolding new_udp_transport_on_interface
    open_children [] = []
    open_children (i ∷ is) = or_skipped (new_udp_transport_on_interface i port) (open_children is)

    abbrev pub fan_out_client : List T → Result OpenError (Client (Opened T))
    fan_out_client [] = err no_interface_bound
    fan_out_client (t ∷ ts) = ok (new_client_with_transport (fan_out (t ∷ ts)) heap)

    -- `NewClientForAllInterfaces`
    unfoldable pub new_client_for_all_interfaces :
        Result ℕ (List NetInterface) → Result OpenError (Client (Opened T))
    unfolding open_children
    new_client_for_all_interfaces (err e) = err (enumerate_failed e)
    new_client_for_all_interfaces (ok []) = err no_usable_interfaces
    new_client_for_all_interfaces (ok (i ∷ is)) = fan_out_client (open_children (i ∷ is))
