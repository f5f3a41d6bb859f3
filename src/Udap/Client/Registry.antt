-- ===== src/Udap/Client/Registry.antt =====
-- The registry's invariant: a device is found under the print of its own MAC address.
use go_udap.Prelude.{ℕ, ◌<◌, ◌≡◌, some, ◌==◌, if◌then◌else◌, arith, Bool-cases, ==_iff, inl, inr}
use go_udap.Prelude.Bytes.{Bytes, bytes_eq, bytes_eq_iff}
use go_udap.Prelude.Dict.{get, get-put}
use go_udap.Udap.Mac.{mac_string}
use go_udap.Udap.Discovery.{Device}
use go_udap.Udap.Client.{Client, new_client_with_transport, write_device, record_device, get_device}

module _ {S : Type 0} where
  -- What the registry holds is allocated, and stands under its own MAC address.
  pub record IsRegistry (c : Client S) : Type 0 where
    pub found :
        (k : Bytes) (a : ℕ)
        → get k c.devices ≡ some a
        → (mac_string (c.heap a).mac ≡ k) × (a < c.next)

  -- A new client has an empty registry.
  pub new_client-IsRegistry :
      (s : S) (heap : ℕ → Device) → IsRegistry (new_client_with_transport s heap)
  unfolding new_client_with_transport
  new_client-IsRegistry s heap = record { found = λ k a e. absurd (unfold get in ground arith) }

  -- Recording a device keeps the registry's invariant: the new device and every other one are found
  -- under the print of their own MAC address.
  pub IsRegistry-record_device :
      (d : Device) (c : Client S) → IsRegistry c → IsRegistry (record_device d c)
  unfolding record_device
  IsRegistry-record_device d c h = record {
    found = λ k a e. ground (
      arith,
      get-put (mac_string d.mac) k c.next c.devices,
      bytes_eq_iff (mac_string d.mac) k,
      h.found k a,
    );
  }

  -- Writing a device that keeps its MAC address, and may differ in every other field, keeps the
  -- registry's invariant.
  pub IsRegistry-write_device :
      (a : ℕ) (d : Device) (c : Client S)
      → d.mac ≡ (c.heap a).mac
      → IsRegistry c
      → IsRegistry (write_device a d c)
  IsRegistry-write_device a d c same h = record {
    found = λ k b e. elim (Bool-cases (b == a)) [
      | inl here ↦ rw here (let (m, lt) = h.found k b e in (cc ((==_iff b a).0 here, same, m), lt))
      | inr there ↦ rw there (h.found k b e)
    ];
  }

  -- After a device is recorded it is found under its MAC address, and the others as before.
  pub get_device-record_device :
      (d : Device) (c : Client S) (k : Bytes)
      → get_device k (record_device d c)
        ≡ (if bytes_eq (mac_string d.mac) k then some c.next else get_device k c)
  unfolding get_device record_device
  get_device-record_device d c k = get-put (mac_string d.mac) k c.next c.devices
