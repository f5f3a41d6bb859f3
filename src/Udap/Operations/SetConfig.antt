-- ===== src/Udap/Operations/SetConfig.antt =====
-- `SetDeviceConfigWithContext`: the cached parameters change only when the device has acknowledged.
use go_udap.Prelude.{ℕ, ◌≡◌, ◌≢◌, refl, ap, Result, ok, err, [], ◌∷◌, ◌==◌, if◌then◌else◌, arith}
use go_udap.Prelude.Bytes.{Bytes}
use go_udap.Prelude.Dict.{Dict, copy}
use go_udap.Udap.Packet.{Packet}
use go_udap.Udap.Discovery.{Device}
use go_udap.Udap.Transport.{Transport}
use go_udap.Udap.Client.{Client}
use go_udap.Udap.Operations.{
  OpError, continue, device_at, commit_config, set_reply, load_if_empty, get_all_device_config,
  set_device_config,
}
use go_udap.Udap.Operations.Frame.{Frame, round_trip-Frame}

-- The heap of devices after the write of a configuration to one of them.
abbrev write_over : ℕ → Dict Bytes → (ℕ → Device) → ℕ → Device
write_over a config h b =
    if b == a then record (h a) { parameters = copy (h a).parameters config } else h b

module _ {S : Type 0} where
  -- Success writes the caller's values over the cached ones; failure changes no device; either way
  -- the registry stays.
  pub record IsAtomic (a : ℕ) (config : Dict Bytes) (c : Client S)
      (out : Result OpError (Unit {0}) × Client S) : Type 0 where
    pub success : out.0 ≡ ok tt → out.1.heap ≡ write_over a config c.heap
    pub failure : (e : OpError) → out.0 ≡ err e → out.1.heap ≡ c.heap
    pub registry : out.1.devices ≡ c.devices

  commit-IsAtomic :
      (a : ℕ) (config : Dict Bytes) (c c1 : Client S) (x : Result OpError (Unit {0}))
      → Frame c c1
      → IsAtomic a config c (continue (λ _. commit_config a config) (x, c1))
  unfolding commit_config
  commit-IsAtomic a config c c1 (ok u) f = record {
    success = λ _. ap (write_over a config) f.heap;
    failure = λ e q. absurd (ground arith);
    registry = f.devices;
  }
  commit-IsAtomic a config c c1 (err e) f = record {
    success = λ q. absurd (ground arith);
    failure = λ e' q. f.heap;
    registry = f.devices;
  }

  -- The reply, if there is one, and what follows it.
  reply-IsAtomic :
      (a : ℕ) (config : Dict Bytes) (c c1 : Client S) (r : Result OpError (Packet × Bytes))
      → Frame c c1
      → IsAtomic a config c (
          continue (λ x c'. continue (λ _. commit_config a config) (set_reply x.0 x.1, c')) (r, c1))
  reply-IsAtomic a config c c1 (ok (p, payload)) f =
      commit-IsAtomic a config c c1 (set_reply p payload) f
  reply-IsAtomic a config c c1 (err e) f = record {
    success = λ q. absurd (ground arith);
    failure = λ e' q. f.heap;
    registry = f.devices;
  }

module _ {S : Type 0} (t : Transport S) where
  load_cached :
      (a : ℕ) (cached : Dict Bytes) (c : Client S)
      → cached ≢ []
      → load_if_empty t a cached c ≡ (ok tt, c)
  unfolding load_if_empty
  load_cached a [] c h = absurd (h refl)
  load_cached a (entry ∷ cached) c h = refl

  -- With cached parameters, a successful set writes the caller's values over them, and a set that
  -- fails in any way leaves every device as it was; the registry stays in both cases.
  pub set_device_config-IsAtomic :
      (a : ℕ) (config : Dict Bytes) (c : Client S)
      → (c.heap a).parameters ≢ []
      → IsAtomic a config c (set_device_config t a config c)
  unfolding set_device_config device_at
  set_device_config-IsAtomic a config c h =
      rw (load_cached a (c.heap a).parameters c h)
        (reply-IsAtomic a config c _ _ (round_trip-Frame t _ a c))

  -- With nothing cached, a failing prelude read ends the set with the same error, in the client that
  -- the read leaves.
  pub set_device_config-prelude :
      (a : ℕ) (config : Dict Bytes) (c c' : Client S) (e : OpError)
      → (c.heap a).parameters ≡ []
      → get_all_device_config t a c ≡ (err e, c')
      → set_device_config t a config c ≡ (err e, c')
  unfolding set_device_config device_at
  set_device_config-prelude a config c c' e h q =
      let load : load_if_empty t a (c.heap a).parameters c ≡ (err e, c') =
        rw h (unfold load_if_empty in q) in
      rw load refl
