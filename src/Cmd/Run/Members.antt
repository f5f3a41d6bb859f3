-- ===== src/Cmd/Run/Members.antt =====
-- The network that is served lists its devices once each.
use mathlib.Core.Path.{subst}
use go_udap.Prelude.{
  ℕ, ◌≤◌, ◌≡◌, refl, sym, ◌∙◌, true, Bool, Bool-cases, inl, inr, List, [], ◌∷◌, Option, Result,
  Result-cases, ok, err, length, ◌==◌, not, ◌&&◌, arith,
}
use go_udap.Prelude.Bytes.{Bytes}
use go_udap.Go.Strings.{to_lower}
use go_udap.Mocksbr.Device.{DeviceConfig}
use go_udap.Mocksbr.Network.{Network, AddError, remove_auto, new_network}
use go_udap.Mocksbr.Network.Members.{IsNetwork, IsNetwork-add, IsNetwork-remove_auto}
use go_udap.Mocksbr.Network.Fresh.{IsNetwork-new_network}
use go_udap.Cmd.Flags.{
  DeviceOverride, parse_device_flags, inherited, added, replace_auto_device, apply_overrides,
}
use go_udap.Cmd.Serve.{Conn, Ending, serve}
use go_udap.Cmd.Serve.Answers.{Answers, serve-Answers}
use go_udap.Cmd.Run.Count.{device_count, device_count-apply_overrides, device_count-new_network}
use go_udap.Cmd.Run.{
  Options, flags, RunError, bad_flags, negative_devices, bad_device, not_replaced, not_resolved,
  not_bound, is_usage, exit_status, RunOutcome, prints_help, prints_version, served, network_of,
  listen_and_serve, run_flags, run,
}

IsNetwork-added :
    (r : Result AddError Bytes) (n : Network) → IsNetwork n → IsNetwork (added (r, n)).1
IsNetwork-added (ok mac) n h = h
IsNetwork-added (err e) n h = h

IsNetwork-replace :
    (idx : ℕ) (cfg : DeviceConfig) (n : Network)
    → IsNetwork n
    → IsNetwork (replace_auto_device idx cfg n).1
unfolding replace_auto_device
IsNetwork-replace idx cfg n h =
    let removed = IsNetwork-remove_auto idx n h in
    elim (Bool-cases (length (remove_auto idx n).0 == 0)) [
      | inl missing ↦ rw missing removed
      | inr found ↦ rw found (
          IsNetwork-added _ _
            (IsNetwork-add (inherited idx (remove_auto idx n).0 cfg) (remove_auto idx n).1 removed))
    ]

IsNetwork-apply_overrides :
    (ovs : List DeviceOverride) (n : Network) → IsNetwork n → IsNetwork (apply_overrides ovs n).1
unfolding apply_overrides
IsNetwork-apply_overrides [] n h = h
IsNetwork-apply_overrides (ov ∷ ovs) n h =
    let cfg : DeviceConfig = record ov.cfg { mac = to_lower ov.cfg.mac } in
    let replaced = IsNetwork-replace ov.idx cfg n h in
    elim (Result-cases (replace_auto_device ov.idx cfg n).0) [
      | inl (u, e) ↦
          rw (e, apply_overrides)
            (IsNetwork-apply_overrides ovs (replace_auto_device ov.idx cfg n).1 replaced)
      | inr (x, e) ↦ rw (e, apply_overrides) replaced
    ]

-- A network with the invariant and as many devices as the flags ask for.
abbrev pub IsWhole : Options → Network → Type 0
IsWhole o n = IsNetwork n × (device_count n ≡ o.devices)

-- The flags describe such a network, if the devices are so few that making them does not panic.
pub network_of-IsWhole :
    (parse_duration : Bytes → Option (Bool × ℕ)) (o : Options) (n : Network)
    → o.devices ≤ 255
    → network_of parse_duration o ≡ ok n
    → IsWhole o n
unfolding network_of
network_of-IsWhole parse_duration o n few h =
    elim (Bool-cases (o.negative && not (o.devices == 0))) [
      | inl bad ↦ absurd (ground (arith, bad, h))
      | inr fine ↦ elim (Result-cases (parse_device_flags parse_duration o.devices o.device)) [
        | inr (e, bad) ↦ absurd (ground (arith, fine, bad, h))
        | inl (overrides, parsed) ↦
            elim (Result-cases (apply_overrides overrides (new_network o.devices)).0) [
              | inr (e, bad) ↦ absurd (ground (arith, fine, parsed, bad, h))
              | inl (u, done) ↦
                  let same : (apply_overrides overrides (new_network o.devices)).1 ≡ n =
                    ground (arith, fine, parsed, done, h) in
                  subst (IsWhole o) same (
                    IsNetwork-apply_overrides overrides _ (IsNetwork-new_network o.devices few),
                    device_count-apply_overrides overrides (new_network o.devices) done
                        ∙ device_count-new_network o.devices,
                  )
            ]
      ]
    ]

-- What is wrong with the flags is a usage error.
network_of-is_usage :
    (parse_duration : Bytes → Option (Bool × ℕ)) (o : Options) (e : RunError)
    → network_of parse_duration o ≡ err e
    → is_usage e ≡ true
unfolding network_of is_usage
network_of-is_usage parse_duration o (not_resolved x) h = absurd (ground (arith, h))
network_of-is_usage parse_duration o (not_bound x) h = absurd (ground (arith, h))
network_of-is_usage parse_duration o (bad_flags m) h = refl
network_of-is_usage parse_duration o (negative_devices n) h = refl
network_of-is_usage parse_duration o (bad_device x) h = refl
network_of-is_usage parse_duration o (not_replaced x) h = refl

module _ {S : Type 0} (conn : Conn S) (ending : Ending conn)
    (parse_duration : Bytes → Option (Bool × ℕ)) (resolve : Bytes → Result ℕ Bytes)
    (bind : Bytes → Result ℕ S) where
  -- The flags describe a network.
  abbrev Describes : Options → Network → Type 0
  Describes o n = (network_of parse_duration o ≡ ok n) × IsWhole o n

  -- How a run ends.
  abbrev pub HasRun : Options → Result RunError (RunOutcome S) → Type 0
  HasRun o (ok prints_help) = o.show_help ≡ true
  HasRun o (ok prints_version) = o.show_version ≡ true
  HasRun o (ok (served (m, t))) =
      (n : Network) × (addr : Bytes) × (s : S) × Describes o n
      × (resolve o.listen ≡ ok addr)
      × (bind addr ≡ ok s)
      × Answers conn n s m t
      × IsNetwork m
  HasRun o (err (not_resolved x)) = (n : Network) × Describes o n × (resolve o.listen ≡ err x)
  HasRun o (err (not_bound x)) =
      (n : Network) × (addr : Bytes) × Describes o n
      × (resolve o.listen ≡ ok addr)
      × (bind addr ≡ err x)
  HasRun o (err e) = network_of parse_duration o ≡ err e

  -- The exit code that goes with it.
  abbrev pub code_of : Result RunError (RunOutcome S) → ℕ
  code_of (ok r) = 0
  code_of (err (not_resolved x)) = 2
  code_of (err (not_bound x)) = 2
  code_of (err e) = 1

  code_of-exit_status : (r : Result RunError (RunOutcome S)) → exit_status r ≡ code_of r
  unfolding exit_status is_usage
  code_of-exit_status (ok r) = refl
  code_of-exit_status (err (not_resolved x)) = refl
  code_of-exit_status (err (not_bound x)) = refl
  code_of-exit_status (err (bad_flags m)) = refl
  code_of-exit_status (err (negative_devices n)) = refl
  code_of-exit_status (err (bad_device x)) = refl
  code_of-exit_status (err (not_replaced x)) = refl

  usage-HasRun :
      (o : Options) (e : RunError)
      → network_of parse_duration o ≡ err e
      → is_usage e ≡ true
      → HasRun o (err e)
  unfolding is_usage
  usage-HasRun o (not_resolved x) h u = absurd (ground arith)
  usage-HasRun o (not_bound x) h u = absurd (ground arith)
  usage-HasRun o (bad_flags m) h u = h
  usage-HasRun o (negative_devices n) h u = h
  usage-HasRun o (bad_device x) h u = h
  usage-HasRun o (not_replaced x) h u = h

  -- A run that is known to have this result.
  with_result :
      (o : Options) (r r' : Result RunError (RunOutcome S)) → r ≡ r' → HasRun o r' → HasRun o r
  with_result o r r' e h = subst (HasRun o) (sym e) h

  listen_and_serve-HasRun :
      (o : Options) (n : Network)
      → Describes o n
      → HasRun o (listen_and_serve conn ending parse_duration resolve bind o.listen n)
  unfolding listen_and_serve
  listen_and_serve-HasRun o n made = elim (Result-cases (resolve o.listen)) [
    | inr (x, bad) ↦ with_result o _ (err (not_resolved x)) (ground (arith, bad)) (n, made, bad)
    | inl (addr, found) ↦ elim (Result-cases (bind addr)) [
      | inr (x, bad) ↦
          with_result o _ (err (not_bound x)) (ground (arith, found, bad))
            (n, addr, made, found, bad)
      | inl (s, bound) ↦
          let (a, kept) = serve-Answers conn ending n s made.1.0 in
          with_result o _ (ok (served (serve conn ending n s))) (ground (arith, found, bound))
            (n, addr, s, made, found, bound, a, kept)
    ]
  ]

  -- A run with at most 255 devices, in a world where a signal or the closing of the socket comes after
  -- finitely many reads, ends in one of these ways. It prints the help or the version that it was asked
  -- for. Or the flags do not describe a network, and the exit code is 1. Or they do, a network that
  -- lists its devices once each, as many as the flags ask for; then the address is not resolved or not
  -- bound, and the exit code is 2, or the network answers every packet, to where it came from, until a
  -- signal or the closing of the socket. The exit code is 0 in all other cases.
  pub run-HasRun :
      (o : Options)
      → o.devices ≤ 255
      → HasRun o (run conn ending parse_duration resolve bind (flags o))
        × (exit_status (run conn ending parse_duration resolve bind (flags o))
            ≡ code_of (run conn ending parse_duration resolve bind (flags o)))
  unfolding run run_flags
  run-HasRun o few = (flags-HasRun, code_of-exit_status _)
    where
      flags-HasRun : HasRun o (run conn ending parse_duration resolve bind (flags o))
      flags-HasRun = elim (Bool-cases o.show_help) [
        | inl help ↦ with_result o _ (ok prints_help) (ground (arith, help)) help
        | inr no_help ↦ elim (Bool-cases o.show_version) [
          | inl version ↦
              with_result o _ (ok prints_version) (ground (arith, no_help, version)) version
          | inr no_version ↦ elim (Result-cases (network_of parse_duration o)) [
            | inr (e, bad) ↦
                with_result o _ (err e) (ground (arith, no_help, no_version, bad))
                  (usage-HasRun o e bad (network_of-is_usage parse_duration o e bad))
            | inl (n, made) ↦
                with_result o _
                  (listen_and_serve conn ending parse_duration resolve bind o.listen n)
                  (ground (arith, no_help, no_version, made))
                  (listen_and_serve-HasRun o n
                    (made, network_of-IsWhole parse_duration o n few made))
          ]
        ]
      ]
