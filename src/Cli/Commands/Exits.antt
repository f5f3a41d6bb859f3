-- ===== src/Cli/Commands/Exits.antt =====
-- The exit codes of the commands that take a device's MAC address.
use go_udap.Prelude.{
  ℕ, ◌≡◌, refl, Bool, true, false, List, Option, none, some, Result, ok, err, inl, inr, ◌⊎◌, arith,
}
use go_udap.Prelude.Bytes.{Bytes}
use go_udap.Prelude.Dict.{Dict}
use go_udap.Udap.Transport.{Transport}
use go_udap.Udap.Client.{Client}
use go_udap.Udap.Operations.{OpError}
use go_udap.Cli.Mac.{normalize_mac}
use go_udap.Cli.Errors.{CommandError, ExitError, exit_code, IsRun, device_op_error}
use go_udap.Cli.Find.{Schedule, discover_and_find}
use go_udap.Cli.Find.Exits.{discover_and_find-IsRun}
use go_udap.Cli.Get.{canonical_param_names}
use go_udap.Cli.Set.{SetInputs, collect_parameters}
use go_udap.Cli.Commands.{
  Outcome, and_then, checked, reset_if, with_mac, with_input, with_client, with_device, run_get,
  run_read, run_set, run_reboot, run_getip, run_info, apply_set,
}

-- Valid input gives 0 or 1; other input gives 2, and no client is made.
pub data IsExit {S A : Type 0} : Bool → Outcome S A → Type 0 where
  ended : (o : Outcome S A) → (exit_code o.0 ≡ 0) ⊎ (exit_code o.0 ≡ 1) → IsExit true o
  refused : (o : Outcome S A) → exit_code o.0 ≡ 2 → o.1 ≡ none → IsExit false o

-- Whether a MAC address is accepted, and what comes with it.
abbrev pub if_some : (Bytes → Bool) → Option Bytes → Bool
if_some valid none = false
if_some valid (some s) = valid s

abbrev pub is_ok : {A : Type 0} → Result CommandError A → Bool
is_ok (ok a) = true
is_ok (err e) = false

device_op_error-IsRun : (mac : Bytes) (e : OpError) → (device_op_error mac e).code ≡ 1
unfolding device_op_error
device_op_error-IsRun mac e = ground arith

module _ {S : Type 0} where
  and_then-IsRun :
      {A B : Type 0} (f : A → Client S → Result ExitError B × Client S)
      (r : Result ExitError A × Client S)
      → IsRun r.0
      → ((a : A) (c : Client S) → IsRun (f a c).0)
      → IsRun (and_then f r).0
  unfolding and_then
  and_then-IsRun f (ok a, c) h k = k a c
  and_then-IsRun f (err e, c) h k = h

  checked-IsRun :
      {A : Type 0} (f : OpError → ExitError) (r : Result OpError A × Client S)
      → ((e : OpError) → (f e).code ≡ 1)
      → IsRun (checked f r).0
  unfolding checked
  checked-IsRun f (ok a, c) h = tt
  checked-IsRun f (err e, c) h = h e

  run-IsExit :
      {A : Type 0} (r : Result ExitError A × Client S)
      → IsRun r.0
      → IsExit {S = S} true (r.0, some r.1)
  unfolding exit_code
  run-IsExit (ok a, c) h = ended _ (inl refl)
  run-IsExit (err e, c) h = ended _ (inr h)

  with_mac-IsExit :
      {A : Type 0} (arg : Bytes) (valid : Bytes → Bool) (f : Bytes → Outcome S A)
      → ((mac : Bytes) → IsExit (valid mac) (f mac))
      → (o : Option Bytes) → IsExit (if_some valid o) (with_mac arg f o)
  unfolding exit_code with_mac
  with_mac-IsExit arg valid f h none = refused _ refl refl
  with_mac-IsExit arg valid f h (some mac) = h mac

  with_input-IsExit :
      {A B : Type 0} (f : B → Outcome S A)
      → ((b : B) → IsExit true (f b))
      → (r : Result CommandError B) → IsExit (is_ok r) (with_input f r)
  unfolding exit_code with_input
  with_input-IsExit f h (err e) = refused _ refl refl
  with_input-IsExit f h (ok b) = h b

module _ {S : Type 0} (t : Transport S) (sched : Schedule) (new_client : Result ℕ (Client S)) where
  with_device-IsExit :
      {A : Type 0} (mac : Bytes) (f : ℕ → Client S → Result ExitError A × Client S)
      → ((a : ℕ) (c : Client S) → IsRun (f a c).0)
      → (r : Result ℕ (Client S)) → IsExit {S = S} true (with_device t sched r mac f)
  unfolding with_device with_client exit_code
  with_device-IsExit mac f h (err e) = ended _ (inr refl)
  with_device-IsExit mac f h (ok c) =
      run-IsExit (and_then f (discover_and_find t sched mac c)) (
        and_then-IsRun f (discover_and_find t sched mac c) (discover_and_find-IsRun t sched mac c)
          h)

  reset_if-IsRun :
      (reboot : Bool) (a : ℕ) (c : Client S) → IsRun (reset_if t sched new_client reboot a c).0
  unfolding reset_if
  reset_if-IsRun true a c = checked-IsRun _ _ (λ e. refl)
  reset_if-IsRun false a c = tt

  apply_set-IsRun :
      (mac : Bytes) (reboot : Bool) (params : Dict Bytes) (a : ℕ) (c : Client S)
      → IsRun (apply_set t sched new_client mac reboot params a c).0
  unfolding apply_set
  apply_set-IsRun mac reboot params a c =
      and_then-IsRun _ _ (checked-IsRun _ _ (device_op_error-IsRun mac)) (λ _ c1.
        and_then-IsRun _ _ (checked-IsRun _ _ (device_op_error-IsRun mac))
          (λ _ c2. and_then-IsRun _ _ (reset_if-IsRun reboot a c2) (λ _ c3. tt)))

  -- Of the commands that take a MAC address: if the address, the names or the parameters are
  -- invalid, the exit code is 2 and no client is made; otherwise it is 0 or 1.
  pub commands-IsExit :
      (arg : Bytes) (names : List Bytes) (all : Bool) (inputs : SetInputs)
      → IsExit
          (if_some (λ _. is_ok (canonical_param_names names)) (normalize_mac arg))
          (run_get t sched new_client arg names)
        × IsExit (if_some (λ _. true) (normalize_mac arg)) (run_read t sched new_client arg all)
        × IsExit
            (if_some (λ _. is_ok (collect_parameters inputs)) (normalize_mac arg))
            (run_set t sched new_client arg inputs)
        × IsExit (if_some (λ _. true) (normalize_mac arg)) (run_reboot t sched new_client arg)
        × IsExit (if_some (λ _. true) (normalize_mac arg)) (run_getip t sched new_client arg)
        × IsExit (if_some (λ _. true) (normalize_mac arg)) (run_info t sched new_client arg)
  unfolding run_get run_read run_set run_reboot run_getip run_info
  commands-IsExit arg names all inputs = (
    with_mac-IsExit arg _ _
        (λ mac.
          with_input-IsExit _
            (λ canonical.
              with_device-IsExit mac _
                (λ a c.
                  and_then-IsRun _ _ (checked-IsRun _ _ (device_op_error-IsRun mac)) (λ v c'. tt))
                new_client)
            _)
        _,
    with_mac-IsExit arg _ _
        (λ mac.
          with_device-IsExit mac _
            (λ a c. and_then-IsRun _ _ (checked-IsRun _ _ (device_op_error-IsRun mac)) (λ v c'. tt))
            new_client)
        _,
    with_mac-IsExit arg _ _
        (λ mac.
          with_input-IsExit _
            (λ params.
              with_device-IsExit mac _ (apply_set-IsRun mac inputs.reboot params) new_client)
            _)
        _,
    with_mac-IsExit arg _ _
        (λ mac. with_device-IsExit mac _ (λ a c. checked-IsRun _ _ (λ e. refl)) new_client) _,
    with_mac-IsExit arg _ _
        (λ mac.
          with_device-IsExit mac _ (λ a c. checked-IsRun _ _ (device_op_error-IsRun mac))
            new_client)
        _,
    with_mac-IsExit arg _ _ (λ mac. with_device-IsExit mac _ (λ a c. tt) new_client) _,
  )
