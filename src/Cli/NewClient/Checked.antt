-- ===== src/Cli/NewClient/Checked.antt =====
-- What the checks in front of the commands rule out, and the client that a command starts with.
use go_udap.Prelude.{
  ℕ, ◌≡◌, ◌∙◌, sym, Bool, Bool-cases, true, false, inl, inr, List, Option-cases, none, ◌==◌,
  if◌then◌else◌, length, Result, ok, err, arith,
}
use go_udap.Prelude.Bytes.{Bytes}
use go_udap.Udap.Discovery.{Device}
use go_udap.Udap.Interfaces.{NetInterface, RawInterface, enumerate_interfaces}
use go_udap.Udap.Client.{Client, set_retries}
use go_udap.Udap.Client.Open.{OpenError, System, Opened}
use go_udap.Cli.Root.{
  BindInterfaceSelection, Invocation, has_name, reject_format_flag, check_selection,
  persistent_pre_run,
}
use go_udap.Cli.NewClient.{open_selected, with_retries, new_client}
use go_udap.Cli.NewClient.Sockets.{
  IsNamed, IsEvery, IsDefault, new_client_for_interface-IsNamed, port-IsDefault, all-IsEvery,
}

module _ {T : Type 0} (sys : System T) where
  -- What the selection asks for.
  abbrev pub IsOpened :
      BindInterfaceSelection
      → Result ℕ (List NetInterface)
      → Result OpenError (Client (Opened T))
      → Type 0
  IsOpened sel found r =
      if length sel.name == 0
      then (if sel.all then IsEvery sys found r else IsDefault sys r)
      else IsNamed sys sel.name found r

check_selection-named :
    (i : Invocation)
    → check_selection i ≡ none
    → (length i.selection.name == 0) ≡ false
    → (is : List NetInterface) → i.interfaces ≡ ok is
    → has_name i.selection.name is ≡ true
unfolding check_selection
check_selection-named i h named is e = ground (arith, h, named, e)

persistent_pre_run-named :
    (i : Invocation) (sel : BindInterfaceSelection)
    → persistent_pre_run i ≡ ok sel
    → (check_selection i ≡ none) × (i.selection ≡ sel)
unfolding persistent_pre_run
persistent_pre_run-named i sel h = elim (Option-cases (reject_format_flag i)) [
  | inr (e, bad) ↦ absurd (ground (arith, bad, h))
  | inl fine ↦ elim (Option-cases (check_selection i)) [
    | inr (e, bad) ↦ absurd (ground (arith, fine, bad, h))
    | inl checked ↦ (checked, ground (arith, fine, checked, h))
  ]
]

module _ {T : Type 0} (sys : System T) (heap : ℕ → Device) (negative : Bool) (retries : ℕ) where
  -- The retries change nothing that is said of a client.
  with_retries-IsNamed :
      (name : Bytes) (found : Result ℕ (List NetInterface))
      (r : Result OpenError (Client (Opened T)))
      → IsNamed sys name found r
      → IsNamed sys name found (with_retries negative retries r)
  unfolding set_retries
  with_retries-IsNamed name found (ok c) h = h
  with_retries-IsNamed name found (err e) h = h

  with_retries-IsEvery :
      (found : Result ℕ (List NetInterface)) (r : Result OpenError (Client (Opened T)))
      → IsEvery sys found r
      → IsEvery sys found (with_retries negative retries r)
  unfolding set_retries
  with_retries-IsEvery found (ok c) h = h
  with_retries-IsEvery found (err e) h = h

  with_retries-IsDefault :
      (r : Result OpenError (Client (Opened T)))
      → IsDefault sys r
      → IsDefault sys (with_retries negative retries r)
  unfolding set_retries
  with_retries-IsDefault (ok c) h = h
  with_retries-IsDefault (err e) h = h

  -- If the checks in front of the commands pass, and the system still lists the same interfaces, the
  -- client is what the selection asks for. With one interface chosen it has a socket that shares the
  -- port and is bound to an interface of that name; making it fails only because the interfaces cannot
  -- be listed, or the socket cannot be opened or bound. With all chosen it has a fan-out over one
  -- socket at least; making it fails only because the interfaces cannot be listed, there is none, or
  -- on none of them a socket can be opened and bound. Without a choice it has a socket with the port
  -- for itself; making it fails only because the address cannot be resolved or the socket opened.
  pub new_client-IsOpened :
      (i : Invocation) (sel : BindInterfaceSelection) (raw : Result ℕ (List RawInterface))
      → i.interfaces ≡ enumerate_interfaces raw
      → persistent_pre_run i ≡ ok sel
      → IsOpened sys sel i.interfaces (new_client sys heap i.interfaces sel negative retries)
  unfolding new_client open_selected
  new_client-IsOpened i sel raw listed h =
      let (checked, same) = persistent_pre_run-named i sel h in
      rw (listed, sym same)
        (elim (Bool-cases (length i.selection.name == 0)) [
          | inr named ↦ rw named (
              with_retries-IsNamed i.selection.name (enumerate_interfaces raw) _ (
                new_client_for_interface-IsNamed sys heap i.selection.name raw
                  (λ is e. check_selection-named i checked named is (listed ∙ e))))
          | inl unnamed ↦ rw unnamed (elim (Bool-cases i.selection.all) [
            | inl every ↦ rw every (
                with_retries-IsEvery (enumerate_interfaces raw) _
                  (all-IsEvery sys heap (enumerate_interfaces raw)))
            | inr one ↦ rw one (with_retries-IsDefault _ (port-IsDefault sys heap))
          ])
        ])
