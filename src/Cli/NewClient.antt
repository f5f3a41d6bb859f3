-- ===== src/Cli/NewClient.antt =====
-- cli/discover.go: `newClient`, the client of a command for the selected interfaces.
pub mod Sockets
pub mod Checked
use go_udap.Prelude.{ℕ, Bool, List, ◌==◌, if◌then◌else◌, length, Result, ok, err}
use go_udap.Udap.Discovery.{Device}
use go_udap.Udap.Interfaces.{NetInterface}
use go_udap.Udap.Client.{Client, set_retries}
use go_udap.Udap.Client.Open.{
  OpenError, System, Opened, port, new_client_with_port, new_client_for_interface,
  new_client_for_all_interfaces,
}
use go_udap.Cli.Root.{BindInterfaceSelection}

abbrev pub with_retries :
    {T : Type 0}
    → Bool
    → ℕ
    → Result OpenError (Client (Opened T))
    → Result OpenError (Client (Opened T))
with_retries negative n (err e) = err e
with_retries negative n (ok c) = ok (set_retries negative n c)

module _ {T : Type 0} (sys : System T) (heap : ℕ → Device)
    (found : Result ℕ (List NetInterface)) where
  -- The switch on the selection.
  unfoldable pub open_selected : BindInterfaceSelection → Result OpenError (Client (Opened T))
  open_selected sel =
      if length sel.name == 0
      then (if sel.all
          then new_client_for_all_interfaces sys heap found
          else new_client_with_port sys heap port)
      else new_client_for_interface sys heap sel.name port found

  -- `newClient`, with the retries of the command line
  unfoldable pub new_client :
      BindInterfaceSelection → Bool → ℕ → Result OpenError (Client (Opened T))
  unfolding open_selected
  new_client sel negative retries = with_retries negative retries (open_selected sel)
