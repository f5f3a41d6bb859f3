-- ===== src/Cli/Find/Ends.antt =====
-- How the search for a device ends, compared with a discovery that runs to its end.
use go_udap.Prelude.{ℕ, ◌<◌, ◌≡◌, Bool, none, Result, ok, err}
use go_udap.Prelude.Bytes.{Bytes}
use go_udap.Udap.Mac.{mac_string}
use go_udap.Udap.Transport.{Transport}
use go_udap.Udap.Client.{Client, get_device}
use go_udap.Udap.Operations.{OpError}
use go_udap.Cli.Errors.{ExitError, failure}
use go_udap.Cli.Find.{no_device}
use go_udap.Udap.Operations.Frame.{Frame}

module _ {S : Type 0} where
  -- The device at an address has the MAC address.
  abbrev pub HasMac : Bytes → ℕ → Client S → Type 0
  HasMac mac a c = (a < c.next) × (mac_string (c.heap a).mac ≡ mac)

  -- A search that finds a device, with the MAC address; or one that fails, exactly as the whole
  -- discovery ends, without the device.
  abbrev pub IsEnd :
      Bytes → Bool → Result OpError (Unit {0}) × Client S → Result ExitError ℕ × Client S → Type 0
  IsEnd mac expired whole (ok a, c) = HasMac mac a c
  IsEnd mac expired whole (err e, c) =
      (get_device mac whole.1 ≡ none)
      × (e ≡ failure (no_device mac expired whole.0))
      × (c ≡ whole.1)
