-- ===== src/Cli/Interfaces.antt =====
-- cli/interfaces.go: the command `interfaces`.
use go_udap.Prelude.{ℕ, Bool, List, ◌==◌, length, Result, ok, err}
use go_udap.Udap.Interfaces.{NetInterface}
use go_udap.Cli.Errors.{ExitError, failure, no_interfaces}
use go_udap.Cli.Results.{Answer, interfaces}

-- `runInterfaces`: the result, and whether the user is told that there are no interfaces.
unfoldable run_interfaces : Result ℕ (List NetInterface) → Result ExitError (Answer × Bool)
run_interfaces (err e) = err (failure (no_interfaces e))
run_interfaces (ok found) = ok (interfaces found, length found == 0)
