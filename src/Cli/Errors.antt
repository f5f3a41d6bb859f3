-- ===== src/Cli/Errors.antt =====
-- cli/deverr.go and the exit codes of cli/cli.go.
use go_udap.Prelude.{ℕ, ◌≡◌, Result, ok, err}
use go_udap.Prelude.Bytes.{Bytes}
use go_udap.Udap.Transport.{deadline_exceeded}
use go_udap.Udap.Validation.{ValueError}
use go_udap.Udap.Operations.{OpError, recv_failed}
use go_udap.Cli.Source.{SourceError}

abbrev pub exit_failure : ℕ
exit_failure = 1

abbrev pub exit_usage : ℕ
exit_usage = 2

-- What a command can fail with. Numbers stand for errors of the operating system.
pub data CommandError : Type 0 where
  bad_mac : Bytes → CommandError
  unknown_name : Bytes → CommandError
  requested_twice : Bytes → CommandError
  same_parameter : Bytes → Bytes → CommandError
  bad_flag : Bytes → ValueError → CommandError
  cannot_open : ℕ → CommandError
  bad_sources : SourceError → CommandError
  no_client : ℕ → CommandError
  discovery_failed : OpError → CommandError
  not_found : Bytes → CommandError
  no_reply : Bytes → CommandError
  operation_failed : Bytes → OpError → CommandError
  reboot_failed : OpError → CommandError
  set_reboot_failed : OpError → CommandError
  exclusive_flags : CommandError
  no_interfaces : ℕ → CommandError
  unusable_interface : Bytes → CommandError
  unsupported_format : Bytes → Bytes → Bytes → CommandError
  bad_invocation : Bytes → CommandError
  verbose_with : Bytes → CommandError

-- `ExitError`
pub record ExitError : Type 0 where
  pub code : ℕ
  pub cause : CommandError

abbrev pub usage : CommandError → ExitError
usage e = record { code = exit_usage; cause = e }

abbrev pub failure : CommandError → ExitError
failure e = record { code = exit_failure; cause = e }

-- `deviceOpError`: a deadline reads as a missing reply, a cancellation does not.
unfoldable pub device_op_error : Bytes → OpError → ExitError
device_op_error mac (recv_failed deadline_exceeded) = failure (no_reply mac)
device_op_error mac e = failure (operation_failed mac e)

-- `ExitCode`: the errors of the commands are all of the type `ExitError`.
unfoldable pub exit_code : {A : Type 0} → Result ExitError A → ℕ
exit_code (ok a) = 0
exit_code (err e) = e.code

-- A run that was begun: it succeeds, or fails with the exit code 1.
abbrev pub IsRun : {A : Type 0} → Result ExitError A → Type 0
IsRun (ok a) = Unit
IsRun (err e) = e.code ≡ 1
