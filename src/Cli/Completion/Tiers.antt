-- ===== src/Cli/Completion/Tiers.antt =====
-- When a completion of MAC addresses takes its time, and what it offers.
use go_udap.Prelude.{
  ℕ, ◌-◌, ◌^◌, ◌<◌, ◌≡◌, [], Option, ltb, ◌==◌, ◌&&◌, not, false, if◌then◌else◌, length, Result, ok,
  err, arith,
}
use go_udap.Go.Scan.{sscan_int-format_uint}
use go_udap.Udap.Client.{Client}
use go_udap.Udap.Transport.{Transport}
use go_udap.Cli.Completion.{
  StateFile, cold, default_timeout, fresh_for, next_mac_timeout, record_mac_attempt, complete_with,
  complete_macs, offers_of,
}

-- The timeout behind an attempt that was recorded at some time.
abbrev pub timeout_after : ℕ → ℕ → ℕ → ℕ
timeout_after count recorded now =
    if (count == 0) && not (ltb fresh_for (now - recorded)) then default_timeout else cold

pub next_mac_timeout-record_mac_attempt :
    (now later count : ℕ) (file : Option StateFile)
    → count < 2 ^ 63
    → next_mac_timeout later (record_mac_attempt false now count file)
      ≡ timeout_after count now later
unfolding next_mac_timeout record_mac_attempt
next_mac_timeout-record_mac_attempt now later count file lt =
    rw (sscan_int-format_uint count lt) (ground arith)

module _ {S : Type 0} (t : Transport S) where
  complete_with-next :
      (now later : ℕ) (file : Option StateFile) (r : Result ℕ (Client S))
      → length (complete_with t false now file r).0.0 < 2 ^ 63
      → next_mac_timeout later (complete_with t false now file r).1
        ≡ timeout_after (length (complete_with t false now file r).0.0) now later
  unfolding complete_with
  complete_with-next now later file (err e) lt =
      next_mac_timeout-record_mac_attempt now later 0 file lt
  complete_with-next now later file (ok c) lt =
      next_mac_timeout-record_mac_attempt now later (length (offers_of t c)) file lt

  -- Behind a completion of the first word, whose attempt is recorded and which offers fewer than 2^63
  -- addresses, the next one takes the long timeout exactly if this one offered nothing, which
  -- includes that there was no client, and is at most ten seconds ago; else the short one.
  pub complete_macs-next :
      (new_client : ℕ → Result ℕ (Client S)) (now later : ℕ) (file : Option StateFile)
      → length (complete_macs t new_client false now file []).0.0 < 2 ^ 63
      → next_mac_timeout later (complete_macs t new_client false now file []).1
        ≡ timeout_after (length (complete_macs t new_client false now file []).0.0) now later
  unfolding complete_macs
  complete_macs-next new_client now later file lt =
      complete_with-next now later file (new_client (next_mac_timeout now file)) lt
