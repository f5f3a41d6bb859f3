-- ===== src/Examples/Completion.antt =====
-- The completions of the command line at concrete inputs.
use go_udap.Prelude.{◌<◌, ◌^◌, ◌≡◌, [], Option, some, Result, err, ℕ, false, length, arith}
use go_udap.Prelude.Bytes.{codes}
use go_udap.Udap.Client.{Client}
use go_udap.Mocksbr.Transport.{MockTransport, mock_port}
use go_udap.Cli.Completion.{StateFile, complete_macs, complete_with, next_mac_timeout}
use go_udap.Cli.Completion.Tiers.{timeout_after, complete_macs-next}

-- A system that makes no client.
abbrev no_client : ℕ → Result ℕ (Client MockTransport)
no_client timeout = err 13

abbrev old : Option StateFile
old = some (record { modified = 1; content = some (codes "2") })

nothing_offered : length (complete_macs mock_port no_client false 20000 old []).0.0 < 2 ^ 63
unfolding complete_macs complete_with
nothing_offered = omega arith

complete_macs-next_example :
    next_mac_timeout 21000 (complete_macs mock_port no_client false 20000 old []).1
    ≡ timeout_after (length (complete_macs mock_port no_client false 20000 old []).0.0) 20000 21000
complete_macs-next_example = complete_macs-next mock_port no_client 20000 21000 old nothing_offered
