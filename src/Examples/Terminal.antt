-- ===== src/Examples/Terminal.antt =====
-- A progress bar and a logger that share a terminal.
use go_udap.Prelude.{◌≡◌, refl, List, [], ◌∷◌, false}
use go_udap.Prelude.Bytes.{Bytes, codes}
use go_udap.Cli.Stderr.{
  Call, logs, draws, clears, StderrSync, new_stderr_sync, calls, call, write, bar_draw, bar_clear,
  start_progress, draw_ticks, erase_line, bar_text, log_text, direct_draw, direct_clear,
}
use go_udap.Cli.Stderr.Terminal.{IsClean, logged, row_of, is_bar, is_unfinished}
use go_udap.Cli.Stderr.Rows.{append_reversed, Turns, over, bar_turn, log_turn, calls-start_progress}

abbrev bars : List Bytes
bars = codes "10%" ∷ codes "20%" ∷ []

abbrev warning : Bytes
warning = codes "[WARN] late\n"

-- The warning comes between the two ticks.
abbrev interleaved : List Call
interleaved = draws (codes "10%") ∷ logs warning ∷ draws (codes "20%") ∷ clears ∷ []

interleaved-Turns : Turns (start_progress bars) (warning ∷ []) interleaved
unfolding start_progress draw_ticks
interleaved-Turns = bar_turn _ _ _ _ (log_turn _ _ _ _ (bar_turn _ _ _ _ (bar_turn _ _ _ _ over)))

abbrev shown : StderrSync
shown = calls interleaved new_stderr_sync

calls-start_progress_example :
    IsClean shown.written
    × (logged shown.written ≡ append_reversed (warning ∷ []) [])
    × (is_bar (row_of shown.written) ≡ false)
    × (is_unfinished (row_of shown.written) ≡ false)
calls-start_progress_example =
    calls-start_progress bars (warning ∷ []) interleaved (refl, tt) interleaved-Turns

writes :
    shown.written
    ≡ erase_line
      ∷ bar_text (codes "20%")
      ∷ log_text warning
      ∷ erase_line
      ∷ bar_text (codes "10%")
      ∷ []
unfolding calls call write bar_draw bar_clear new_stderr_sync
writes = refl

-- Without a logger the bar is drawn and cleared in the same way.
direct :
    (direct_clear (direct_draw (codes "10%") new_stderr_sync)).written
    ≡ erase_line ∷ bar_text (codes "10%") ∷ []
unfolding direct_clear direct_draw new_stderr_sync
direct = refl
