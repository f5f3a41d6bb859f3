-- ===== src/Cli/Stderr.antt =====
-- cli/stderr.go and cli/progress.go: the terminal that the logger and the progress bar share. The mutex
-- makes every method one step. The bar's text is a parameter, since it is computed with floats.
pub mod Terminal
pub mod Rows
use go_udap.Prelude.{ℕ, zero, suc, Bool, true, false, List, [], ◌∷◌, ◌++◌, if◌then◌else◌}
use go_udap.Prelude.Bytes.{Bytes}

-- One write to the underlying writer: `ansiEraseLine`, the bar, or what the logger writes.
pub data Chunk : Type 0 where
  erase_line : Chunk
  bar_text : Bytes → Chunk
  log_text : Bytes → Chunk

-- `stderrSync`, with what was written, the latest first.
pub record StderrSync : Type 0 where
  pub written : List Chunk
  pub bar_active : Bool

-- `newStderrSync`
unfoldable pub new_stderr_sync : StderrSync
new_stderr_sync = record { written = []; bar_active = false }

-- `barClear`
unfoldable pub bar_clear : StderrSync → StderrSync
bar_clear s =
    if s.bar_active then record { written = erase_line ∷ s.written; bar_active = false } else s

-- `Write`
unfoldable pub write : Bytes → StderrSync → StderrSync
write p s =
    if s.bar_active
    then record { written = log_text p ∷ erase_line ∷ s.written; bar_active = false }
    else record s { written = log_text p ∷ s.written }

-- `barDraw`
unfoldable pub bar_draw : Bytes → StderrSync → StderrSync
bar_draw t s = record { written = bar_text t ∷ s.written; bar_active = true }

-- A call of one of the methods.
pub data Call : Type 0 where
  logs : Bytes → Call
  draws : Bytes → Call
  clears : Call

unfoldable pub call : Call → StderrSync → StderrSync
unfolding write bar_draw bar_clear
call (logs p) s = write p s
call (draws t) s = bar_draw t s
call clears s = bar_clear s

unfoldable pub calls : List Call → StderrSync → StderrSync
unfolding call
calls [] s = s
calls (c ∷ cs) s = calls cs (call c s)

-- The loop of the goroutine that `startProgress` runs: the bar is drawn on every tick, and cleared
-- when it is stopped.
unfoldable pub draw_ticks : List Bytes → List Call
draw_ticks [] = clears ∷ []
draw_ticks (t ∷ ts) = draws t ∷ draw_ticks ts

-- The goroutine: when it is stopped before the bar appears it writes nothing. `bars` are the texts of
-- the ticks until it is stopped.
unfoldable pub start_progress : List Bytes → List Call
unfolding draw_ticks
start_progress [] = []
start_progress (t ∷ ts) = draw_ticks (t ∷ ts)

-- `directSink`: the same bar without a logger.
unfoldable pub direct_draw : Bytes → StderrSync → StderrSync
direct_draw t s = record { written = bar_text t ∷ s.written; bar_active = true }

unfoldable pub direct_clear : StderrSync → StderrSync
direct_clear s =
    if s.bar_active then record { written = erase_line ∷ s.written; bar_active = false } else s
