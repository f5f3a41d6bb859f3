-- ===== src/Cli/Stderr/Rows.antt =====
-- No row of the terminal shows both the bar and what is logged, and the bar is gone at the end.
use go_udap.Prelude.{◌≡◌, refl, sym, ap, ◌∙◌, Bool, true, false, List, [], ◌∷◌, All, arith}
use go_udap.Prelude.Bytes.{Bytes}
use go_udap.Cli.Stderr.{
  StderrSync, new_stderr_sync, Call, logs, draws, clears, call, calls, draw_ticks, start_progress,
}
use go_udap.Cli.Stderr.Terminal.{
  ends_line, row_of, is_bar, is_unfinished, IsClean, logged, IsTerminal, AreLines, IsLineCall,
  IsTerminal-calls,
}

-- The goroutine of the bar and the callers of the logger take turns in any order: the calls of the
-- first, what the others log, and all calls.
pub data Turns : List Call → List Bytes → List Call → Type 0 where
  over : Turns [] [] []
  bar_turn :
      (c : Call) (cs : List Call) (ps : List Bytes) (all : List Call)
      → Turns cs ps all
      → Turns (c ∷ cs) ps (c ∷ all)
  log_turn :
      (p : Bytes) (cs : List Call) (ps : List Bytes) (all : List Call)
      → Turns cs ps all
      → Turns cs (p ∷ ps) (logs p ∷ all)

-- The calls of a bar that is off when they are over, from a bar that is on or off.
abbrev IsBar : List Call → Bool → Type 0
IsBar [] on = on ≡ false
IsBar (clears ∷ []) on = Unit
IsBar (clears ∷ c ∷ cs) on = ⊥
IsBar (draws t ∷ cs) on = IsBar cs true
IsBar (logs p ∷ cs) on = ⊥

IsBar-off : (cs : List Call) (on : Bool) → IsBar cs on → IsBar cs false
IsBar-off [] on h = refl
IsBar-off (clears ∷ []) on h = tt
IsBar-off (clears ∷ c ∷ cs) on h = elim h [ ]
IsBar-off (draws t ∷ cs) on h = h
IsBar-off (logs p ∷ cs) on h = elim h [ ]

IsBar-draw_ticks : (ts : List Bytes) (on : Bool) → IsBar (draw_ticks ts) on
unfolding draw_ticks
IsBar-draw_ticks [] on = tt
IsBar-draw_ticks (t ∷ ts) on = IsBar-draw_ticks ts true

IsBar-start_progress : (bars : List Bytes) → IsBar (start_progress bars) false
unfolding start_progress
IsBar-start_progress [] = refl
IsBar-start_progress (t ∷ ts) = IsBar-draw_ticks (t ∷ ts) false

-- The bar logs nothing, so that all that is logged are lines.
Turns-lines :
    (cs : List Call) (ps : List Bytes) (all : List Call) (on : Bool)
    → Turns cs ps all
    → IsBar cs on
    → AreLines ps
    → All IsLineCall all
Turns-lines _ _ _ on over h lines = tt
Turns-lines _ ps _ on (bar_turn (clears) [] _ all t) h lines =
    (tt, Turns-lines [] ps all false t refl lines)
Turns-lines _ ps _ on (bar_turn (clears) (c ∷ cs) _ all t) h lines = elim h [ ]
Turns-lines _ ps _ on (bar_turn (draws b) cs _ all t) h lines =
    (tt, Turns-lines cs ps all true t h lines)
Turns-lines _ ps _ on (bar_turn (logs p) cs _ all t) h lines = elim h [ ]
Turns-lines cs _ _ on (log_turn p _ ps all t) h (line, lines) =
    (line, Turns-lines cs ps all on t h lines)

call_off : (p : Bytes) (s : StderrSync) → (call (logs p) s).bar_active ≡ false
unfolding call
call_off p s = ground arith

clear_off : (s : StderrSync) → (call clears s).bar_active ≡ false
unfolding call
clear_off s = ground arith

-- Behind the turns the bar is off.
Turns-off :
    (cs : List Call) (ps : List Bytes) (all : List Call) (s : StderrSync)
    → Turns cs ps all
    → IsBar cs s.bar_active
    → (calls all s).bar_active ≡ false
unfolding calls
Turns-off _ _ _ s over h = h
Turns-off _ ps _ s (bar_turn (clears) [] _ all t) h =
    Turns-off [] ps all (call clears s) t (clear_off s)
Turns-off _ ps _ s (bar_turn (clears) (c ∷ cs) _ all t) h = elim h [ ]
Turns-off _ ps _ s (bar_turn (draws b) cs _ all t) h =
    Turns-off cs ps all (call (draws b) s) t (unfold call in h)
Turns-off _ ps _ s (bar_turn (logs p) cs _ all t) h = elim h [ ]
Turns-off cs _ _ s (log_turn p _ ps all t) h =
    Turns-off cs ps all (call (logs p) s) t (rw (call_off p s) (IsBar-off cs _ h))

-- What is logged, in order, behind what was.
abbrev pub append_reversed : List Bytes → List Bytes → List Bytes
append_reversed [] out = out
append_reversed (p ∷ ps) out = append_reversed ps (p ∷ out)

logged-call : (p : Bytes) (s : StderrSync) → logged (call (logs p) s).written ≡ p ∷ logged s.written
unfolding call
logged-call p s = ground arith

logged-clear : (s : StderrSync) → logged (call clears s).written ≡ logged s.written
unfolding call
logged-clear s = ground arith

-- The turns log everything, in order.
Turns-logged :
    (cs : List Call) (ps : List Bytes) (all : List Call) (s : StderrSync) (on : Bool)
    → Turns cs ps all
    → IsBar cs on
    → logged (calls all s).written ≡ append_reversed ps (logged s.written)
unfolding calls
Turns-logged _ _ _ s on over h = refl
Turns-logged _ ps _ s on (bar_turn (clears) [] _ all t) h =
    Turns-logged [] ps all (call clears s) false t refl ∙ ap (append_reversed ps) (logged-clear s)
Turns-logged _ ps _ s on (bar_turn (clears) (c ∷ cs) _ all t) h = elim h [ ]
Turns-logged _ ps _ s on (bar_turn (draws b) cs _ all t) h =
    Turns-logged cs ps all (call (draws b) s) true t h
    ∙ ap (append_reversed ps) (unfold call in refl)
Turns-logged _ ps _ s on (bar_turn (logs p) cs _ all t) h = elim h [ ]
Turns-logged cs _ _ s on (log_turn p _ ps all t) h =
    Turns-logged cs ps all (call (logs p) s) on t h ∙ ap (append_reversed ps) (logged-call p s)

new-IsTerminal : IsTerminal new_stderr_sync
unfolding new_stderr_sync
new-IsTerminal = record { active = refl; finished = refl; clean = tt }

-- Whatever the bar of a command and its logger interleave to, on a terminal that neither has written
-- to, if every text that is logged ends with a line feed and the bar's texts have none: nothing is
-- logged on a row that shows the bar, no bar is drawn over what is logged, everything that is logged is
-- written, in order, and when both are done the cursor is on an empty row.
pub calls-start_progress :
    (bars ps : List Bytes) (all : List Call)
    → All (λ p. ends_line p ≡ true) ps
    → Turns (start_progress bars) ps all
    → let s = calls all new_stderr_sync in
      IsClean s.written
      × (logged s.written ≡ append_reversed ps [])
      × (is_bar (row_of s.written) ≡ false)
      × (is_unfinished (row_of s.written) ≡ false)
calls-start_progress bars ps all lines t =
    let bar = IsBar-start_progress bars in
    let h =
      IsTerminal-calls all new_stderr_sync
        (Turns-lines (start_progress bars) ps all false t bar lines) new-IsTerminal in
    let initial : new_stderr_sync.bar_active ≡ false = unfold new_stderr_sync in refl in
    (
      h.clean,
      Turns-logged (start_progress bars) ps all new_stderr_sync false t bar
          ∙ ap (append_reversed ps) (unfold new_stderr_sync in refl),
      sym h.active ∙ Turns-off (start_progress bars) ps all new_stderr_sync t (rw initial bar),
      h.finished,
    )
