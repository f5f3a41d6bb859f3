-- ===== src/Cli/Stderr/Terminal.antt =====
-- What the rows of the terminal show, and that each method of `stderrSync` keeps them clean.
use go_udap.Prelude.{
  ◌≡◌, refl, sym, ap, ◌∙◌, Bool, true, false, Bool-cases, List, [], ◌∷◌, ◌==◌, if◌then◌else◌, All,
  inl, inr, arith,
}
use go_udap.Prelude.Bytes.{Bytes}
use go_udap.Cli.Stderr.{
  Chunk, erase_line, bar_text, log_text, StderrSync, Call, logs, draws, clears, call, calls,
}

-- What the cursor's row shows: nothing, the bar, or the begin of what is logged.
pub data Row : Type 0 where
  blank bar unfinished : Row

-- Whether a text ends with a line feed.
abbrev pub ends_line : Bytes → Bool
ends_line [] = false
ends_line (c ∷ []) = c == b'\n'
ends_line (c ∷ d ∷ s) = ends_line (d ∷ s)

-- The row behind what was written, the latest first. The bar's text has no line feed.
abbrev pub row_of : List Chunk → Row
row_of [] = blank
row_of (erase_line ∷ cs) = blank
row_of (bar_text t ∷ cs) = bar
row_of (log_text [] ∷ cs) = row_of cs
row_of (log_text (c ∷ p) ∷ cs) = if ends_line (c ∷ p) then blank else unfinished

abbrev pub is_bar : Row → Bool
is_bar bar = true
is_bar r = false

abbrev pub is_unfinished : Row → Bool
is_unfinished unfinished = true
is_unfinished r = false

-- Nothing is logged on a row that shows the bar, and no bar is drawn over what is logged.
abbrev pub IsClean : List Chunk → Type 0
IsClean [] = Unit
IsClean (erase_line ∷ cs) = IsClean cs
IsClean (bar_text t ∷ cs) = (is_unfinished (row_of cs) ≡ false) × IsClean cs
IsClean (log_text p ∷ cs) = (is_bar (row_of cs) ≡ false) × IsClean cs

-- What is logged, the latest first.
abbrev pub logged : List Chunk → List Bytes
logged [] = []
logged (erase_line ∷ cs) = logged cs
logged (bar_text t ∷ cs) = logged cs
logged (log_text p ∷ cs) = p ∷ logged cs

pub record IsTerminal (s : StderrSync) : Type 0 where
  pub active : s.bar_active ≡ is_bar (row_of s.written)
  pub finished : is_unfinished (row_of s.written) ≡ false
  pub clean : IsClean s.written

-- What is logged ends with a line feed.
abbrev pub AreLines : List Bytes → Type 0
AreLines = All (λ p. ends_line p ≡ true)

abbrev pub IsLineCall : Call → Type 0
IsLineCall (logs p) = ends_line p ≡ true
IsLineCall (draws t) = Unit
IsLineCall clears = Unit

row_of-line : (p : Bytes) (cs : List Chunk) → ends_line p ≡ true → row_of (log_text p ∷ cs) ≡ blank
row_of-line [] cs h = absurd (ground arith)
row_of-line (c ∷ p) cs h = ground (arith, h)

IsTerminal-log :
    (p : Bytes) (cs : List Chunk)
    → ends_line p ≡ true
    → is_bar (row_of cs) ≡ false
    → IsClean cs
    → IsTerminal (record { written = log_text p ∷ cs; bar_active = false })
IsTerminal-log p cs line off clean = record {
  active = ap is_bar (sym (row_of-line p cs line));
  finished = ap is_unfinished (row_of-line p cs line);
  clean = (off, clean);
}

IsTerminal-call : (c : Call) (s : StderrSync) → IsLineCall c → IsTerminal s → IsTerminal (call c s)
unfolding call
IsTerminal-call (logs p) s line h = elim (Bool-cases s.bar_active) [
  | inl on ↦ rw on (IsTerminal-log p (erase_line ∷ s.written) line refl h.clean)
  | inr off ↦ rw off (IsTerminal-log p s.written line (sym h.active ∙ off) h.clean)
]
IsTerminal-call (draws t) s line h = record {
  active = refl;
  finished = refl;
  clean = (h.finished, h.clean);
}
IsTerminal-call clears s line h = elim (Bool-cases s.bar_active) [
  | inl on ↦ rw on (record { active = refl; finished = refl; clean = h.clean })
  | inr off ↦ simp off h
]

pub IsTerminal-calls :
    (cs : List Call) (s : StderrSync) → All IsLineCall cs → IsTerminal s → IsTerminal (calls cs s)
unfolding calls
IsTerminal-calls [] s lines h = h
IsTerminal-calls (c ∷ cs) s (line, lines) h =
    IsTerminal-calls cs (call c s) lines (IsTerminal-call c s line h)
