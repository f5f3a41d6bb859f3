-- ===== src/Udap/Logger.antt =====
-- udap/logger.go: the lines that the structured logger writes. The clock's `15:04:05` and what `%v`
-- prints of the keys and values are parameters.
use go_udap.Prelude.{ℕ, ◌≡◌, refl, List, [], ◌∷◌, ◌++◌, ltb, if◌then◌else◌, ◌==◌}
use go_udap.Prelude.Bytes.{Bytes, codes}

-- `LogLevel`, an `int` with four names.
abbrev log_level_debug : ℕ
log_level_debug = 0

abbrev log_level_info : ℕ
log_level_info = 1

abbrev log_level_warn : ℕ
log_level_warn = 2

abbrev log_level_error : ℕ
log_level_error = 3

-- `LogLevel.String`
unfoldable level_string : ℕ → Bytes
level_string l =
    if l == log_level_debug
    then codes "DEBUG"
    else if l == log_level_info
    then codes "INFO"
    else if l == log_level_warn
    then codes "WARN"
    else if l == log_level_error
    then codes "ERROR"
    else codes "UNKNOWN"

-- `StructuredLogger`, with the lines that its writer was given, the latest first.
pub record StructuredLogger : Type 0 where
  pub level : ℕ
  pub lines : List Bytes

-- `NewStructuredLoggerWith`
unfoldable new_structured_logger : StructuredLogger
new_structured_logger = record { level = log_level_info; lines = [] }

-- `SetLevel`
unfoldable set_level : ℕ → StructuredLogger → StructuredLogger
set_level level l = record l { level = level }

-- The loop over the keys and values; a key without a value is left out.
unfoldable kv_pairs : List Bytes → List Bytes
kv_pairs [] = []
kv_pairs (k ∷ []) = []
kv_pairs (k ∷ v ∷ rest) = (k ++ (b'=' ∷ v)) ∷ kv_pairs rest

-- `strings.Join(parts, " ")`
unfoldable join : List Bytes → Bytes
join [] = []
join (p ∷ []) = p
join (p ∷ q ∷ ps) = p ++ (b' ' ∷ join (q ∷ ps))

abbrev bracketed : Bytes → Bytes
bracketed s = b'[' ∷ (s ++ b']' ∷ [])

abbrev pairs_part : List Bytes → List Bytes
pairs_part [] = []
pairs_part (p ∷ ps) = (b'(' ∷ (join (p ∷ ps) ++ b')' ∷ [])) ∷ []

-- The line of a message.
unfoldable log_line : ℕ → Bytes → Bytes → List Bytes → Bytes
unfolding level_string kv_pairs join
log_line level time msg keys_and_values =
    join (
      bracketed (level_string level) ∷ bracketed time ∷ msg ∷ pairs_part (kv_pairs keys_and_values))

-- `log`: a message below the logger's level is dropped.
unfoldable log : ℕ → Bytes → Bytes → List Bytes → StructuredLogger → StructuredLogger
unfolding log_line
log level time msg keys_and_values l =
    if ltb level l.level
    then l
    else record l { lines = log_line level time msg keys_and_values ∷ l.lines }

log_test :
    (log log_level_warn
      (codes "10:00:00")
      (codes "skipped")
      (codes "a" ∷ codes "1" ∷ codes "b" ∷ [])
      new_structured_logger).lines
    ≡ codes "[WARN] [10:00:00] skipped (a=1)" ∷ []
unfolding log new_structured_logger
log_test = refl
