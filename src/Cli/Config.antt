-- ===== src/Cli/Config.antt =====
-- cli/config.go: the `key=value` files.
pub mod Lines
pub mod Names
pub mod RoundTrip
pub mod Backup
use go_udap.Prelude.{
  ℕ, suc, ◌+◌, ◌≡◌, refl, Bool, false, not, ◌&&◌, ◌||◌, List, [], ◌∷◌, Option, none, some, ◌==◌,
  if◌then◌else◌, length, Result, ok, err,
}
use go_udap.Prelude.Bytes.{Bytes, bytes_eq, codes}
use go_udap.Prelude.Dict.{Dict, get, put}
use go_udap.Go.Strings.{has_prefix, cut_at}
use go_udap.Go.Space.{trim_space}
use go_udap.Go.Lines.{Reader, ScanError, scan_lines}
use go_udap.Udap.Parameters.Table.{Parameter, parameter_by_name}
use go_udap.Udap.Validation.{ValueError, validate_parameter}

pub data IniError : Type 0 where
  missing_separator : ℕ → IniError
  unknown_parameter : ℕ → Bytes → IniError
  bad_value : ℕ → Bytes → ValueError → IniError
  same_parameter : ℕ → Bytes → Bytes → Bytes → IniError
  read_error : ScanError → IniError

-- `canonicalSeenAt` and `out`
abbrev pub Parsed : Type 0
Parsed = Dict Bytes × Dict Bytes

-- Whether another key has already set the parameter.
unfoldable pub clashes : Option Bytes → Bytes → Bool
clashes none key = false
clashes (some prev) key = not (bytes_eq prev key)

abbrev first_key : Option Bytes → Bytes
first_key none = []
first_key (some prev) = prev

-- A key and its value, both trimmed.
unfoldable pub parse_entry : ℕ → Bytes → Bytes → Parsed → Result IniError Parsed
parse_entry n key value (seen, out) = elim (parameter_by_name key) [
  | none ↦ err (unknown_parameter n key)
  | some p ↦ elim (validate_parameter key value) [
    | err e ↦ err (bad_value n key e)
    | ok u ↦
        if clashes (get p.name seen) key
        then err (same_parameter n (first_key (get p.name seen)) key p.name)
        else ok (put p.name key seen, put key value out)
  ]
]

-- One round of the loop.
unfoldable pub parse_line : ℕ → Bytes → Parsed → Result IniError Parsed
parse_line n line st =
    let trimmed = trim_space line in
    if length trimmed == 0
    then ok st
    else if has_prefix trimmed (codes "#") || has_prefix trimmed (codes ";")
    then ok st
    else elim (cut_at b'=' trimmed) [
      | none ↦ err (missing_separator n)
      | some (key, value) ↦ parse_entry n (trim_space key) (trim_space value) st
    ]

unfoldable pub parse_lines : ℕ → List Bytes → Parsed → Result IniError Parsed
parse_lines n [] st = ok st
parse_lines n (line ∷ lines) st = elim (parse_line n line st) [
  | err e ↦ err e
  | ok st' ↦ parse_lines (suc n) lines st'
]

-- `ParseINI`
unfoldable pub parse_ini : Reader → Result IniError (Dict Bytes)
parse_ini r =
    let (tokens, end) = scan_lines r in
    elim (parse_lines 1 tokens ([], [])) [
      | err e ↦ err e
      | ok (seen, out) ↦ elim end [ none ↦ ok out | some e ↦ err (read_error e) ]
    ]
