-- ===== src/Cli/Source.antt =====
-- cli/source.go: where the parameters of `set` come from.
pub mod Restore
use go_udap.Prelude.{
  Bool, false, not, ◌&&◌, [], ◌∷◌, Option, none, some, if◌then◌else◌, Result, ok, err,
}
use go_udap.Prelude.Bytes.{Bytes, bytes_eq, codes}
use go_udap.Prelude.Dict.{Dict, copy}
use go_udap.Go.Lines.{Reader}
use go_udap.Cli.Config.{IniError, parse_ini}

pub record SourceInputs : Type 0 where
  pub file_content : Option Reader
  pub file_label : Bytes
  pub stdin_content : Option Reader
  pub stdin_piped : Bool
  pub flags : Dict Bytes

pub data SourceError : Type 0 where
  in_file : Bytes → IniError → SourceError
  in_stdin : IniError → SourceError
  no_parameters : SourceError

-- Whether the warning about an ignored stdin is printed.
abbrev pub Warned : Type 0
Warned = Bool

abbrev label_of : Bytes → Bytes
label_of [] = codes "config"
label_of (c ∷ s) = c ∷ s

-- The parameters of the file or of stdin.
unfoldable pub base_layer : SourceInputs → Result SourceError (Dict Bytes) × Warned
base_layer in_ = elim in_.file_content [
  | some file ↦ elim (parse_ini file) [
    | err e ↦ (err (in_file (label_of in_.file_label) e), false)
    | ok params ↦
        (ok (copy [] params), in_.stdin_piped && not (bytes_eq in_.file_label (codes "-")))
  ]
  | none ↦
      if in_.stdin_piped
      then (elim in_.stdin_content [
        | none ↦ (ok [], false)
        | some stdin ↦ elim (parse_ini stdin) [
          | err e ↦ (err (in_stdin e), false)
          | ok params ↦ (ok (copy [] params), false)
        ]
      ])
      else (ok [], false)
]

abbrev pub some_parameters : Dict Bytes → Result SourceError (Dict Bytes)
some_parameters [] = err no_parameters
some_parameters (e ∷ m) = ok (e ∷ m)

-- `mergeSources`
unfoldable pub merge_sources : SourceInputs → Result SourceError (Dict Bytes) × Warned
merge_sources in_ =
    let (base, warned) = base_layer in_ in
    (elim base [ err e ↦ err e | ok params ↦ some_parameters (copy params in_.flags) ], warned)
