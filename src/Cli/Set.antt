-- ===== src/Cli/Set.antt =====
-- cli/set.go up to the device, and cli/set_interface_default.go.
pub mod Interface
use go_udap.Prelude.{
  ℕ, not, List, [], ◌∷◌, Bool, Option, none, some, if◌then◌else◌, length, ◌==◌, Result, ok, err,
  ◌>>=◌,
}
use go_udap.Prelude.Bytes.{Bytes, bytes_eq, codes}
use go_udap.Prelude.Dict.{Dict, get, put}
use go_udap.Go.Lines.{Reader}
use go_udap.Udap.Parameters.Table.{Parameter, parameters, parameter_by_name, flag_name}
use go_udap.Udap.Validation.{validate_parameter}
use go_udap.Cli.Errors.{CommandError, bad_flag, cannot_open, bad_sources}
use go_udap.Cli.Output.{read_or_empty}
use go_udap.Cli.Source.{SourceInputs, SourceError, Warned, merge_sources}

-- The loop over the flag table; `given` holds the flags on the command line, by their names.
unfoldable pub collect_flags :
    List Parameter → Dict Bytes → Dict Bytes → Result CommandError (Dict Bytes)
collect_flags [] given values = ok values
collect_flags (p ∷ ps) given values = elim (get (flag_name p) given) [
  | none ↦ collect_flags ps given values
  | some v ↦ elim (validate_parameter p.name v) [
    | err e ↦ err (bad_flag (flag_name p) e)
    | ok u ↦ collect_flags ps given (put p.name v values)
  ]
]

-- What `set` is given: its flags, the `--config` path, whether to reboot, standard input, and what
-- the file system has at a path. Numbers stand for errors of the operating system.
pub record SetInputs : Type 0 where
  pub given : Dict Bytes
  pub config_path : Bytes
  pub reboot : Bool
  pub open_file : Bytes → Result ℕ Reader
  pub stdin_reader : Reader
  pub stdin_piped : Bool

-- `--config`: the content and its label.
unfoldable pub config_source : SetInputs → Result CommandError (Option Reader × Bytes)
config_source i =
    if bytes_eq i.config_path (codes "-")
    then ok (some i.stdin_reader, codes "-")
    else if not (length i.config_path == 0)
    then (elim (i.open_file i.config_path) [
      | err n ↦ err (cannot_open n)
      | ok file ↦ ok (some file, i.config_path)
    ])
    else ok (none, [])

unfoldable pub source_inputs : SetInputs → Dict Bytes → Option Reader × Bytes → SourceInputs
source_inputs i flags (content, label) = record {
  file_content = content;
  file_label = label;
  stdin_content = if i.stdin_piped then some i.stdin_reader else none;
  stdin_piped = i.stdin_piped;
  flags = flags;
}

abbrev merged_or : Result SourceError (Dict Bytes) × Warned → Result CommandError (Dict Bytes)
merged_or (ok m, warned) = ok m
merged_or (err e, warned) = err (bad_sources e)

-- The parameters to set.
unfoldable pub collect_parameters : SetInputs → Result CommandError (Dict Bytes)
unfolding collect_flags config_source source_inputs
collect_parameters i = do
  flags ← collect_flags parameters i.given []
  config ← config_source i
  merged_or (merge_sources (source_inputs i flags config))

-- `applyInterfaceDefault` for a device with the parameters `known`.
unfoldable pub apply_interface_default : Dict Bytes → Dict Bytes → Dict Bytes
apply_interface_default merged known = elim (get (codes "interface") merged) [
  | some chosen ↦ merged
  | none ↦ elim (parameter_by_name (codes "interface")) [
    | none ↦ merged
    | some p ↦
        if not (bytes_eq (read_or_empty (codes "interface") known) p.factory_default)
        then merged
        else if not (length (read_or_empty (codes "wireless_SSID") merged) == 0)
        then put (codes "interface") (codes "0") merged
        else put (codes "interface") (codes "1") merged
  ]
]
