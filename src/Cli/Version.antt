-- ===== src/Cli/Version.antt =====
-- cli/version.go: the root command with its two results. What the Go runtime knows of the build is a
-- parameter.
use go_udap.Prelude.{
  ◌≡◌, refl, Bool, true, false, ◌&&◌, ◌||◌, List, [], ◌∷◌, ◌++◌, map, Option, none, some,
  if◌then◌else◌, Result, ok, err,
}
use go_udap.Prelude.Bytes.{Bytes, codes, bytes_eq}
use go_udap.Go.Fmt.{pad_right}
use go_udap.Go.Utf8.{decode_rune}
use go_udap.Cli.Errors.{ExitError, usage, verbose_with}

-- `versionResult`
pub record VersionResult : Type 0 where
  pub name : Bytes
  pub version : Bytes

abbrev pub version_header : List Bytes
version_header = codes "name" ∷ codes "version" ∷ []

-- `versionResult.WriteText`
unfoldable pub write_version : VersionResult → Bytes
write_version r = r.name ++ (b' ' ∷ (r.version ++ b'\n' ∷ []))

-- `buildInfoResult`
pub record BuildInfoResult : Type 0 where
  pub name : Bytes
  pub version : Bytes
  pub commit : Option Bytes
  pub commit_time : Option Bytes
  pub modified : Option Bool
  pub go_version : Bytes
  pub os : Option Bytes
  pub arch : Option Bytes

-- What the runtime knows: its version, and the settings of `debug.ReadBuildInfo`.
pub record Runtime : Type 0 where
  pub go_version : Bytes
  pub settings : Option (List (Bytes × Bytes))

-- The switch on a setting's key.
unfoldable pub apply_setting : Bytes → Bytes → BuildInfoResult → BuildInfoResult
apply_setting key value r =
    if bytes_eq key (codes "vcs.revision")
    then record r { commit = some value }
    else if bytes_eq key (codes "vcs.time")
    then record r { commit_time = some value }
    else if bytes_eq key (codes "vcs.modified")
    then record r { modified = some (bytes_eq value (codes "true")) }
    else if bytes_eq key (codes "GOOS")
    then record r { os = some value }
    else if bytes_eq key (codes "GOARCH")
    then record r { arch = some value }
    else r

unfoldable pub apply_settings : List (Bytes × Bytes) → BuildInfoResult → BuildInfoResult
unfolding apply_setting
apply_settings [] r = r
apply_settings ((key, value) ∷ settings) r = apply_settings settings (apply_setting key value r)

abbrev pub program_name : Bytes
program_name = codes "go-udap"

-- `newBuildInfoResult`
unfoldable pub new_build_info_result : Bytes → Runtime → BuildInfoResult
unfolding apply_settings
new_build_info_result version rt =
    let r : BuildInfoResult = record {
      name = program_name;
      version = version;
      commit = none;
      commit_time = none;
      modified = none;
      go_version = rt.go_version;
      os = none;
      arch = none;
    } in
    elim rt.settings [ none ↦ r | some settings ↦ apply_settings settings r ]

abbrev pub format_bool : Bool → Bytes
format_bool true = codes "true"
format_bool false = codes "false"

-- `buildField`
pub record BuildField : Type 0 where
  pub label : Bytes
  pub value : Option Bytes

abbrev pub build_field : Bytes → Option Bytes → BuildField
build_field label value = record { label = label; value = value }

-- `fields`
unfoldable pub build_fields : BuildInfoResult → List BuildField
build_fields r =
    build_field (codes "Commit") r.commit
    ∷ build_field (codes "Commit time") r.commit_time
    ∷ build_field (codes "Modified")
        (elim r.modified [ none ↦ none | some b ↦ some (format_bool b) ])
    ∷ build_field (codes "Go version") (some r.go_version)
    ∷ build_field (codes "OS") r.os
    ∷ build_field (codes "Arch") r.arch
    ∷ []

-- The loop of `buildInfoResult.WriteText`.
unfoldable pub write_fields : List BuildField → Bytes
write_fields [] = []
write_fields (f ∷ fs) = elim f.value [
  | none ↦ write_fields fs
  | some v ↦ pad_right 12 (f.label ++ b':' ∷ []) ++ (b' ' ∷ (v ++ (b'\n' ∷ write_fields fs)))
]

-- `buildInfoResult.WriteText`
unfoldable pub write_build_info : BuildInfoResult → Bytes
unfolding write_version build_fields write_fields
write_build_info r =
    write_version (record { name = r.name; version = r.version }) ++ write_fields (build_fields r)

-- `buildInfoResult.CSVRows`
unfoldable pub build_info_cells : BuildInfoResult → List (Option Bytes)
unfolding build_fields
build_info_cells r =
    some r.name ∷ some r.version ∷ map (λ (f : BuildField). f.value) (build_fields r)

abbrev pub build_info_header : List Bytes
build_info_header =
    codes "name"
    ∷ codes "version"
    ∷ codes "commit"
    ∷ codes "commit_time"
    ∷ codes "modified"
    ∷ codes "go_version"
    ∷ codes "os"
    ∷ codes "arch"
    ∷ []

-- What the root command does: it prints one of its results, or the help.
pub data RootOutcome : Type 0 where
  shows_version : VersionResult → RootOutcome
  shows_build_info : BuildInfoResult → RootOutcome
  shows_help : RootOutcome

-- `runRoot`
unfoldable pub run_root : Bool → Bool → Bool → Bytes → Runtime → Result ExitError RootOutcome
run_root verbose build_info version version_text rt =
    if verbose && (build_info || version)
    then err (usage (verbose_with (codes (if build_info then "--build-info" else "--version"))))
    else if build_info
    then ok (shows_build_info (new_build_info_result version_text rt))
    else if version
    then ok (shows_version (record { name = program_name; version = version_text }))
    else ok shows_help

version_test :
    write_build_info (
      new_build_info_result (codes "dev") (record {
        go_version = codes "go1.27";
        settings = some ((codes "GOOS", codes "linux") ∷ (codes "vcs.modified", codes "no") ∷ []);
      }))
    ≡ codes "go-udap dev\nModified:    false\nGo version:  go1.27\nOS:          linux\n"
unfolding write_build_info new_build_info_result bytes_eq pad_right decode_rune
version_test = refl
