-- ===== src/Cli/Root.antt =====
-- cli/cli.go and cli/format.go: what runs in front of every command. What the command library knows of
-- the command line is a record.
use go_udap.Prelude.{
  ℕ, ◌≡◌, inl, inr, Bool, false, not, ◌&&◌, ◌||◌, List, [], ◌∷◌, ◌++◌, Option, Option-cases, none,
  some, ◌==◌, if◌then◌else◌, length, Result, ok, err, arith,
}
use go_udap.Prelude.Bytes.{Bytes, bytes_eq, codes}
use go_udap.Udap.Interfaces.{NetInterface}
use go_udap.Cli.Errors.{
  ExitError, usage, failure, exclusive_flags, no_interfaces, unusable_interface, unsupported_format,
  bad_invocation, exit_failure,
}

-- `bindInterfaceSelection`
pub record BindInterfaceSelection : Type 0 where
  pub name : Bytes
  pub all : Bool

-- What the code asks of a `cobra.Command`: its name, whether it is annotated as one that writes a
-- result, and the annotated reason why it writes none.
pub record Command : Type 0 where
  pub name : Bytes
  pub result : Bool
  pub no_result : Option Bytes

pub record Invocation : Type 0 where
  pub json_changed : Bool
  pub format_changed : Bool
  -- the command and its ancestors, of which the last one is the root
  pub command : Command
  pub ancestors : List Command
  pub shows_version : Bool
  pub selection : BindInterfaceSelection
  pub interfaces : Result ℕ (List NetInterface)

-- `changedFormatFlag`; no flag is the empty text.
unfoldable pub changed_format_flag : Invocation → Bytes
changed_format_flag i =
    if i.json_changed then codes "--json" else if i.format_changed then codes "--format" else []

-- `isHelpOrCompletionRequest`
unfoldable pub is_help_or_completion : Bytes → Bool
is_help_or_completion name =
    bytes_eq name (codes "help")
    || bytes_eq name (codes "__complete")
    || bytes_eq name (codes "__completeNoDesc")

abbrev is_root : List Command → Bool
is_root ancestors = length ancestors == 0

-- `writesResult`
unfoldable pub writes_result : Invocation → Bool
writes_result i = if is_root i.ancestors then i.shows_version else i.command.result

-- `CommandPath` behind the root's name, from the command up.
unfoldable pub command_path : Command → List Command → Bytes
command_path c [] = []
command_path c (root ∷ []) = c.name
command_path c (d ∷ e ∷ rest) = command_path d (e ∷ rest) ++ (b' ' ∷ c.name)

-- `commandName`
unfoldable pub command_name : Invocation → Bytes
unfolding command_path
command_name i = if is_root i.ancestors then i.command.name else command_path i.command i.ancestors

-- The loop of `noOutputReason`, up to the root; no reason is the empty text.
unfoldable pub reason_loop : Command → List Command → Bytes
reason_loop c [] = []
reason_loop c (d ∷ rest) = elim c.no_result [ some reason ↦ reason | none ↦ reason_loop d rest ]

abbrev root_no_result_reason : Bytes
root_no_result_reason = codes "go-udap writes no output without --version or --build-info"

-- `noOutputReason`
unfoldable pub no_output_reason : Invocation → Bytes
unfolding reason_loop
no_output_reason i =
    if is_root i.ancestors then root_no_result_reason else reason_loop i.command i.ancestors

-- `rejectFormatFlag`
unfoldable pub reject_format_flag : Invocation → Option ExitError
unfolding changed_format_flag writes_result is_help_or_completion command_name no_output_reason
reject_format_flag i =
    if (length (changed_format_flag i) == 0)
      || is_help_or_completion i.command.name
      || writes_result i
    then none
    else some
        (usage (unsupported_format (command_name i) (changed_format_flag i) (no_output_reason i)))

unfoldable pub has_name : Bytes → List NetInterface → Bool
has_name name [] = false
has_name name (i ∷ rest) = bytes_eq i.name name || has_name name rest

-- The check of `--bind-interface`.
unfoldable pub check_selection : Invocation → Option ExitError
unfolding has_name
check_selection i =
    if not (length i.selection.name == 0) && i.selection.all
    then some (usage exclusive_flags)
    else if length i.selection.name == 0
    then none
    else elim i.interfaces [
      | err e ↦ some (failure (no_interfaces e))
      | ok found ↦
          if has_name i.selection.name found
          then none
          else some (usage (unusable_interface i.selection.name))
    ]

-- `PersistentPreRunE`: the selection for the commands, or an error.
unfoldable pub persistent_pre_run : Invocation → Result ExitError BindInterfaceSelection
unfolding reject_format_flag check_selection
persistent_pre_run i = elim (reject_format_flag i) [
  | some e ↦ err e
  | none ↦ elim (check_selection i) [ some e ↦ err e | none ↦ ok i.selection ]
]

-- What ends an execution of the command tree: an error of the command library itself, such as an
-- unknown flag, or one of the code's own.
data Failure : Type 0 where
  untyped : Bytes → Failure
  typed : ExitError → Failure

-- `Execute`, behind `ExecuteContext`: an untyped error in front of every command's body is a usage
-- error. The flag says whether a command's body was reached.
unfoldable execute : Bool → Option Failure → Option Failure
execute reached none = none
execute reached (some (typed e)) = some (typed e)
execute reached (some (untyped m)) =
    if reached then some (untyped m) else some (typed (usage (bad_invocation m)))

-- `ExitCode` of what `Execute` returns, as main.go calls it.
unfoldable process_exit : Option Failure → ℕ
process_exit none = 0
process_exit (some (typed e)) = e.code
process_exit (some (untyped m)) = exit_failure

check_selection-exclusive :
    (i : Invocation)
    → check_selection i ≡ none
    → (not (length i.selection.name == 0) && i.selection.all) ≡ false
unfolding check_selection
check_selection-exclusive i h = ground (arith, h)

-- A selection that passes names an interface or asks for all of them, never both.
persistent_pre_run-exclusive :
    (i : Invocation) (s : BindInterfaceSelection)
    → persistent_pre_run i ≡ ok s
    → (not (length i.selection.name == 0) && i.selection.all) ≡ false
unfolding persistent_pre_run
persistent_pre_run-exclusive i s h = elim (Option-cases (reject_format_flag i)) [
  | inr (e, bad) ↦ absurd (ground (arith, bad, h))
  | inl fine ↦ elim (Option-cases (check_selection i)) [
    | inr (e, bad) ↦ absurd (ground (arith, fine, bad, h))
    | inl checked ↦ check_selection-exclusive i checked
  ]
]
