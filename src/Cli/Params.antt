-- ===== src/Cli/Params.antt =====
-- cli/params.go: the flags for parameters, and the values behind flags. `time.ParseDuration` and
-- `Duration.String` are parameters.
use go_udap.Prelude.{
  ℕ, ◌≡◌, refl, not, ◌&&◌, List, map, Option, none, some, ◌==◌, if◌then◌else◌, length, Result, ok,
  err,
}
use go_udap.Prelude.Bytes.{Bytes, codes}
use go_udap.Go.Strconv.{atoi, parse_uint, format_uint}
use go_udap.Udap.Parameters.Table.{Parameter, parameters, flag_name}

-- `paramFlag`
pub record ParamFlag : Type 0 where
  pub udap_name : Bytes
  pub flag_name : Bytes
  pub placeholder : Bytes
  pub help : Bytes

-- `paramFlags`
unfoldable param_flags : List ParamFlag
param_flags =
    map
      (λ (p : Parameter). record {
        udap_name = p.name;
        flag_name = flag_name p;
        placeholder = p.placeholder;
        help = p.help;
      })
      parameters

-- `Type` of the three values, with the name that it falls back to.
unfoldable value_type : Bytes → Bytes → Bytes
value_type fallback placeholder = if length placeholder == 0 then fallback else placeholder

-- `stringWithPlaceholder`
pub record StringWithPlaceholder : Type 0 where
  pub val : Bytes
  pub placeholder : Bytes

-- `stringWithPlaceholder.Set`
unfoldable set_string : Bytes → StringWithPlaceholder → StringWithPlaceholder
set_string v s = record s { val = v }

-- `durationWithPlaceholder`, for the type `D` of durations
pub record DurationWithPlaceholder (D : Type 0) : Type 0 where
  pub val : D
  pub placeholder : Bytes

-- `durationWithPlaceholder.Set`: the error of the parser, or none, and the value.
unfoldable set_duration :
    {D : Type 0}
    → (Bytes → Result ℕ D)
    → Bytes
    → DurationWithPlaceholder D
    → Option ℕ × DurationWithPlaceholder D
set_duration parse_duration v d = elim (parse_duration v) [
  | err e ↦ (some e, d)
  | ok parsed ↦ (none, record d { val = parsed })
]

pub data IntError : Type 0 where
  not_an_int : Bytes → IntError
  negative_int : IntError

-- `intWithPlaceholder.Set` on the value that its target holds.
unfoldable set_int : Bytes → ℕ → Option IntError × ℕ
set_int v target = elim (atoi v) [
  | none ↦ (some (not_an_int v), target)
  | some (negative, n) ↦ if negative && not (n == 0) then (some negative_int, target) else (none, n)
]

-- `intWithPlaceholder.String`
unfoldable int_string : Option ℕ → Bytes
int_string none = codes "0"
int_string (some n) = format_uint n

int_tests :
    (set_int (codes "3") 7 ≡ (none, 3))
    × (set_int (codes "-1") 7 ≡ (some negative_int, 7))
    × (set_int (codes "x") 7 ≡ (some (not_an_int (codes "x")), 7))
unfolding set_int atoi parse_uint
int_tests = (refl, refl, refl)
