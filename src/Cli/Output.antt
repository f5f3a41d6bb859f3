-- ===== src/Cli/Output.antt =====
-- cli/output.go: the parameter list that `read`, `set` and `get` write, and cli/read.go's filter.
pub mod Render
pub mod Sorted
pub mod Devices
pub mod Formats
pub mod Networks
pub mod Objects
use go_udap.Prelude.{
  All, ℕ, ◌≡◌, refl, Bool, false, ◌||◌, List, [], ◌∷◌, ◌++◌, map, Option, none, some, if◌then◌else◌,
}
use go_udap.Prelude.Bytes.{Bytes, bytes_eq, codes}
use go_udap.Prelude.Dict.{Dict, get}
use go_udap.Prelude.Sort.Texts.{sorted}
use go_udap.Go.Strings.{has_prefix, text_lt}
use go_udap.Udap.Parameters.Table.{Parameter, parameter_by_name}

-- `paramValue`
pub record ParamValue : Type 0 where
  pub name : Bytes
  pub value : Bytes

-- Entries with different names.
abbrev pub IsDistinct : List ParamValue → Type 0
IsDistinct [] = Unit
IsDistinct (p ∷ ps) = All (λ q. bytes_eq p.name q.name ≡ false) ps × IsDistinct ps

abbrev pub as_pair : ParamValue → Bytes × Bytes
as_pair p = (p.name, p.value)

-- `m[k]`, with the empty string for a missing key.
unfoldable pub read_or_empty : Bytes → Dict Bytes → Bytes
read_or_empty k m = elim (get k m) [ none ↦ [] | some v ↦ v ]

-- `sortedParams`
unfoldable pub sorted_params : Dict Bytes → List ParamValue
sorted_params m =
    map (λ k. record { name = k; value = read_or_empty k m }) (sorted text_lt (map (λ e. e.0) m))

-- One line of `paramList.WriteText`.
abbrev pub param_line : ParamValue → Bytes
param_line p = p.name ++ (b'=' ∷ p.value)

-- `paramList.WriteText`
unfoldable pub write_text : List ParamValue → Bytes
write_text [] = []
write_text (p ∷ ps) = param_line p ++ (b'\n' ∷ write_text ps)

-- Whether `filterReadOutput` leaves an entry out.
unfoldable pub is_dropped : Bytes → Bytes → Bool
is_dropped k v =
    has_prefix k (codes "offset_")
    || elim (parameter_by_name k) [ none ↦ false | some p ↦ bytes_eq v p.factory_default ]

-- `filterReadOutput`
unfoldable pub filter_read_output : Dict Bytes → Dict Bytes
filter_read_output [] = []
filter_read_output ((k, v) ∷ m) =
    let rest = filter_read_output m in if is_dropped k v then rest else (k, v) ∷ rest
