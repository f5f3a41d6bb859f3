-- ===== src/Cli/Get.antt =====
-- cli/get.go: the names that `get` asks for.
use go_udap.Prelude.{List, [], ◌∷◌, map, ◌++◌, none, some, if◌then◌else◌, Result, ok, err}
use go_udap.Prelude.Bytes.{Bytes, bytes_eq}
use go_udap.Prelude.Dict.{Dict, get, put}
use go_udap.Udap.Parameters.Table.{parameter_by_name}
use go_udap.Cli.Errors.{CommandError, unknown_name, requested_twice, same_parameter}
use go_udap.Cli.Output.{ParamValue, read_or_empty, write_text}

-- The loop: `canonical` by requested name, and `requestedAs` by canonical name.
unfoldable pub canonical_loop :
    List Bytes → Dict Bytes → Dict Bytes → Result CommandError (Dict Bytes)
canonical_loop [] requested_as canonical = ok canonical
canonical_loop (name ∷ names) requested_as canonical = elim (parameter_by_name name) [
  | none ↦ err (unknown_name name)
  | some p ↦ elim (get p.name requested_as) [
    | some first ↦
        if bytes_eq first name then err (requested_twice name) else err (same_parameter first name)
    | none ↦ canonical_loop names (put p.name name requested_as) (put name p.name canonical)
  ]
]

-- `canonicalParamNames`
unfoldable pub canonical_param_names : List Bytes → Result CommandError (Dict Bytes)
unfolding canonical_loop
canonical_param_names names = canonical_loop names [] []

-- The result of `get`: the requested parameters in request order.
unfoldable pub get_result : List Bytes → Dict Bytes → Dict Bytes → List ParamValue
get_result names canonical values =
    map (λ p. record { name = p; value = read_or_empty (read_or_empty p canonical) values }) names

-- `getResult.WriteText`
unfoldable pub write_get_text : List ParamValue → Bytes
write_get_text (p ∷ []) = p.value ++ b'\n' ∷ []
write_get_text ps = write_text ps
