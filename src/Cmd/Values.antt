-- ===== src/Cmd/Values.antt =====
-- cmd/mocksbr/flags.go: the values of a `--device` flag.
use go_udap.Prelude.{
  ℕ, Bool, true, false, not, ◌||◌, List, [], ◌∷◌, ◌++◌, Option, none, some, ◌==◌, if◌then◌else◌,
  length, Result, ok, err,
}
use Prim.Native.String.{String}
use go_udap.Prelude.Bytes.{Bytes, codes, bytes_eq}
use go_udap.Go.Strings.{to_lower_word}
use go_udap.Go.Space.{trim_space}
use go_udap.Mocksbr.Device.{
  MalformedMode, malformed_none, malformed_oversized_count, malformed_length_exceeds_payload,
  malformed_unknown_method, Op, op_discover, op_get, op_set, op_save, op_reset,
}

pub data FlagError : Type 0 where
  missing_separator : Bytes → FlagError
  not_a_number : Bytes → FlagError
  out_of_range : Bytes → FlagError
  not_a_duration : Bytes → Bytes → FlagError
  not_a_bool : Bytes → FlagError
  unknown_op : Bytes → FlagError
  unknown_mode : Bytes → FlagError
  unknown_key : Bytes → FlagError
  missing_idx : FlagError
  duplicate_idx : ℕ → FlagError

abbrev pub is_one_of : Bytes → List String → Bool
is_one_of s [] = false
is_one_of s (t ∷ ts) = bytes_eq s (codes t) || is_one_of s ts

-- `strings.Split(s, sep)` for one byte
unfoldable pub split : ℕ → Bytes → List Bytes
split sep [] = [] ∷ []
split sep (c ∷ s) =
    let rest = split sep s in
    if c == sep
    then [] ∷ rest
    else elim rest [ [] ↦ (c ∷ []) ∷ [] | field ∷ fields ↦ (c ∷ field) ∷ fields ]

-- The colon, the slash and the bar.
abbrev is_splitter : ℕ → Bool
is_splitter c = (c == b':') || (c == b'/') || (c == b'|')

-- `strings.FieldsFunc`: the fields that are not empty, behind the current one.
unfoldable pub fields_loop : Bytes → Bytes → List Bytes
fields_loop [] [] = []
fields_loop (d ∷ field) [] = (d ∷ field) ∷ []
fields_loop field (c ∷ s) =
    let next = fields_loop [] s in
    let same = fields_loop (field ++ c ∷ []) s in
    if not (is_splitter c) then same else if length field == 0 then next else field ∷ next

-- `strconv.ParseBool`
unfoldable pub parse_bool : Bytes → Option Bool
parse_bool s =
    if is_one_of s ("1" ∷ "t" ∷ "T" ∷ "true" ∷ "TRUE" ∷ "True" ∷ [])
    then some true
    else if is_one_of s ("0" ∷ "f" ∷ "F" ∷ "false" ∷ "FALSE" ∷ "False" ∷ [])
    then some false
    else none

unfoldable pub parse_op : Bytes → Option Op
parse_op s =
    if is_one_of s ("discover" ∷ [])
    then some op_discover
    else if is_one_of s ("get" ∷ [])
    then some op_get
    else if is_one_of s ("set" ∷ [])
    then some op_set
    else if is_one_of s ("save" ∷ [])
    then some op_save
    else if is_one_of s ("reset" ∷ [])
    then some op_reset
    else none

unfoldable pub parse_ops : List Bytes → Result FlagError (List Op)
parse_ops [] = ok []
parse_ops (p ∷ ps) = elim (parse_op (to_lower_word (trim_space p))) [
  | none ↦ err (unknown_op p)
  | some op ↦ elim (parse_ops ps) [ err e ↦ err e | ok ops ↦ ok (op ∷ ops) ]
]

-- `parseFailOn`
unfoldable pub parse_fail_on : Bytes → Result FlagError (List Op)
parse_fail_on val = parse_ops (fields_loop [] val)

-- `parseMalformed`
unfoldable pub parse_malformed : Bytes → Result FlagError MalformedMode
parse_malformed val =
    let mode = to_lower_word (trim_space val) in
    if is_one_of mode ("" ∷ "none" ∷ [])
    then ok malformed_none
    else if is_one_of mode ("oversized-count" ∷ "oversized_count" ∷ "oversizedcount" ∷ [])
    then ok malformed_oversized_count
    else if is_one_of mode
        ("length-exceeds-payload" ∷ "length_exceeds_payload" ∷ "lengthexceedspayload" ∷ [])
    then ok malformed_length_exceeds_payload
    else if is_one_of mode ("unknown-method" ∷ "unknown_method" ∷ "unknownmethod" ∷ [])
    then ok malformed_unknown_method
    else err (unknown_mode val)
