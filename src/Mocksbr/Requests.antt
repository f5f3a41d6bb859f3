-- ===== src/Mocksbr/Requests.antt =====
-- mocksbr/responses.go: the request parsers.
pub mod RoundTrip
use go_udap.Prelude.{ℕ, zero, suc, List, [], ◌∷◌, ltb, ◌==◌, if◌then◌else◌, length, take, drop}
use go_udap.Prelude.Bytes.{Bytes, from_be16}
use go_udap.Udap.Parameters.Table.{Parameter, parameters}

abbrev pub cred_size : ℕ
cred_size = 32

-- The loop of `parameterByOffset`: the first entry at the offset, or the empty name.
name_at : ℕ → List Parameter → Bytes
name_at offset [] = []
name_at offset (p ∷ ps) = if p.offset == offset then p.name else name_at offset ps

unfoldable pub parameter_by_offset : ℕ → Bytes
unfolding name_at parameters
parameter_by_offset offset = name_at offset parameters

-- `getDataItem`
pub record GetDataItem : Type 0 where
  pub offset : ℕ
  pub len : ℕ
  pub name : Bytes

-- The loop over `count` items on the bytes from `pos` on; it ends early on a short payload.
unfoldable pub get_data_loop : ℕ → Bytes → List GetDataItem
get_data_loop zero rest = []
get_data_loop (suc n) (o0 ∷ o1 ∷ l0 ∷ l1 ∷ rest) =
    record {
      offset = from_be16 o0 o1;
      len = from_be16 l0 l1;
      name = parameter_by_offset (from_be16 o0 o1);
    }
    ∷ get_data_loop n rest
get_data_loop (suc n) rest = []

abbrev counted_get : Bytes → List GetDataItem
counted_get (c0 ∷ c1 ∷ rest) = get_data_loop (from_be16 c0 c1) rest
counted_get rest = []

-- A payload shorter than the credentials and the count has no items.
unfoldable pub parse_get_data_request : Bytes → List GetDataItem
parse_get_data_request payload = counted_get (drop cred_size payload)

-- `setDataItem`
pub record SetDataItem : Type 0 where
  pub offset : ℕ
  pub len : ℕ
  pub value : Bytes
  pub name : Bytes

unfoldable pub set_data_loop : ℕ → Bytes → List SetDataItem
set_data_loop zero rest = []
set_data_loop (suc n) (o0 ∷ o1 ∷ l0 ∷ l1 ∷ rest) =
    let ofs = from_be16 o0 o1 in
    let ln = from_be16 l0 l1 in
    let more = set_data_loop n (drop ln rest) in
    if ltb (length rest) ln
    then []
    else record { offset = ofs; len = ln; value = take ln rest; name = parameter_by_offset ofs }
      ∷ more
set_data_loop (suc n) rest = []

abbrev counted_set : Bytes → List SetDataItem
counted_set (c0 ∷ c1 ∷ rest) = set_data_loop (from_be16 c0 c1) rest
counted_set rest = []

unfoldable pub parse_set_data_request : Bytes → List SetDataItem
parse_set_data_request payload = counted_set (drop cred_size payload)
