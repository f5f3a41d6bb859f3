-- ===== src/Go/Json/RoundTrip/Sizes.antt =====
-- What `json.Marshal` writes is long enough for the reader's fuel.
use go_udap.Prelude.{
  ℕ, suc, ◌+◌, ◌*◌, ◌≤◌, ap, Bool, true, false, ◌∷◌, ◌++◌, length, length-append, arith,
}
use go_udap.Prelude.Bytes.{Bytes}
use go_udap.Go.Scan.{format_uint_first}
use go_udap.Go.Json.{
  Json, null, bool, num, str, arr, obj, Items, nil, cons, Fields, end, field, json_string, marshal,
  marshal_items, marshal_fields,
}

-- The fuel that the reader takes.
unfoldable mutual
  pub size : Json → ℕ
  size null = 1
  size (bool b) = 1
  size (num n) = 1
  size (str s) = 1
  size (arr xs) = suc (size_items xs)
  size (obj fs) = suc (size_fields fs)

  pub size_items : Items → ℕ
  size_items nil = 1
  size_items (cons v xs) = suc (size v + size_items xs)

  pub size_fields : Fields → ℕ
  size_fields end = 1
  size_fields (field k v fs) = suc (size v + size_fields fs)

marshal_nonempty : (j : Json) → 1 ≤ length (marshal j)
unfolding marshal json_string
marshal_nonempty null = omega arith
marshal_nonempty (bool true) = omega arith
marshal_nonempty (bool false) = omega arith
marshal_nonempty (num n) = let (c, s, q, lo, hi) = format_uint_first n in omega (arith, ap length q)
marshal_nonempty (str s) = omega arith
marshal_nonempty (arr xs) = omega arith
marshal_nonempty (obj fs) = omega arith

length-cons_items :
    (first : Bool) (v : Json) (xs : Items)
    → length (marshal v) + length (marshal_items false xs)
      ≤ length (marshal_items first (cons v xs))
unfolding marshal_items
length-cons_items true v xs = omega (arith, length-append (marshal v) (marshal_items false xs))
length-cons_items false v xs = omega (arith, length-append (marshal v) (marshal_items false xs))

length-field_fields :
    (first : Bool) (k : Bytes) (v : Json) (fs : Fields)
    → length (marshal v) + length (marshal_fields false fs)
      ≤ length (marshal_fields first (field k v fs))
unfolding marshal_fields
length-field_fields true k v fs = omega (
  arith,
  length-append (json_string k) (b':' ∷ (marshal v ++ marshal_fields false fs)),
  length-append (marshal v) (marshal_fields false fs),
)
length-field_fields false k v fs = omega (
  arith,
  length-append (json_string k) (b':' ∷ (marshal v ++ marshal_fields false fs)),
  length-append (marshal v) (marshal_fields false fs),
)

-- What is written is long enough for the reader's fuel.
mutual
  unfolding size marshal

  pub size-marshal : (j : Json) → suc (size j) ≤ 2 * length (marshal j)
  size-marshal null = omega (arith, marshal_nonempty null)
  size-marshal (bool b) = omega (arith, marshal_nonempty (bool b))
  size-marshal (num n) = omega (arith, marshal_nonempty (num n))
  size-marshal (str s) = omega (arith, marshal_nonempty (str s))
  size-marshal (arr xs) = omega (arith, size_items-marshal xs true)
  size-marshal (obj fs) = omega (arith, size_fields-marshal fs true)

  size_items-marshal :
      (xs : Items) (first : Bool) → size_items xs ≤ 2 * length (marshal_items first xs)
  size_items-marshal nil first = omega arith
  size_items-marshal (cons v xs) first =
      omega (arith, length-cons_items first v xs, size-marshal v, size_items-marshal xs false)

  size_fields-marshal :
      (fs : Fields) (first : Bool) → size_fields fs ≤ 2 * length (marshal_fields first fs)
  size_fields-marshal end first = omega arith
  size_fields-marshal (field k v fs) first =
      omega (arith, length-field_fields first k v fs, size-marshal v, size_fields-marshal fs false)
