-- ===== src/Go/Json/RoundTrip.antt =====
-- What `json.Marshal` writes of values with ASCII texts is read back.
pub mod Texts
mod Steps
mod Sizes
use go_udap.Prelude.{
  ℕ, zero, suc, ◌+◌, ◌*◌, ◌≡◌, refl, ◌<◌, ◌≤◌, ◌∙◌, ap, sym, Bool, true, false, [], ◌∷◌, ◌++◌,
  Option, none, some, ◌==◌, length, length-append, drop, arith, append_assoc, append-nil,
}
use go_udap.Prelude.Bytes.{Bytes, codes}
use go_udap.Go.Strings.{has_prefix}
use go_udap.Go.Strconv.{format_uint}
use go_udap.Go.Scan.{is_digit, read_digits, ends_number, read_digits-format_uint, format_uint_first}
use go_udap.Go.Json.{
  Json, null, bool, num, str, arr, obj, Items, nil, cons, Fields, end, field, quote_loop,
  json_string, comma_unless, json_bool, marshal, marshal_items, marshal_fields,
}
use go_udap.Go.Json.Reader.{
  starts_with, read_text, expect, expect_comma_unless, lead, read_value, read_items, read_fields,
  read_json, number,
}
use Texts.{IsAscii, length-quote_loop, read_text-json_string}
use Steps.{
  more_items_end, more_fields_end, str_value, arr_value, obj_value, cons_items, null_value,
  bool_value, num_value, nil_items, end_fields, field_fields,
}
use Sizes.{size, size_items, size_fields, size-marshal}

-- Every text of a value is ASCII.
abbrev mutual
  pub IsAsciiJson : Json → Type 0
  IsAsciiJson null = Unit
  IsAsciiJson (bool b) = Unit
  IsAsciiJson (num n) = Unit
  IsAsciiJson (str s) = IsAscii s
  IsAsciiJson (arr xs) = AreAsciiItems xs
  IsAsciiJson (obj fs) = AreAsciiFields fs

  pub AreAsciiItems : Items → Type 0
  AreAsciiItems nil = Unit
  AreAsciiItems (cons v xs) = IsAsciiJson v × AreAsciiItems xs

  pub AreAsciiFields : Fields → Type 0
  AreAsciiFields end = Unit
  AreAsciiFields (field k v fs) = IsAscii k × IsAsciiJson v × AreAsciiFields fs

-- Fuel that is enough is a successor.
spend : {n : ℕ} (P : ℕ → Type 0) → ((f : ℕ) → n ≤ f → P (suc f)) → (f : ℕ) → suc n ≤ f → P f
spend P k zero h = absurd (omega arith)
spend P k (suc f) h = k f (omega arith)

mutual
  unfolding size

  pub read_value-marshal :
      (j : Json) (f : ℕ) (rest : Bytes)
      → IsAsciiJson j
      → size j ≤ f
      → ends_number rest ≡ true
      → read_value f (marshal j ++ rest) ≡ some (j, rest)
  read_value-marshal null f rest a le e = null_value rest f le
  read_value-marshal (bool b) f rest a le e = bool_value rest b f le
  read_value-marshal (num n) f rest a le e = num_value n f rest e le
  read_value-marshal (str s) f rest a le e =
      spend {n = 0} (λ g. read_value g (marshal (str s) ++ rest) ≡ some (str s, rest))
        (λ g _. str_value s g rest a) f le
  read_value-marshal (arr xs) f rest a le e =
      spend (λ g. read_value g (marshal (arr xs) ++ rest) ≡ some (arr xs, rest))
        (λ g le'. arr_value xs g rest (read_items-marshal_items xs true g rest a le')) f le
  read_value-marshal (obj fs) f rest a le e =
      spend (λ g. read_value g (marshal (obj fs) ++ rest) ≡ some (obj fs, rest))
        (λ g le'. obj_value fs g rest (read_fields-marshal_fields fs true g rest a le')) f le

  pub read_items-marshal_items :
      (xs : Items) (first : Bool) (f : ℕ) (rest : Bytes)
      → AreAsciiItems xs
      → size_items xs ≤ f
      → read_items f first (marshal_items first xs ++ rest) ≡ some (xs, rest)
  read_items-marshal_items nil first f rest a le = nil_items first f rest le
  read_items-marshal_items (cons v xs) first f rest (av, a) le =
      spend
        (λ g. read_items g first (marshal_items first (cons v xs) ++ rest) ≡ some (cons v xs, rest))
        (λ g le'.
          cons_items v xs first g rest
            (read_value-marshal v g _ av (omega arith) (more_items_end xs rest))
            (read_items-marshal_items xs false g rest a (omega arith)))
        f le

  pub read_fields-marshal_fields :
      (fs : Fields) (first : Bool) (f : ℕ) (rest : Bytes)
      → AreAsciiFields fs
      → size_fields fs ≤ f
      → read_fields f first (marshal_fields first fs ++ rest) ≡ some (fs, rest)
  read_fields-marshal_fields end first f rest a le = end_fields first f rest le
  read_fields-marshal_fields (field k v fs) first f rest (ak, av, a) le =
      spend
        (λ g.
          read_fields g first (marshal_fields first (field k v fs) ++ rest)
          ≡ some (field k v fs, rest))
        (λ g le'.
          field_fields k v fs g rest ak
            (read_value-marshal v g _ av (omega arith) (more_fields_end fs rest))
            (read_fields-marshal_fields fs false g rest a (omega arith)) first)
        f le

-- A value that is written is read back, with what stands behind it.
pub read_json-marshal :
    (j : Json) (rest : Bytes)
    → IsAsciiJson j
    → ends_number rest ≡ true
    → read_json (marshal j ++ rest) ≡ some (j, rest)
unfolding read_json
read_json-marshal j rest a e =
    read_value-marshal j _ rest a (omega (arith, size-marshal j, length-append (marshal j) rest)) e
