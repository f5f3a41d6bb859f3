-- ===== src/Go/Json/RoundTrip/Steps.antt =====
-- One step of the reader over what one step of `json.Marshal` wrote.
use go_udap.Prelude.{
  ℕ, zero, suc, ◌≡◌, refl, ◌<◌, ◌≤◌, Bool, true, false, [], ◌∷◌, ◌++◌, some, length, length-append,
  arith, append_assoc,
}
use go_udap.Prelude.Bytes.{Bytes}
use go_udap.Go.Strconv.{format_uint}
use go_udap.Go.Scan.{is_digit, read_digits, ends_number, read_digits-format_uint, format_uint_first}
use go_udap.Go.Json.{
  Json, null, bool, num, str, arr, obj, Items, nil, cons, Fields, end, field, quote_loop,
  json_string, comma_unless, marshal, marshal_items, marshal_fields,
}
use go_udap.Go.Json.Reader.{
  starts_with, read_text, expect, expect_comma_unless, lead, read_value, read_items, read_fields,
  number,
}
use go_udap.Go.Json.RoundTrip.Texts.{IsAscii, length-quote_loop, read_text-json_string}

number_value_cons :
    (n f c : ℕ) (s rest : Bytes)
    → format_uint n ≡ c ∷ s
    → b'0' ≤ c
    → c ≤ b'9'
    → ends_number rest ≡ true
    → read_value (suc f) (format_uint n ++ rest) ≡ some (num n, rest)
number_value_cons n f c s rest q lo hi h =
    let is_number : lead c ≡ number = unfold lead in ground arith in
    let digits : read_digits (c ∷ (s ++ rest)) 0 ≡ (n, rest) =
      rw q at (read_digits-format_uint n rest h) in
    rw q (unfold read_value in ground (arith, is_number, digits))

number_value :
    (n f : ℕ) (rest : Bytes)
    → ends_number rest ≡ true
    → read_value (suc f) (format_uint n ++ rest) ≡ some (num n, rest)
number_value n f rest h =
    let (c, s, q, lo, hi) = format_uint_first n in number_value_cons n f c s rest q lo hi h

-- The rest that stands behind an element, or behind a field's value.
pub more_items_end :
    (xs : Items) (rest : Bytes) → ends_number (marshal_items false xs ++ rest) ≡ true
unfolding marshal_items is_digit
more_items_end nil rest = refl
more_items_end (cons v xs) rest = refl

pub more_fields_end :
    (fs : Fields) (rest : Bytes) → ends_number (marshal_fields false fs ++ rest) ≡ true
unfolding marshal_fields is_digit
more_fields_end end rest = refl
more_fields_end (field k v fs) rest = refl

text_length :
    (s rest : Bytes) → IsAscii s → length s < length (quote_loop (length s) s ++ b'"' ∷ rest)
text_length s rest a =
    omega (
      arith,
      length-quote_loop (length s) s a,
      length-append (quote_loop (length s) s) (b'"' ∷ rest),
    )

pub str_value :
    (s : Bytes) (f : ℕ) (rest : Bytes)
    → IsAscii s
    → read_value (suc f) (marshal (str s) ++ rest) ≡ some (str s, rest)
unfolding marshal json_string
str_value s f rest a =
    rw (append_assoc (quote_loop (length s) s) (b'"' ∷ []) rest)
      (unfold read_value in rw (read_text-json_string s rest _ a (text_length s rest a)) refl)

pub arr_value :
    (xs : Items) (f : ℕ) (rest : Bytes)
    → read_items f true (marshal_items true xs ++ rest) ≡ some (xs, rest)
    → read_value (suc f) (marshal (arr xs) ++ rest) ≡ some (arr xs, rest)
unfolding marshal read_value
arr_value xs f rest h = rw h refl

pub obj_value :
    (fs : Fields) (f : ℕ) (rest : Bytes)
    → read_fields f true (marshal_fields true fs ++ rest) ≡ some (fs, rest)
    → read_value (suc f) (marshal (obj fs) ++ rest) ≡ some (obj fs, rest)
unfolding marshal read_value
obj_value fs f rest h = rw h refl

-- No value begins like the end of a list.
number_start :
    (c : ℕ) (s t : Bytes)
    → t ≡ c ∷ s
    → c ≤ b'9'
    → (rest : Bytes) → starts_with b']' (t ++ rest) ≡ false
number_start c s t q hi rest = rw q (ground arith)

marshal_start : (j : Json) (rest : Bytes) → starts_with b']' (marshal j ++ rest) ≡ false
unfolding marshal json_string
marshal_start null rest = refl
marshal_start (bool true) rest = refl
marshal_start (bool false) rest = refl
marshal_start (num n) rest =
    let (c, s, q, lo, hi) = format_uint_first n in number_start c s (format_uint n) q hi rest
marshal_start (str s) rest = refl
marshal_start (arr xs) rest = refl
marshal_start (obj fs) rest = refl

expect_byte : (c : ℕ) (s : Bytes) → expect (c ∷ []) (c ∷ s) ≡ some s
unfolding expect
expect_byte c s = ground arith

-- One round of the readers of lists and of structs.
module _ (f : ℕ) (first : Bool) (s s1 s2 s3 : Bytes) where
  read_items_step :
      (v : Json) (xs : Items)
      → starts_with b']' s ≡ false
      → expect_comma_unless first s ≡ some s1
      → read_value f s1 ≡ some (v, s2)
      → read_items f false s2 ≡ some (xs, s3)
      → read_items (suc f) first s ≡ some (cons v xs, s3)
  unfolding read_items
  read_items_step v xs go comma hv hx = rw (go, read_items) (rw comma (rw hv (rw hx refl)))

  read_fields_step :
      (k : Bytes) (v : Json) (fs : Fields) (t t' u : Bytes)
      → starts_with b'}' s ≡ false
      → expect_comma_unless first s ≡ some s1
      → expect (b'"' ∷ []) s1 ≡ some t
      → read_text (length t) t ≡ some (k, t')
      → expect (b':' ∷ []) t' ≡ some u
      → read_value f u ≡ some (v, s2)
      → read_fields f false s2 ≡ some (fs, s3)
      → read_fields (suc f) first s ≡ some (field k v fs, s3)
  unfolding read_items
  read_fields_step k v fs t t' u go comma q hk c hv hx =
      rw (go, read_fields) (rw comma (rw q (rw hk (rw c (rw hv (rw hx refl))))))

pub cons_items :
    (v : Json) (xs : Items) (first : Bool) (f : ℕ) (rest : Bytes)
    → read_value f (marshal v ++ (marshal_items false xs ++ rest))
      ≡ some (v, marshal_items false xs ++ rest)
    → read_items f false (marshal_items false xs ++ rest) ≡ some (xs, rest)
    → read_items (suc f) first (marshal_items first (cons v xs) ++ rest) ≡ some (cons v xs, rest)
unfolding marshal_items
cons_items v xs true f rest hv hx =
    rw (append_assoc (marshal v) (marshal_items false xs) rest)
      (read_items_step f true _ _ _ rest v xs (marshal_start v _) refl hv hx)
cons_items v xs false f rest hv hx =
    rw (append_assoc (marshal v) (marshal_items false xs) rest)
      (read_items_step f false _ _ _ rest v xs refl (expect_byte b',' _) hv hx)

-- A struct's field behind the comma.
field_text : (k : Bytes) (v : Json) (fs : Fields) (rest : Bytes) → Bytes
field_text k v fs rest =
    b'"'
    ∷ (quote_loop (length k) k ++ (b'"' ∷ b':' ∷ (marshal v ++ (marshal_fields false fs ++ rest))))

marshal_field :
    (k : Bytes) (v : Json) (fs : Fields) (first : Bool) (rest : Bytes)
    → marshal_fields first (field k v fs) ++ rest ≡ comma_unless first ++ field_text k v fs rest
unfolding marshal_fields json_string field_text
marshal_field k v fs true rest = simp append_assoc
marshal_field k v fs false rest = simp append_assoc

module _ (k : Bytes) (v : Json) (fs : Fields) (f : ℕ) (rest : Bytes) (a : IsAscii k)
    (hv : read_value f (marshal v ++ (marshal_fields false fs ++ rest))
      ≡ some (v, marshal_fields false fs ++ rest))
    (hx : read_fields f false (marshal_fields false fs ++ rest) ≡ some (fs, rest)) where
  field_fields_at :
      (first : Bool) (s : Bytes)
      → starts_with b'}' s ≡ false
      → expect_comma_unless first s ≡ some (field_text k v fs rest)
      → read_fields (suc f) first s ≡ some (field k v fs, rest)
  unfolding field_text
  field_fields_at first s go comma =
      read_fields_step f first s _ _ rest k v fs _ _ _ go comma (expect_byte b'"' _)
        (read_text-json_string k _ _ a (text_length k _ a)) (expect_byte b':' _) hv hx

  pub field_fields :
      (first : Bool)
      → read_fields (suc f) first (marshal_fields first (field k v fs) ++ rest)
        ≡ some (field k v fs, rest)
  field_fields true =
      rw (marshal_field k v fs true rest) (field_fields_at true _ (unfold field_text in refl) refl)
  field_fields false =
      rw (marshal_field k v fs false rest) (field_fields_at false _ refl (expect_byte b',' _))

module _ (rest : Bytes) where
  pub null_value : (f : ℕ) → 1 ≤ f → read_value f (marshal null ++ rest) ≡ some (null, rest)
  unfolding marshal read_value
  null_value zero le = absurd (omega arith)
  null_value (suc f) le = refl

  pub bool_value :
      (b : Bool) (f : ℕ) → 1 ≤ f → read_value f (marshal (bool b) ++ rest) ≡ some (bool b, rest)
  unfolding marshal read_value
  bool_value b zero le = absurd (omega arith)
  bool_value true (suc f) le = refl
  bool_value false (suc f) le = refl

pub num_value :
    (n f : ℕ) (rest : Bytes)
    → ends_number rest ≡ true
    → 1 ≤ f
    → read_value f (marshal (num n) ++ rest) ≡ some (num n, rest)
unfolding marshal
num_value n zero rest e le = absurd (omega arith)
num_value n (suc f) rest e le = number_value n f rest e

pub nil_items :
    (first : Bool) (f : ℕ) (rest : Bytes)
    → 1 ≤ f
    → read_items f first (marshal_items first nil ++ rest) ≡ some (nil, rest)
unfolding marshal_items read_items
nil_items first zero rest le = absurd (omega arith)
nil_items first (suc f) rest le = refl

pub end_fields :
    (first : Bool) (f : ℕ) (rest : Bytes)
    → 1 ≤ f
    → read_fields f first (marshal_fields first end ++ rest) ≡ some (end, rest)
unfolding marshal_fields read_fields
end_fields first zero rest le = absurd (omega arith)
end_fields first (suc f) rest le = refl
