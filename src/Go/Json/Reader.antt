-- ===== src/Go/Json/Reader.antt =====
-- A reader of JSON without blanks, for texts of ASCII: one value, and what stands behind it.
use go_udap.Prelude.{
  ℕ, zero, suc, ◌+◌, ◌*◌, ◌≡◌, refl, Bool, true, false, ◌||◌, [], ◌∷◌, Option, none, some, ◌==◌,
  ltb, if◌then◌else◌, length, drop,
}
use go_udap.Prelude.Bytes.{Bytes, codes}
use go_udap.Go.Hex.{hex_value}
use go_udap.Go.Strings.{has_prefix}
use go_udap.Go.Scan.{read_digits}
use go_udap.Go.Json.{Json, null, bool, num, str, arr, obj, Items, nil, cons, Fields, end, field}

infixl 5 ◌>>=◌ ◌>>◌
abbrev pub ◌>>=◌ : {A B : Type 0} → Option A → (A → Option B) → Option B
none >>= f = none
some a >>= f = f a

abbrev pub ◌>>◌ : {B : Type 0} → Option (Unit {0}) → Option B → Option B
m >> k = m >>= λ _. k

abbrev if_ascii : ℕ → Bytes → Option (ℕ × Bytes)
if_ascii c s = if ltb c 128 then some (c, s) else none

-- The four digits of a `\u` escape; only ASCII is read.
unfoldable pub read_hex : Bytes → Option (ℕ × Bytes)
read_hex (a ∷ b ∷ c ∷ d ∷ s) = do
  w ← hex_value a
  x ← hex_value b
  y ← hex_value c
  z ← hex_value d
  if_ascii (((w * 16 + x) * 16 + y) * 16 + z) s
read_hex s = none

unfoldable pub read_escape : Bytes → Option (ℕ × Bytes)
unfolding read_hex
read_escape [] = none
read_escape (d ∷ s) =
    if (d == b'"') || (d == b'\\') || (d == b'/')
    then some (d, s)
    else if d == b'b'
    then some (8, s)
    else if d == b'f'
    then some (12, s)
    else if d == b'n'
    then some (10, s)
    else if d == b'r'
    then some (13, s)
    else if d == b't'
    then some (9, s)
    else if d == b'u'
    then read_hex s
    else none

-- One character of a text.
unfoldable pub read_char : Bytes → Option (ℕ × Bytes)
unfolding read_escape
read_char [] = none
read_char (c ∷ s) = if c == b'\\' then read_escape s else some (c, s)

abbrev pub starts_with : ℕ → Bytes → Bool
starts_with c [] = false
starts_with c (d ∷ s) = d == c

-- The characters up to the closing quote.
unfoldable pub read_text : ℕ → Bytes → Option (Bytes × Bytes)
unfolding read_char
read_text zero s = none
read_text (suc f) s = elim (starts_with b'"' s) [
  | true ↦ some ([], drop 1 s)
  | false ↦ do (c, rest) ← read_char s; (text, rest') ← read_text f rest; some (c ∷ text, rest')
]

-- The rest behind a word.
unfoldable pub expect : Bytes → Bytes → Option Bytes
unfolding has_prefix
expect word s = if has_prefix s word then some (drop (length word) s) else none

abbrev pub expect_comma_unless : Bool → Bytes → Option Bytes
expect_comma_unless true s = some s
expect_comma_unless false s = expect (b',' ∷ []) s

-- What the first byte of a value tells.
pub data Lead : Type 0 where
  text list object nothing yes_word no_word number : Lead

unfoldable pub lead : ℕ → Lead
lead c =
    if c == b'"'
    then text
    else if c == b'['
    then list
    else if c == b'{'
    then object
    else if c == b'n'
    then nothing
    else if c == b't'
    then yes_word
    else if c == b'f'
    then no_word
    else number

-- What a call leaves is no structural part of its input, so each call costs a unit of fuel.
unfoldable mutual
  unfolding read_text read_digits expect lead

  pub read_value : ℕ → Bytes → Option (Json × Bytes)
  read_value zero s = none
  read_value (suc f) [] = none
  read_value (suc f) (c ∷ s) = elim (lead c) [
    | text ↦ do (t, rest) ← read_text (length s) s; some (str t, rest)
    | list ↦ do (xs, rest) ← read_items f true s; some (arr xs, rest)
    | object ↦ do (fs, rest) ← read_fields f true s; some (obj fs, rest)
    | nothing ↦ do rest ← expect (codes "ull") s; some (null, rest)
    | yes_word ↦ do rest ← expect (codes "rue") s; some (bool true, rest)
    | no_word ↦ do rest ← expect (codes "alse") s; some (bool false, rest)
    | number ↦ let (n, rest) = read_digits (c ∷ s) 0 in some (num n, rest)
  ]

  pub read_items : ℕ → Bool → Bytes → Option (Items × Bytes)
  read_items zero first s = none
  read_items (suc f) first s = elim (starts_with b']' s) [
    | true ↦ some (nil, drop 1 s)
    | false ↦ do
      s1 ← expect_comma_unless first s
      (v, s2) ← read_value f s1
      (xs, s3) ← read_items f false s2
      some (cons v xs, s3)
  ]

  pub read_fields : ℕ → Bool → Bytes → Option (Fields × Bytes)
  read_fields zero first s = none
  read_fields (suc f) first s = elim (starts_with b'}' s) [
    | true ↦ some (end, drop 1 s)
    | false ↦ do
      s1 ← expect_comma_unless first s
      s2 ← expect (b'"' ∷ []) s1
      (k, s3) ← read_text (length s2) s2
      s4 ← expect (b':' ∷ []) s3
      (v, s5) ← read_value f s4
      (fs, s6) ← read_fields f false s5
      some (field k v fs, s6)
  ]

unfoldable pub read_json : Bytes → Option (Json × Bytes)
unfolding read_value
read_json s = read_value (2 * length s) s

read_test :
    read_json (codes "[{\"a\":null,\"b\":true},17,\"\\u003c\"]x")
    ≡ some (
      arr (
          cons
            (obj (field (codes "a") null (field (codes "b") (bool true) end)))
            (cons (num 17) (cons (str (codes "<")) nil))),
      codes "x",
    )
unfolding read_json hex_value
read_test = refl
