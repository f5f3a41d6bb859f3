-- ===== src/Go/Json.antt =====
-- `encoding/json`: the values that the program marshals, and `json.Marshal`, which escapes `<`, `>`
-- and `&` and reads an invalid byte of a text as U+FFFD.
pub mod Reader
pub mod RoundTrip
use go_udap.Prelude.{
  ℕ, zero, suc, ◌/◌, ◌%◌, ◌≡◌, refl, Bool, true, false, ◌&&◌, ◌||◌, [], ◌∷◌, ◌++◌, ◌==◌, ltb, leb,
  if◌then◌else◌, length, take, drop,
}
use go_udap.Prelude.Bytes.{Bytes, codes}
use go_udap.Go.Hex.{hex_digit}
use go_udap.Go.Strconv.{format_uint}
use go_udap.Go.Utf8.{decode_rune}

-- A slice is `arr`, a struct is `obj` with its fields in order, a nil pointer is `null`.
mutual
  pub data Json : Type 0 where
    null : Json
    bool : Bool → Json
    num : ℕ → Json
    str : Bytes → Json
    arr : Items → Json
    obj : Fields → Json

  pub data Items : Type 0 where
    nil : Items
    cons : Json → Items → Items

  pub data Fields : Type 0 where
    end : Fields
    field : Bytes → Json → Fields → Fields

-- An ASCII byte of a text.
unfoldable pub escape_byte : ℕ → Bytes
escape_byte c =
    if (c == b'"') || (c == b'\\')
    then b'\\' ∷ c ∷ []
    else if c == 8
    then codes "\\b"
    else if c == 12
    then codes "\\f"
    else if c == b'\n'
    then codes "\\n"
    else if c == b'\r'
    then codes "\\r"
    else if c == b'\t'
    then codes "\\t"
    else if ltb c 32 || (c == b'<') || (c == b'>') || (c == b'&')
    then b'\\' ∷ b'u' ∷ b'0' ∷ b'0' ∷ hex_digit (c / 16) ∷ hex_digit (c % 16) ∷ []
    else c ∷ []

-- A rune of more than one byte, `size` long, that begins a text.
unfoldable escape_rune : ℕ → ℕ → Bytes → Bytes
escape_rune r size s =
    if (r == 0xFFFD) && (size == 1)
    then codes "\\ufffd"
    else if (r == 0x2028) || (r == 0x2029)
    then codes "\\u202" ++ hex_digit (r % 16) ∷ []
    else take size s

-- The loop over the runes; each takes a byte at least, so the length is enough fuel.
unfoldable pub quote_loop : ℕ → Bytes → Bytes
unfolding escape_byte escape_rune
quote_loop zero s = []
quote_loop (suc n) [] = []
quote_loop (suc n) (c ∷ s) =
    let (r, size) = decode_rune c s in
    (if ltb c 0x80 then escape_byte c else escape_rune r size (c ∷ s))
    ++ quote_loop n (drop size (c ∷ s))

unfoldable pub json_string : Bytes → Bytes
unfolding quote_loop
json_string s = b'"' ∷ (quote_loop (length s) s ++ b'"' ∷ [])

abbrev pub comma_unless : Bool → Bytes
comma_unless true = []
comma_unless false = b',' ∷ []

abbrev pub json_bool : Bool → Bytes
json_bool true = codes "true"
json_bool false = codes "false"

-- `json.Marshal`; the flag says whether an element is the first.
unfoldable mutual
  pub marshal : Json → Bytes
  marshal null = codes "null"
  marshal (bool b) = json_bool b
  marshal (num n) = format_uint n
  marshal (str s) = json_string s
  marshal (arr xs) = b'[' ∷ marshal_items true xs
  marshal (obj fs) = b'{' ∷ marshal_fields true fs

  pub marshal_items : Bool → Items → Bytes
  marshal_items first nil = b']' ∷ []
  marshal_items first (cons v xs) = comma_unless first ++ (marshal v ++ marshal_items false xs)

  pub marshal_fields : Bool → Fields → Bytes
  marshal_fields first end = b'}' ∷ []
  marshal_fields first (field k v fs) =
      comma_unless first ++ (json_string k ++ (b':' ∷ (marshal v ++ marshal_fields false fs)))

marshal_test :
    marshal (obj (field (codes "a<") (str (codes "x\"\n")) (field (codes "n") null end)))
    ≡ codes "{\"a\\u003c\":\"x\\\"\\n\",\"n\":null}"
unfolding marshal json_string format_uint hex_digit decode_rune
marshal_test = refl
