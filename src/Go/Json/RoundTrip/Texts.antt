-- ===== src/Go/Json/RoundTrip/Texts.antt =====
-- Texts and numbers that are written are read back.
use go_udap.Prelude.{
  ℕ, zero, suc, ◌/◌, ◌%◌, ◌≡◌, refl, ◌<◌, ◌≤◌, false, [], ◌∷◌, ◌++◌, some, length, length-append,
  All, arith, append_assoc, lt→ltb,
}
use go_udap.Prelude.Bytes.{Bytes}
use go_udap.Go.Hex.{hex_digit, hex_value, hex_value-hex_digit}
use go_udap.Go.Utf8.{decode_rune}
use go_udap.Go.Json.{escape_byte, quote_loop}
use go_udap.Go.Json.Reader.{read_hex, read_char, starts_with, read_text}

abbrev pub IsAscii : Bytes → Type 0
IsAscii = All (λ c. c < 128)

ascii_rune : (c : ℕ) (s : Bytes) → c < 128 → decode_rune c s ≡ (c, 1)
unfolding decode_rune
ascii_rune c [] h = rw (lt→ltb c 128 h)
ascii_rune c (b ∷ []) h = rw (lt→ltb c 128 h)
ascii_rune c (b ∷ d ∷ []) h = rw (lt→ltb c 128 h)
ascii_rune c (b ∷ d ∷ e ∷ s) h = rw (lt→ltb c 128 h)

-- Two hexadecimal digits behind two zeros.
read_hex-hex_digit :
    (c : ℕ) (rest : Bytes)
    → c < 128
    → read_hex (b'0' ∷ b'0' ∷ hex_digit (c / 16) ∷ hex_digit (c % 16) ∷ rest) ≡ some (c, rest)
unfolding read_hex
read_hex-hex_digit c rest h =
    let zero_value : hex_value b'0' ≡ some 0 = unfold hex_value in refl in
    rw
      (
        zero_value,
        hex_value-hex_digit (c / 16) (omega arith),
        hex_value-hex_digit (c % 16) (omega arith),
      )
      (ground arith)

read_char-escape_byte :
    (c : ℕ) (rest : Bytes) → c < 128 → read_char (escape_byte c ++ rest) ≡ some (c, rest)
unfolding read_char escape_byte
read_char-escape_byte c rest h = ground (arith, read_hex-hex_digit c rest)

escape_byte_start : (c : ℕ) (rest : Bytes) → starts_with b'"' (escape_byte c ++ rest) ≡ false
unfolding escape_byte
escape_byte_start c rest = ground arith

escape_byte-length : (c : ℕ) → 1 ≤ length (escape_byte c)
unfolding escape_byte
escape_byte-length c = ground arith

quote_loop_step :
    (n c : ℕ) (s : Bytes) → c < 128 → quote_loop (suc n) (c ∷ s) ≡ escape_byte c ++ quote_loop n s
unfolding quote_loop
quote_loop_step n c s h = rw (ascii_rune c s h, lt→ltb c 128 h) refl

pub length-quote_loop :
    (n : ℕ) (s : Bytes) → IsAscii s → length s ≤ n → length s ≤ length (quote_loop n s)
length-quote_loop n [] a h = omega arith
length-quote_loop zero (c ∷ s) a h = absurd (omega arith)
length-quote_loop (suc n) (c ∷ s) (h, a) le = rw (quote_loop_step n c s h) (
    omega (
      arith,
      length-append (escape_byte c) (quote_loop n s),
      escape_byte-length c,
      length-quote_loop n s a,
    ))

read_text_char :
    (f c : ℕ) (s rest t : Bytes)
    → c < 128
    → read_text f s ≡ some (t, rest)
    → read_text (suc f) (escape_byte c ++ s) ≡ some (c ∷ t, rest)
unfolding read_text
read_text_char f c s rest t h e =
    ground (arith, escape_byte_start c s, read_char-escape_byte c s h, e)

read_text-quote_loop :
    (f n : ℕ) (s rest : Bytes)
    → IsAscii s
    → length s ≤ n
    → length s < f
    → read_text f (quote_loop n s ++ b'"' ∷ rest) ≡ some (s, rest)
read_text-quote_loop zero n s rest a le lt = absurd (omega arith)
read_text-quote_loop (suc f) zero [] rest a le lt = unfold read_text quote_loop in refl
read_text-quote_loop (suc f) (suc n) [] rest a le lt = unfold read_text quote_loop in refl
read_text-quote_loop (suc f) zero (c ∷ s) rest a le lt = absurd (omega arith)
read_text-quote_loop (suc f) (suc n) (c ∷ s) rest (h, a) le lt =
    rw (quote_loop_step n c s h, append_assoc (escape_byte c) (quote_loop n s) (b'"' ∷ rest))
      (read_text_char f c _ rest s h
        (read_text-quote_loop f n s rest a (omega arith) (omega arith)))

-- A text behind its opening quote.
pub read_text-json_string :
    (s rest : Bytes) (f : ℕ)
    → IsAscii s
    → length s < f
    → read_text f (quote_loop (length s) s ++ b'"' ∷ rest) ≡ some (s, rest)
read_text-json_string s rest f a lt = read_text-quote_loop f (length s) s rest a (omega arith) lt
