-- ===== src/Go/Utf8.antt =====
-- `for i, ch := range s`: the runes of a text. An invalid byte reads as U+FFFD of width one.
use go_udap.Prelude.{
  ℕ, ◌+◌, ◌-◌, ◌*◌, ◌≡◌, refl, Bool, ◌&&◌, [], ◌∷◌, leb, ltb, ◌==◌, if◌then◌else◌,
}
use go_udap.Prelude.Bytes.{Bytes}

abbrev pub between : ℕ → ℕ → ℕ → Bool
between lo hi c = leb lo c && leb c hi

abbrev rune_error : ℕ × ℕ
rune_error = (0xFFFD, 1)

-- The range of a second byte depends on the first.
abbrev second_ok : ℕ → ℕ → Bool
second_ok a b =
    if a == 0xE0
    then between 0xA0 0xBF b
    else if a == 0xED
    then between 0x80 0x9F b
    else if a == 0xF0
    then between 0x90 0xBF b
    else if a == 0xF4
    then between 0x80 0x8F b
    else between 0x80 0xBF b

rune_2 : ℕ → ℕ → ℕ × ℕ
rune_2 a b =
    if between 0xC2 0xDF a && second_ok a b then ((a - 0xC0) * 64 + (b - 0x80), 2) else rune_error

rune_3 : ℕ → ℕ → ℕ → ℕ × ℕ
unfolding rune_2
rune_3 a b c =
    if between 0xE0 0xEF a && second_ok a b && between 0x80 0xBF c
    then ((a - 0xE0) * 4096 + (b - 0x80) * 64 + (c - 0x80), 3)
    else rune_2 a b

rune_4 : ℕ → ℕ → ℕ → ℕ → ℕ × ℕ
unfolding rune_3
rune_4 a b c d =
    if between 0xF0 0xF4 a && second_ok a b && between 0x80 0xBF c && between 0x80 0xBF d
    then ((a - 0xF0) * 262144 + (b - 0x80) * 4096 + (c - 0x80) * 64 + (d - 0x80), 4)
    else rune_3 a b c

-- The first rune of a text that begins with `a`, and its width.
unfoldable pub decode_rune : ℕ → Bytes → ℕ × ℕ
unfolding rune_4
decode_rune a [] = if ltb a 0x80 then (a, 1) else rune_error
decode_rune a (b ∷ []) = if ltb a 0x80 then (a, 1) else rune_2 a b
decode_rune a (b ∷ c ∷ []) = if ltb a 0x80 then (a, 1) else rune_3 a b c
decode_rune a (b ∷ c ∷ d ∷ s) = if ltb a 0x80 then (a, 1) else rune_4 a b c d

rune_tests :
    (decode_rune 0x41 (0x42 ∷ []) ≡ (0x41, 1))
    × (decode_rune 0xC5 (0x81 ∷ 0x3A ∷ []) ≡ (0x141, 2))
    × (decode_rune 0xE2 (0x82 ∷ 0xAC ∷ []) ≡ (0x20AC, 3))
    × (decode_rune 0x80 [] ≡ (0xFFFD, 1))
unfolding decode_rune
rune_tests = (refl, refl, refl, refl)
