-- ===== src/Go/Strings.antt =====
-- `strings.ToLower` on ASCII text, which leaves other letters as they are, and `strings.HasPrefix`.
use go_udap.Prelude.{
  ℕ, ◌+◌, ◌≡◌, refl, Bool, true, false, ◌&&◌, ◌||◌, ltb, Option, none, some, [], ◌∷◌, map, leb,
  ◌==◌, if◌then◌else◌,
}
use go_udap.Prelude.Bytes.{Bytes, codes}

unfoldable pub lower_byte : ℕ → ℕ
lower_byte c = if leb b'A' c && leb c b'Z' then c + 32 else c

unfoldable pub to_lower : Bytes → Bytes
unfolding lower_byte
to_lower s = map lower_byte s

-- `strings.ToLower`, where the result is compared with ASCII words: of the runes that are not ASCII,
-- only U+0130 and the Kelvin sign U+212A have a lower case that is.
unfoldable pub to_lower_word : Bytes → Bytes
unfolding lower_byte
to_lower_word [] = []
to_lower_word (c ∷ []) = lower_byte c ∷ []
to_lower_word (c ∷ d ∷ []) =
    if (c == 0xC4) && (d == 0xB0) then b'i' ∷ [] else lower_byte c ∷ lower_byte d ∷ []
to_lower_word (c ∷ d ∷ e ∷ s) = elim ((c == 0xC4) && (d == 0xB0)) [
  | true ↦ b'i' ∷ to_lower_word (e ∷ s)
  | false ↦ elim ((c == 0xE2) && ((d == 0x84) && (e == 0xAA))) [
    | true ↦ b'k' ∷ to_lower_word s
    | false ↦ lower_byte c ∷ to_lower_word (d ∷ e ∷ s)
  ]
]

unfoldable pub has_prefix : Bytes → Bytes → Bool
has_prefix s [] = true
has_prefix [] (p ∷ ps) = false
has_prefix (c ∷ s) (p ∷ ps) = (c == p) && has_prefix s ps

strings_tests :
    (to_lower (codes "AbC:9") ≡ codes "abc:9")
    × (has_prefix (codes "offset_12") (codes "offset_") ≡ true)
    × (has_prefix (codes "off") (codes "offset_") ≡ false)
unfolding to_lower has_prefix
strings_tests = (refl, refl, refl)

-- `i := strings.IndexByte(s, sep)` with `s[:i]` and `s[i+1:]`; `none` is a negative index.
unfoldable pub cut_at : ℕ → Bytes → Option (Bytes × Bytes)
cut_at sep [] = none
cut_at sep (c ∷ s) =
    if c == sep
    then some ([], s)
    else elim (cut_at sep s) [ none ↦ none | some (k, v) ↦ some (c ∷ k, v) ]

-- `<` on strings
unfoldable pub text_lt : Bytes → Bytes → Bool
text_lt s [] = false
text_lt [] (d ∷ t) = true
text_lt (c ∷ s) (d ∷ t) = ltb c d || ((c == d) && text_lt s t)
