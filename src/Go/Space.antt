-- ===== src/Go/Space.antt =====
-- `strings.TrimSpace`, with the Unicode white space of `unicode.IsSpace`, and the last rune of a text.
pub mod Ends
use mathlib.Core.List.{reverse}
use go_udap.Prelude.{
  ℕ, zero, suc, ◌+◌, ◌≡◌, refl, Bool, ◌||◌, [], ◌∷◌, ◌==◌, ltb, if◌then◌else◌, length, drop,
}
use go_udap.Prelude.Bytes.{Bytes, codes}
use go_udap.Go.Utf8.{between, decode_rune}

unfoldable pub is_space : ℕ → Bool
is_space r =
    between 9 13 r
    || (r == 0x20)
    || (r == 0x85)
    || (r == 0xA0)
    || (r == 0x1680)
    || between 0x2000 0x200A r
    || between 0x2028 0x2029 r
    || (r == 0x202F)
    || (r == 0x205F)
    || (r == 0x3000)

-- A rune that has to fill the bytes from its start to the end of the text.
whole : ℕ → Bytes → ℕ × ℕ
whole b tail =
    let (r, size) = decode_rune b tail in if size == 1 + length tail then (r, size) else (0xFFFD, 1)

-- The search for the start of the last rune: `tail` is what was passed, the rest is reversed.
back : ℕ → ℕ → Bytes → Bytes → ℕ × ℕ
unfolding whole
back n b tail [] = whole b tail
back zero b tail (c ∷ rev) = (0xFFFD, 1)
back (suc n) b tail (c ∷ rev) =
    let more = back n c (b ∷ tail) rev in if between 0x80 0xBF c then more else whole c (b ∷ tail)

-- `utf8.DecodeLastRuneInString` of a reversed text.
unfoldable pub last_rune : Bytes → ℕ × ℕ
unfolding back
last_rune [] = (0xFFFD, 0)
last_rune (c ∷ rev) = if ltb c 0x80 then (c, 1) else back 3 c [] rev

-- Each round drops at least a byte, so the length is enough fuel.
unfoldable pub trim_left : ℕ → Bytes → Bytes
trim_left zero s = s
trim_left (suc n) [] = []
trim_left (suc n) (c ∷ s) =
    let (r, size) = decode_rune c s in
    let rest = trim_left n (drop size (c ∷ s)) in if is_space r then rest else c ∷ s

-- On a reversed text.
unfoldable pub trim_right : ℕ → Bytes → Bytes
trim_right zero s = s
trim_right (suc n) [] = []
trim_right (suc n) (c ∷ s) =
    let (r, size) = last_rune (c ∷ s) in
    let rest = trim_right n (drop size (c ∷ s)) in if is_space r then rest else c ∷ s

unfoldable pub trim_space : Bytes → Bytes
unfolding trim_left trim_right
trim_space s =
    let left = trim_left (length s) s in reverse (trim_right (length left) (reverse left))

trim_tests :
    (trim_space (codes "  a b \t") ≡ codes "a b")
    × (trim_space (0xC2 ∷ 0xA0 ∷ 0x41 ∷ 0xE2 ∷ 0x80 ∷ 0x83 ∷ []) ≡ codes "A")
    × (trim_space (0x41 ∷ 0x85 ∷ []) ≡ 0x41 ∷ 0x85 ∷ [])
    × (trim_space (codes "   ") ≡ [])
unfolding trim_space decode_rune last_rune is_space
trim_tests = (refl, refl, refl, refl)
