-- ===== src/Go/Fmt.antt =====
-- `fmt`'s verbs with a width, as in `%-15s`: blanks behind a text, up to a number of runes.
use go_udap.Prelude.{ℕ, zero, suc, ◌-◌, ◌≡◌, refl, [], ◌∷◌, ◌++◌, length, drop, replicate}
use go_udap.Prelude.Bytes.{Bytes, codes}
use go_udap.Go.Utf8.{decode_rune}

-- `utf8.RuneCountInString`; each rune takes a byte at least, so the length is enough fuel.
unfoldable pub rune_count : ℕ → Bytes → ℕ
rune_count zero s = 0
rune_count (suc n) [] = 0
rune_count (suc n) (c ∷ s) = suc (rune_count n (drop (decode_rune c s).1 (c ∷ s)))

unfoldable pub pad_right : ℕ → Bytes → Bytes
unfolding rune_count
pad_right width s = s ++ replicate (width - rune_count (length s) s) b' '

pad_test : pad_right 5 (0xC3 ∷ 0xA9 ∷ codes "t") ≡ 0xC3 ∷ 0xA9 ∷ codes "t   "
unfolding pad_right decode_rune
pad_test = refl
