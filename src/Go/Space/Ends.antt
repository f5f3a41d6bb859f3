-- ===== src/Go/Space/Ends.antt =====
-- The last rune of a text does not depend on what stands in front of an `=`.
use go_udap.Prelude.{
  ℕ, zero, suc, ◌≡◌, refl, sym, ◌∙◌, Bool-cases, true, false, inl, inr, [], ◌∷◌, ◌++◌, ltb, arith,
}
use go_udap.Prelude.Bytes.{Bytes}
use go_udap.Go.Utf8.{between, decode_rune}
use go_udap.Go.Space.{whole, back, last_rune}

whole_continuation :
    (b : ℕ) (tail : Bytes) → between 0x80 0xBF b ≡ true → whole b tail ≡ (0xFFFD, 1)
unfolding whole decode_rune
whole_continuation b [] h = ground arith
whole_continuation b (c ∷ []) h = ground arith
whole_continuation b (c ∷ d ∷ []) h = ground arith
whole_continuation b (c ∷ d ∷ e ∷ s) h = ground arith

whole_alone : (b : ℕ) → ltb b 0x80 ≡ false → whole b [] ≡ (0xFFFD, 1)
unfolding whole decode_rune
whole_alone b h = ground arith

whole_equals : (b : ℕ) (tail : Bytes) → whole b'=' (b ∷ tail) ≡ (0xFFFD, 1)
unfolding whole decode_rune
whole_equals b [] = ground arith
whole_equals b (c ∷ []) = ground arith
whole_equals b (c ∷ d ∷ s) = ground arith

back-append :
    (n b : ℕ) (tail rev w : Bytes)
    → whole b tail ≡ (0xFFFD, 1)
    → back n b tail (rev ++ b'=' ∷ w) ≡ back n b tail rev
unfolding back
back-append zero b tail [] w h = sym h
back-append (suc n) b tail [] w h = whole_equals b tail ∙ sym h
back-append zero b tail (c ∷ rev) w h = refl
back-append (suc n) b tail (c ∷ rev) w h = elim (Bool-cases (between 0x80 0xBF c)) [
  | inl on ↦ rw (on, back) (back-append n c (b ∷ tail) rev w (whole_continuation c (b ∷ tail) on))
  | inr off ↦ rw (off, back) refl
]

pub last_rune-append :
    (c : ℕ) (rev w : Bytes) → last_rune ((c ∷ rev) ++ b'=' ∷ w) ≡ last_rune (c ∷ rev)
unfolding last_rune
last_rune-append c rev w = elim (Bool-cases (ltb c 0x80)) [
  | inl ascii ↦ rw ascii refl
  | inr other ↦ rw other (back-append 3 c [] rev w (whole_alone c other))
]
