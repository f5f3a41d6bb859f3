-- ===== src/Go/Strconv.antt =====
-- `strconv.ParseUint(s, 10, bits)` and `strconv.FormatUint(n, 10)`, which is also what `%d` prints.
use go_udap.Prelude.{
  ◌==◌, Bool, true, false, ◌^◌, ℕ, zero, suc, ◌+◌, ◌-◌, ◌*◌, ◌/◌, ◌%◌, ◌<◌, ◌≤◌, ◌≡◌, refl, ◌∙◌,
  ◌||◌, [], ◌∷◌, Option, none, some, arith, ltb, if◌then◌else◌, Bool-cases, inl, inr,
}
use go_udap.Prelude.Bytes.{Bytes, codes}

-- The loop of `ParseUint` in base 10; `limit` is the largest value of the wanted width. As every
-- partial value is at most `limit`, the 64-bit overflow tests of the loop never fire.
unfoldable pub scan_uint : ℕ → Bytes → ℕ → Option ℕ
scan_uint limit [] n = some n
scan_uint limit (c ∷ s) n =
    let rest = scan_uint limit s (n * 10 + (c - b'0')) in
    if ltb c b'0' || ltb b'9' c
    then none
    else if ltb limit (n * 10 + (c - b'0'))
    then none
    else rest

unfoldable pub parse_uint : ℕ → Bytes → Option ℕ
unfolding scan_uint
parse_uint limit [] = none
parse_uint limit (c ∷ s) = scan_uint limit (c ∷ s) 0

-- Digits from the last to the first; a round divides by ten, so `suc n` rounds are enough.
unfoldable pub emit_digits : ℕ → ℕ → Bytes → Bytes
emit_digits zero n out = out
emit_digits (suc f) n out =
    let rest = emit_digits f (n / 10) ((b'0' + n % 10) ∷ out) in
    if ltb n 10 then (b'0' + n) ∷ out else rest

unfoldable pub format_uint : ℕ → Bytes
unfolding emit_digits
format_uint n = emit_digits (suc n) n []

pub scan_uint-emit_digits :
    (limit f n : ℕ) (out : Bytes)
    → n < f
    → n ≤ limit
    → scan_uint limit (emit_digits f n out) 0 ≡ scan_uint limit out n
unfolding scan_uint emit_digits
scan_uint-emit_digits limit zero n out lt fits = absurd (omega arith)
scan_uint-emit_digits limit (suc f) n out lt fits =
    ground (arith, scan_uint-emit_digits limit f (n / 10) ((b'0' + n % 10) ∷ out))

emit_digits_cons :
    (f n d : ℕ) (out : Bytes) → (c : ℕ) × (s : Bytes) × (emit_digits f n (d ∷ out) ≡ c ∷ s)
unfolding emit_digits
emit_digits_cons zero n d out = (d, out, refl)
emit_digits_cons (suc f) n d out = elim (Bool-cases (ltb n 10)) [
  | inl small ↦ (b'0' + n, d ∷ out, rw small)
  | inr big ↦ rw big (emit_digits_cons f (n / 10) (b'0' + n % 10) (d ∷ out))
]

pub format_uint_cons : (n : ℕ) → (c : ℕ) × (s : Bytes) × (format_uint n ≡ c ∷ s)
unfolding format_uint
format_uint_cons n = elim (Bool-cases (ltb n 10)) [
  | inl small ↦ (b'0' + n, [], rw small)
  | inr big ↦ rw big (emit_digits_cons n (n / 10) (b'0' + n % 10) [])
]

parse_uint_scan :
    (limit : ℕ) (s : Bytes) (c : ℕ) (t : Bytes)
    → s ≡ c ∷ t
    → parse_uint limit s ≡ scan_uint limit s 0
unfolding parse_uint
parse_uint_scan limit [] c t e = cc
parse_uint_scan limit (x ∷ s) c t e = refl

pub parse_uint-format_uint : (limit n : ℕ) → n ≤ limit → parse_uint limit (format_uint n) ≡ some n
parse_uint-format_uint limit n h =
    let (c, s, e) = format_uint_cons n in
    parse_uint_scan limit (format_uint n) c s e
    ∙ unfold format_uint scan_uint in scan_uint-emit_digits limit (suc n) n [] (omega arith) h

-- A value that is read is within the limit.
scan_uint-le :
    (limit : ℕ) (s : Bytes) (n r : ℕ) → n ≤ limit → scan_uint limit s n ≡ some r → r ≤ limit
unfolding scan_uint
scan_uint-le limit [] n r h e = ground arith
scan_uint-le limit (c ∷ s) n r h e = ground (arith, scan_uint-le limit s (n * 10 + (c - b'0')) r)

pub parse_uint-le : (limit : ℕ) (s : Bytes) (r : ℕ) → parse_uint limit s ≡ some r → r ≤ limit
unfolding parse_uint
parse_uint-le limit [] r e = cc
parse_uint-le limit (c ∷ s) r e = scan_uint-le limit (c ∷ s) 0 r (omega arith) e

-- The prints of an octet, by their number of digits.
pub format_uint_one : (n : ℕ) → n < 10 → format_uint n ≡ (b'0' + n) ∷ []
unfolding format_uint
format_uint_one n h = ground arith

pub format_uint_two :
    (n : ℕ) → 10 ≤ n → n < 100 → format_uint n ≡ (b'0' + n / 10) ∷ (b'0' + n % 10) ∷ []
unfolding format_uint
format_uint_two zero h k = absurd (omega arith)
format_uint_two (suc n) h k = ground arith

pub format_uint_three :
    (n : ℕ)
    → 100 ≤ n
    → n < 1000
    → format_uint n ≡ (b'0' + n / 100) ∷ (b'0' + n / 10 % 10) ∷ (b'0' + n % 10) ∷ []
unfolding format_uint
format_uint_three zero h k = absurd (omega arith)
format_uint_three (suc zero) h k = absurd (omega arith)
format_uint_three (suc (suc n)) h k = ground arith

format_uint_examples : (format_uint 0 ≡ codes "0") × (format_uint 65535 ≡ codes "65535")
unfolding format_uint
format_uint_examples = (refl, refl)

parse_uint_examples :
    (parse_uint 255 (codes "007") ≡ some 7)
    × (parse_uint 255 (codes "256") ≡ none)
    × (parse_uint 255 (codes "1abc") ≡ none)
    × (parse_uint 255 [] ≡ none)
unfolding parse_uint
parse_uint_examples = (refl, refl, refl, refl)

-- `strconv.Atoi` on 64 bits: whether the text is signed as negative, and the magnitude.
unfoldable pub atoi : Bytes → Option (Bool × ℕ)
atoi [] = none
atoi (c ∷ s) =
    if c == b'-'
    then elim (parse_uint (2 ^ 63) s) [ none ↦ none | some n ↦ some (true, n) ]
    else if c == b'+'
    then elim (parse_uint (2 ^ 63 - 1) s) [ none ↦ none | some n ↦ some (false, n) ]
    else elim (parse_uint (2 ^ 63 - 1) (c ∷ s)) [ none ↦ none | some n ↦ some (false, n) ]
