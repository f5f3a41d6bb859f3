-- ===== src/Go/Scan.antt =====
-- `fmt.Sscanf` with `%d`, and the digits at the front of a text.
use go_udap.Prelude.{
  ℕ, zero, suc, ◌+◌, ◌-◌, ◌*◌, ◌/◌, ◌%◌, ◌^◌, ◌≡◌, refl, ◌∙◌, ◌<◌, ◌≤◌, Bool, true, false, not,
  ◌&&◌, Bool-cases, inl, inr, [], ◌∷◌, ◌++◌, Option, none, some, ◌==◌, ltb, leb, if◌then◌else◌,
  arith, append-nil,
}
use go_udap.Prelude.Bytes.{Bytes}
use go_udap.Go.Strconv.{format_uint, emit_digits}

unfoldable pub is_digit : ℕ → Bool
is_digit c = leb b'0' c && leb c b'9'

unfoldable pub read_digits : Bytes → ℕ → ℕ × Bytes
unfolding is_digit
read_digits [] n = (n, [])
read_digits (c ∷ s) n =
    let more = read_digits s (n * 10 + (c - b'0')) in if is_digit c then more else (n, c ∷ s)

-- The rest behind a number does not begin with a digit.
abbrev pub ends_number : Bytes → Bool
ends_number [] = true
ends_number (c ∷ s) = not (is_digit c)

read_digits_end : (n : ℕ) (rest : Bytes) → ends_number rest ≡ true → read_digits rest n ≡ (n, rest)
unfolding read_digits
read_digits_end n [] h = refl
read_digits_end n (c ∷ s) h = ground arith

read_digits-emit_digits :
    (f n : ℕ) (out rest : Bytes)
    → n < f
    → read_digits (emit_digits f n out ++ rest) 0 ≡ read_digits (out ++ rest) n
unfolding read_digits emit_digits
read_digits-emit_digits zero n out rest lt = absurd (omega arith)
read_digits-emit_digits (suc f) n out rest lt =
    ground (arith, read_digits-emit_digits f (n / 10) ((b'0' + n % 10) ∷ out) rest)

pub read_digits-format_uint :
    (n : ℕ) (rest : Bytes)
    → ends_number rest ≡ true
    → read_digits (format_uint n ++ rest) 0 ≡ (n, rest)
unfolding format_uint
read_digits-format_uint n rest h =
    read_digits-emit_digits (suc n) n [] rest (omega arith) ∙ read_digits_end n rest h

emit_digits_first :
    (f n d : ℕ) (out : Bytes)
    → b'0' ≤ d
    → d ≤ b'9'
    → (c : ℕ) × (s : Bytes) × (emit_digits f n (d ∷ out) ≡ c ∷ s) × (b'0' ≤ c) × (c ≤ b'9')
unfolding emit_digits
emit_digits_first zero n d out lo hi = (d, out, refl, lo, hi)
emit_digits_first (suc f) n d out lo hi = elim (Bool-cases (ltb n 10)) [
  | inl small ↦ (b'0' + n, d ∷ out, rw small, omega arith, ground arith)
  | inr big ↦
      rw big (emit_digits_first f (n / 10) (b'0' + n % 10) (d ∷ out) (omega arith) (omega arith))
]

-- A number begins with a digit.
pub format_uint_first :
    (n : ℕ) → (c : ℕ) × (s : Bytes) × (format_uint n ≡ c ∷ s) × (b'0' ≤ c) × (c ≤ b'9')
unfolding format_uint
format_uint_first n = elim (Bool-cases (ltb n 10)) [
  | inl small ↦ (b'0' + n, [], rw small, omega arith, ground arith)
  | inr big ↦ rw big (emit_digits_first n (n / 10) (b'0' + n % 10) [] (omega arith) (omega arith))
]

-- The digits of a number behind its sign; at least one, and no more than fit 64 bits.
unfoldable pub scan_number : Bool → Bytes → Option (Bool × ℕ)
unfolding read_digits
scan_number negative [] = none
scan_number negative (c ∷ s) =
    let (n, rest) = read_digits (c ∷ s) 0 in
    if not (is_digit c)
    then none
    else if ltb (if negative then 2 ^ 63 else 2 ^ 63 - 1) n
    then none
    else some (negative, n)

-- `fmt.Sscanf(s, "%d", &n)`: blanks, a sign, and digits; what stands behind is not read.
unfoldable pub sscan_int : Bytes → Option (Bool × ℕ)
unfolding scan_number
sscan_int [] = none
sscan_int (c ∷ s) =
    if c == b' '
    then sscan_int s
    else if c == b'-'
    then scan_number true s
    else if c == b'+'
    then scan_number false s
    else scan_number false (c ∷ s)

sscan_number :
    (c : ℕ) (s : Bytes) (n : ℕ)
    → read_digits (c ∷ s) 0 ≡ (n, [])
    → b'0' ≤ c
    → c ≤ b'9'
    → n < 2 ^ 63
    → sscan_int (c ∷ s) ≡ some (false, n)
unfolding sscan_int
sscan_number c s n e lo hi lt = ground (arith, e)

-- A number that is printed is scanned.
pub sscan_int-format_uint : (n : ℕ) → n < 2 ^ 63 → sscan_int (format_uint n) ≡ some (false, n)
sscan_int-format_uint n lt =
    let (c, s, q, lo, hi) = format_uint_first n in
    let whole = read_digits-format_uint n [] refl in
    rw q (sscan_number c s n (rw (append-nil (format_uint n), q) at whole) lo hi lt)
