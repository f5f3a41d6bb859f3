-- ===== src/Go/NetIp/RoundTrip.antt =====
-- Reading a dotted quad back from its print.
use go_udap.Prelude.{
  ℕ, suc, ◌+◌, ◌*◌, ◌/◌, ◌%◌, ◌<◌, ◌≤◌, ◌≡◌, refl, ◌∙◌, false, ◌&&◌, [], ◌∷◌, ◌++◌, append-nil,
  some, arith, ltb, ◌==◌, length, Bool-cases, inl, inr, ltb→lt, ltb→le,
}
use go_udap.Prelude.Bytes.{Bytes}
use go_udap.Go.Strconv.{
  format_uint, format_uint_one, format_uint_two, format_uint_three, format_uint_cons,
}
use go_udap.Go.NetIp.{
  is_nil, v4_fields, parse_by_first, v4_address, parse_ip, to4, format_ip4, net_ipv4,
}

v4_digit :
    (d val dig v : ℕ) (s fields : Bytes)
    → d < 10
    → v ≡ val * 10 + d
    → v < 256
    → ((dig == 1) && (val == 0)) ≡ false
    → v4_fields ((b'0' + d) ∷ s) val dig fields ≡ v4_fields s v (suc dig) fields
unfolding v4_fields
v4_digit d val dig v s fields h e k lead = ground arith

v4_two :
    (n : ℕ) (rest fields : Bytes)
    → 10 ≤ n
    → n < 100
    → v4_fields ((b'0' + n / 10) ∷ (b'0' + n % 10) ∷ rest) 0 0 fields ≡ v4_fields rest n 2 fields
v4_two n rest fields h k =
    v4_digit (n / 10) 0 0 (n / 10) _ fields (omega arith) (omega arith) (omega arith) refl
    ∙ v4_digit (n % 10) (n / 10) 1 n rest fields (omega arith) (omega arith) (omega arith)
        (ground arith)

v4_three :
    (n : ℕ) (rest fields : Bytes)
    → 100 ≤ n
    → n < 256
    → v4_fields ((b'0' + n / 100) ∷ (b'0' + n / 10 % 10) ∷ (b'0' + n % 10) ∷ rest) 0 0 fields
      ≡ v4_fields rest n 3 fields
v4_three n rest fields h k =
    v4_digit (n / 100) 0 0 (n / 100) _ fields (omega arith) (omega arith) (omega arith) refl
    ∙ v4_digit (n / 10 % 10) (n / 100) 1 (n / 10) _ fields (omega arith) (omega arith) (omega arith)
        (ground arith)
    ∙ v4_digit (n % 10) (n / 10) 2 n rest fields (omega arith) (omega arith) (omega arith) refl

-- Reading the print of an octet, whatever comes next.
v4_octet :
    (n : ℕ) (rest fields : Bytes)
    → n < 256
    → (k : ℕ) × (v4_fields (format_uint n ++ rest) 0 0 fields ≡ v4_fields rest n (suc k) fields)
v4_octet n rest fields h = elim (Bool-cases (ltb n 10)) [
  | inl one ↦ (
    0,
    rw (format_uint_one n (ltb→lt n 10 one))
        (v4_digit n 0 0 n rest fields (ltb→lt n 10 one) (omega arith) h refl),
  )
  | inr more ↦ elim (Bool-cases (ltb n 100)) [
    | inl two ↦ (
      1,
      rw (format_uint_two n (ltb→le n 10 more) (ltb→lt n 100 two))
          (v4_two n rest fields (ltb→le n 10 more) (ltb→lt n 100 two)),
    )
    | inr three ↦ (
      2,
      rw (format_uint_three n (ltb→le n 100 three) (omega arith))
          (v4_three n rest fields (ltb→le n 100 three) h),
    )
  ]
]

v4_dot :
    (s : Bytes) (n k : ℕ) (fields : Bytes)
    → n < 256
    → length fields < 3
    → is_nil s ≡ false
    → v4_fields (b'.' ∷ s) n (suc k) fields ≡ v4_fields s 0 0 (fields ++ n ∷ [])
unfolding v4_fields
v4_dot s n k fields lt h e = let same : n % 256 ≡ n = omega arith in ground arith

print-ne-nil : (n : ℕ) (rest : Bytes) → is_nil (format_uint n ++ rest) ≡ false
unfolding is_nil
print-ne-nil n rest = let (c, s, e) = format_uint_cons n in rw e

-- One octet and its dot, in front of another octet.
v4_step :
    (n m : ℕ) (rest fields : Bytes)
    → n < 256
    → length fields < 3
    → v4_fields (format_uint n ++ (b'.' ∷ (format_uint m ++ rest))) 0 0 fields
      ≡ v4_fields (format_uint m ++ rest) 0 0 (fields ++ n ∷ [])
v4_step n m rest fields h room =
    let (k, read) = v4_octet n (b'.' ∷ (format_uint m ++ rest)) fields h in
    read ∙ v4_dot (format_uint m ++ rest) n k fields h room (print-ne-nil m rest)

v4_end :
    (n : ℕ) (fields : Bytes)
    → n < 256
    → length fields ≡ 3
    → v4_fields (format_uint n) 0 0 fields ≡ some (fields ++ n ∷ [])
v4_end n fields h e =
    let (k, read) = v4_octet n [] fields h in
    let same : n % 256 ≡ n = omega arith in rw append-nil at read ∙ unfold v4_fields in ground arith

v4_fields-format_ip4 :
    (a b c d : ℕ)
    → a < 256
    → b < 256
    → c < 256
    → d < 256
    → v4_fields (format_ip4 a b c d) 0 0 [] ≡ some (a ∷ b ∷ c ∷ d ∷ [])
unfolding format_ip4
v4_fields-format_ip4 a b c d ha hb hc hd =
    v4_step a b _ [] ha (omega arith)
    ∙ v4_step b c _ (a ∷ []) hb (omega arith)
    ∙ cc (
      append-nil (format_uint d),
      v4_step c d [] (a ∷ b ∷ []) hc (omega arith),
      v4_end d (a ∷ b ∷ c ∷ []) hd refl,
    )

skip_digit : (s t : Bytes) (d : ℕ) → d < 10 → parse_by_first s ((b'0' + d) ∷ t) ≡ parse_by_first s t
unfolding parse_by_first
skip_digit s t d h = ground arith

skip_octet :
    (s t : Bytes) (n : ℕ) → n < 256 → parse_by_first s (format_uint n ++ t) ≡ parse_by_first s t
skip_octet s t n h = elim (Bool-cases (ltb n 10)) [
  | inl one ↦ rw (format_uint_one n (ltb→lt n 10 one)) (skip_digit s t n (ltb→lt n 10 one))
  | inr more ↦ elim (Bool-cases (ltb n 100)) [
    | inl two ↦ rw (format_uint_two n (ltb→le n 10 more) (ltb→lt n 100 two)) (
        skip_digit s _ (n / 10) (omega (arith, ltb→lt n 100 two))
        ∙ skip_digit s t (n % 10) (omega arith))
    | inr three ↦ rw (format_uint_three n (ltb→le n 100 three) (omega arith)) (
        skip_digit s _ (n / 100) (omega arith)
        ∙ skip_digit s _ (n / 10 % 10) (omega arith)
        ∙ skip_digit s t (n % 10) (omega arith))
  ]
]

by_dot : (s t : Bytes) → parse_by_first s (b'.' ∷ t) ≡ v4_address s
unfolding parse_by_first
by_dot s t = refl

by_quad : (s : Bytes) (a b c d : ℕ) → a < 256 → parse_by_first s (format_ip4 a b c d) ≡ v4_address s
unfolding format_ip4
by_quad s a b c d ha = skip_octet s _ a ha ∙ by_dot s _

pub parse_ip-format_ip4 :
    (a b c d : ℕ)
    → a < 256
    → b < 256
    → c < 256
    → d < 256
    → parse_ip (format_ip4 a b c d) ≡ some (net_ipv4 a b c d)
unfolding parse_ip v4_address
parse_ip-format_ip4 a b c d ha hb hc hd =
    cc (by_quad (format_ip4 a b c d) a b c d ha, v4_fields-format_ip4 a b c d ha hb hc hd)

pub to4-net_ipv4 : (a b c d : ℕ) → to4 (net_ipv4 a b c d) ≡ some (a ∷ b ∷ c ∷ d ∷ [])
unfolding to4
to4-net_ipv4 a b c d = refl
