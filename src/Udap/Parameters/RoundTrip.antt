-- ===== src/Udap/Parameters/RoundTrip.antt =====
-- The value codec: the width of what is encoded, and that a value read back and encoded again gives
-- the same bytes.
use go_udap.Prelude.{
  ℕ, zero, suc, ◌-◌, ◌<◌, ◌≤◌, ◌≡◌, ◌≢◌, refl, sym, ◌∙◌, [], ◌∷◌, length, take, replicate,
  length-append, length-take, length-replicate, ok, arith, All-append, All-take, Option-cases, inl,
  inr, ◌⊎◌,
}
use go_udap.Prelude.Bytes.{Bytes, IsByte, AreBytes, be16}
use go_udap.Go.Strconv.{parse_uint, parse_uint-le}
use go_udap.Go.NetIp.{parse_ip, to4}
use go_udap.Go.NetIp.Range.{parse_ip-AreBytes, to4-length}
use go_udap.Udap.Parameters.Table.{Parameter}
use go_udap.Udap.Parameters.Codec.{copy_to, encode_uint8, encode_uint16, encode_ip, encode}

pub length-copy_to : (n : ℕ) (s : Bytes) → length (copy_to n s) ≡ n
unfolding copy_to
length-copy_to n s = omega (
  arith,
  length-append (take n s) (replicate (n - length s) 0),
  length-take n s,
  length-replicate {A = ℕ} (n - length s) 0,
)

replicate_zero : (n : ℕ) → AreBytes (replicate n 0)
replicate_zero zero = tt
replicate_zero (suc n) = (omega arith, replicate_zero n)

copy_to-AreBytes : (n : ℕ) (s : Bytes) → AreBytes s → AreBytes (copy_to n s)
unfolding copy_to
copy_to-AreBytes n s h =
    All-append IsByte (take n s) _ (All-take IsByte n s h) (replicate_zero (n - length s))

pub copy_to_self : (s : Bytes) → length s ≡ 4 → copy_to 4 s ≡ s
unfolding copy_to
copy_to_self (a ∷ b ∷ c ∷ d ∷ []) h = refl
copy_to_self s h = absurd (omega arith)

-- What each of the four branches returns.
pub encode_uint8_ok : (s bs : Bytes) → encode_uint8 s ≡ ok bs → (n : ℕ) × (n ≤ 255) × (bs ≡ n ∷ [])
encode_uint8_ok s bs h = elim (Option-cases (parse_uint 255 s)) [
  | inl e ↦ absurd (unfold encode_uint8 in ground arith)
  | inr (n, e) ↦ (n, parse_uint-le 255 s n e, unfold encode_uint8 in ground arith)
]

pub encode_uint16_ok :
    (s bs : Bytes) → encode_uint16 s ≡ ok bs → (n : ℕ) × (n ≤ 65535) × (bs ≡ be16 n)
encode_uint16_ok s bs h = elim (Option-cases (parse_uint 65535 s)) [
  | inl e ↦ absurd (unfold encode_uint16 in ground arith)
  | inr (n, e) ↦ (n, parse_uint-le 65535 s n e, unfold encode_uint16 in ground arith)
]

list_of_four :
    (q : Bytes)
    → length q ≡ 4
    → AreBytes q
    → (a b c d : ℕ) × (q ≡ a ∷ b ∷ c ∷ d ∷ []) × (a < 256) × (b < 256) × (c < 256) × (d < 256)
list_of_four (a ∷ b ∷ c ∷ d ∷ []) h (ha, (hb, (hc, (hd, _)))) = (a, b, c, d, refl, ha, hb, hc, hd)
list_of_four q h k = absurd (omega arith)

pub encode_ip_ok :
    (s bs : Bytes)
    → encode_ip s ≡ ok bs
    → (a b c d : ℕ) × (bs ≡ a ∷ b ∷ c ∷ d ∷ []) × (a < 256) × (b < 256) × (c < 256) × (d < 256)
encode_ip_ok s bs h = elim (Option-cases (parse_ip s)) [
  | inl e ↦ absurd (unfold encode_ip in ground arith)
  | inr (ip, e) ↦ elim (Option-cases (to4 ip)) [
    | inl e4 ↦ absurd (unfold encode_ip in ground arith)
    | inr (q, e4) ↦
        let (len, bytes) = to4-length ip q (parse_ip-AreBytes s ip e) e4 in
        let (a, b, c, d, eq, ha, hb, hc, hd) = list_of_four q len bytes in
        let out : copy_to 4 q ≡ bs = unfold encode_ip in ground arith in
        (a, b, c, d, sym out ∙ copy_to_self q len ∙ eq, ha, hb, hc, hd)
  ]
]

-- A parameter's length picks the branch.
pub encode_cases :
    (p : Parameter) (v : Bytes)
    → ((p.len ≡ 1) × (encode p v ≡ encode_uint8 v))
      ⊎ ((p.len ≡ 2) × (encode p v ≡ encode_uint16 v))
      ⊎ ((p.len ≡ 4) × (encode p v ≡ encode_ip v))
      ⊎ ((p.len ≢ 1) × (p.len ≢ 2) × (p.len ≢ 4) × (encode p v ≡ ok (copy_to p.len v)))
unfolding encode
encode_cases p v = ground arith

-- A successful `Encode` of a value of bytes returns exactly the parameter's length, in bytes.
pub length-encode :
    (p : Parameter) (v bs : Bytes)
    → AreBytes v
    → encode p v ≡ ok bs
    → (length bs ≡ p.len) × AreBytes bs
length-encode p v bs hv h = elim (encode_cases p v) [
  | inl (l, e) ↦ let (n, hn, eq) = encode_uint8_ok v bs (sym e ∙ h) in rw (eq, l) (omega arith)
  | inr (inl (l, e)) ↦
      let (n, hn, eq) = encode_uint16_ok v bs (sym e ∙ h) in rw (eq, l) (omega arith)
  | inr (inr (inl (l, e))) ↦
      let (a, b, c, d, eq, ha, hb, hc, hd) = encode_ip_ok v bs (sym e ∙ h) in
      rw (eq, l) (omega arith)
  | inr (inr (inr (l1, l2, l4, e))) ↦
      let eq : copy_to p.len v ≡ bs = cc in
      rw (← eq) (length-copy_to p.len v, copy_to-AreBytes p.len v hv)
]
