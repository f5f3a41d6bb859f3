-- ===== src/Udap/Parameters/Canonical.antt =====
-- A value that is read back with `formatGetDataValue` and encoded again gives the same bytes.
use go_udap.Prelude.{
  ℕ, zero, suc, ◌-◌, ◌<◌, ◌≤◌, ◌≡◌, ◌≢◌, refl, sym, ◌∙◌, [], ◌∷◌, ◌++◌, length, take, replicate,
  length-take, ok, arith, All, All-take, inl, inr,
}
use go_udap.Prelude.Bytes.{Bytes, be16, from_be16-be16}
use go_udap.Go.Strconv.{parse_uint-format_uint}
use go_udap.Go.NetIp.RoundTrip.{parse_ip-format_ip4, to4-net_ipv4}
use go_udap.Udap.Parameters.Table.{Parameter}
use go_udap.Udap.Parameters.Codec.{
  copy_to, encode_uint8, encode_uint16, encode_ip, encode, trim_nul, format_get_data_value,
}
use go_udap.Udap.Parameters.RoundTrip.{
  encode_cases, encode_uint8_ok, encode_uint16_ok, encode_ip_ok, copy_to_self, length-copy_to,
}

abbrev pub LacksNul : Bytes → Type 0
LacksNul = All (λ b. b ≢ 0)

encode_uint8-format :
    (n : ℕ) → n ≤ 255 → encode_uint8 (format_get_data_value (n ∷ [])) ≡ ok (n ∷ [])
unfolding encode_uint8 format_get_data_value
encode_uint8-format n h = ground (arith, parse_uint-format_uint 255 n h)

encode_uint16-format :
    (n : ℕ) → n ≤ 65535 → encode_uint16 (format_get_data_value (be16 n)) ≡ ok (be16 n)
unfolding encode_uint16 format_get_data_value
encode_uint16-format n h =
    ground (arith, from_be16-be16 n (omega arith), parse_uint-format_uint 65535 n h)

encode_ip-format :
    (a b c d : ℕ)
    → a < 256
    → b < 256
    → c < 256
    → d < 256
    → encode_ip (format_get_data_value (a ∷ b ∷ c ∷ d ∷ [])) ≡ ok (a ∷ b ∷ c ∷ d ∷ [])
unfolding encode_ip format_get_data_value
encode_ip-format a b c d ha hb hc hd = ground (
  arith,
  parse_ip-format_ip4 a b c d ha hb hc hd,
  to4-net_ipv4 a b c d,
  copy_to_self (a ∷ b ∷ c ∷ d ∷ []) refl,
)

pub format_text :
    (s : Bytes) → length s ≢ 1 → length s ≢ 2 → length s ≢ 4 → format_get_data_value s ≡ trim_nul s
unfolding format_get_data_value
format_text [] h1 h2 h4 = refl
format_text (a ∷ []) h1 h2 h4 = absurd (h1 refl)
format_text (a ∷ b ∷ []) h1 h2 h4 = absurd (h2 refl)
format_text (a ∷ b ∷ c ∷ []) h1 h2 h4 = refl
format_text (a ∷ b ∷ c ∷ d ∷ []) h1 h2 h4 = absurd (h4 refl)
format_text (a ∷ b ∷ c ∷ d ∷ e ∷ s) h1 h2 h4 = refl

trim_nul-zeros : (n : ℕ) → trim_nul (replicate n 0) ≡ []
unfolding trim_nul
trim_nul-zeros zero = refl
trim_nul-zeros (suc n) = refl

trim_nul-pad : (s : Bytes) (n : ℕ) → LacksNul s → trim_nul (s ++ replicate n 0) ≡ s
unfolding trim_nul
trim_nul-pad [] n h = trim_nul-zeros n
trim_nul-pad (b ∷ s) n (hb, h) = ground (arith, trim_nul-pad s n h)

take-take : (n : ℕ) (s : Bytes) → take n (take n s) ≡ take n s
take-take zero s = refl
take-take (suc n) [] = refl
take-take (suc n) (b ∷ s) = rw (take-take n s)

copy_to-take : (n : ℕ) (s : Bytes) → copy_to n (take n s) ≡ copy_to n s
unfolding copy_to
copy_to-take n s =
    let rest : n - length (take n s) ≡ n - length s = omega (arith, length-take n s) in
    cc (take-take n s, rest)

-- Text without a NUL is trimmed back to what fitted.
pub format-copy_to :
    (n : ℕ) (v : Bytes)
    → n ≢ 1
    → n ≢ 2
    → n ≢ 4
    → LacksNul v
    → format_get_data_value (copy_to n v) ≡ take n v
format-copy_to n v h1 h2 h4 h =
    let len = length-copy_to n v in
    format_text (copy_to n v) (λ e. h1 (sym len ∙ e)) (λ e. h2 (sym len ∙ e))
      (λ e. h4 (sym len ∙ e))
    ∙ unfold copy_to in trim_nul-pad (take n v) (n - length v) (All-take _ n v h)

pub encode_at_1 : (p : Parameter) (v : Bytes) → p.len ≡ 1 → encode p v ≡ encode_uint8 v
unfolding encode
encode_at_1 p v l = ground arith

pub encode_at_2 : (p : Parameter) (v : Bytes) → p.len ≡ 2 → encode p v ≡ encode_uint16 v
unfolding encode
encode_at_2 p v l = ground arith

pub encode_at_4 : (p : Parameter) (v : Bytes) → p.len ≡ 4 → encode p v ≡ encode_ip v
unfolding encode
encode_at_4 p v l = ground arith

pub encode_at_text :
    (p : Parameter) (v : Bytes)
    → p.len ≢ 1
    → p.len ≢ 2
    → p.len ≢ 4
    → encode p v ≡ ok (copy_to p.len v)
unfolding encode
encode_at_text p v l1 l2 l4 = ground arith

-- The bytes of an encoded value, read back with `formatGetDataValue` and encoded again, are the
-- same bytes, for every parameter and every value that holds no NUL.
pub encode-format_get_data_value :
    (p : Parameter) (v bs : Bytes)
    → LacksNul v
    → encode p v ≡ ok bs
    → encode p (format_get_data_value bs) ≡ ok bs
encode-format_get_data_value p v bs hv h = elim (encode_cases p v) [
  | inl (l, e) ↦
      let (n, hn, eq) = encode_uint8_ok v bs (sym e ∙ h) in
      cc (eq, encode_at_1 p (format_get_data_value bs) l, encode_uint8-format n hn)
  | inr (inl (l, e)) ↦
      let (n, hn, eq) = encode_uint16_ok v bs (sym e ∙ h) in
      cc (eq, encode_at_2 p (format_get_data_value bs) l, encode_uint16-format n hn)
  | inr (inr (inl (l, e))) ↦
      let (a, b, c, d, eq, ha, hb, hc, hd) = encode_ip_ok v bs (sym e ∙ h) in
      cc (eq, encode_at_4 p (format_get_data_value bs) l, encode_ip-format a b c d ha hb hc hd)
  | inr (inr (inr (l1, l2, l4, e))) ↦
      let eq : copy_to p.len v ≡ bs = cc in
      cc (
        eq,
        format-copy_to p.len v l1 l2 l4 hv,
        encode_at_text p (format_get_data_value bs) l1 l2 l4,
        copy_to-take p.len v,
      )
]
