-- ===== src/Udap/Validation/Encodes.antt =====
-- A value that passes the validation is encoded, and no text is cut.
use go_udap.Prelude.{
  ◌≤◌, ◌≡◌, ◌≢◌, sym, ◌∙◌, ap, some, ok, Result-cases, length, take_of_le, arith, inl, inr,
}
use go_udap.Prelude.Bytes.{Bytes}
use go_udap.Udap.Parameters.Table.{Parameter, parameter_by_name}
use go_udap.Udap.Parameters.Codec.{
  encode, encode_uint8, encode_uint16, encode_ip, copy_to, format_get_data_value,
}
use go_udap.Udap.Parameters.Canonical.{LacksNul, format-copy_to, encode_at_text}
use go_udap.Udap.Validation.{type_rule, is_valid_ip, validate_parameter}

encode-type_rule :
    (p : Parameter) (v : Bytes) → type_rule p v ≡ ok tt → (bs : Bytes) × (encode p v ≡ ok bs)
unfolding type_rule is_valid_ip encode encode_uint8 encode_uint16 encode_ip
encode-type_rule p v h = elim (Result-cases (encode p v)) [
  | inl good ↦ good
  | inr (e, bad) ↦ absurd (ground arith)
]

length-type_rule :
    (p : Parameter) (v : Bytes)
    → p.len ≢ 1
    → p.len ≢ 2
    → p.len ≢ 4
    → type_rule p v ≡ ok tt
    → length v ≤ p.len
unfolding type_rule
length-type_rule p v h1 h2 h4 h = ground arith

validated :
    (name v : Bytes) (p : Parameter)
    → parameter_by_name name ≡ some p
    → validate_parameter name v ≡ ok tt
    → type_rule p v ≡ ok tt
unfolding validate_parameter
validated name v p f h = ground (arith, f)

-- A value that passes the validation under a parameter's name, or under its alias, is encoded; and if
-- it is a text without a NUL for a text parameter, the encoded bytes are read back as that text.
pub encode-validate_parameter :
    (name v : Bytes) (p : Parameter)
    → parameter_by_name name ≡ some p
    → validate_parameter name v ≡ ok tt
    → (bs : Bytes) × (encode p v ≡ ok bs)
      × (p.len ≢ 1 → p.len ≢ 2 → p.len ≢ 4 → LacksNul v → format_get_data_value bs ≡ v)
encode-validate_parameter name v p f h =
    let rule = validated name v p f h in
    let (bs, good) = encode-type_rule p v rule in
    (
      bs,
      good,
      λ l1 l2 l4 n.
          let same : copy_to p.len v ≡ bs = let e = encode_at_text p v l1 l2 l4 in cc (e, good) in
          ap format_get_data_value (sym same)
          ∙ format-copy_to p.len v l1 l2 l4 n
          ∙ take_of_le p.len v (length-type_rule p v l1 l2 l4 rule),
    )
