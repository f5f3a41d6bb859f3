-- ===== src/Mocksbr/Values/Agree.antt =====
-- The virtual device's value codec against the client's.
use go_udap.Prelude.{
  Result-cases, ◌≡◌, refl, ◌∙◌, ap, [], ◌∷◌, ok, err, length, replicate, length-replicate, inl, inr,
  arith,
}
use go_udap.Prelude.Bytes.{Bytes, AreBytes}
use go_udap.Udap.Parameters.Table.{Parameter}
use go_udap.Udap.Parameters.Codec.{
  encode, encode_uint8, encode_uint16, encode_ip, format_get_data_value,
}
use go_udap.Udap.Parameters.RoundTrip.{length-encode}
use go_udap.Mocksbr.Values.{encode_param_value, decode_param_value, ip4_bytes}

-- The virtual device reads the bytes of a value as the client does.
pub decode_param_value-format_get_data_value :
    (v : Bytes) → decode_param_value v ≡ format_get_data_value v
unfolding decode_param_value format_get_data_value
decode_param_value-format_get_data_value [] = refl
decode_param_value-format_get_data_value (a ∷ []) = refl
decode_param_value-format_get_data_value (a ∷ b ∷ []) = refl
decode_param_value-format_get_data_value (a ∷ b ∷ c ∷ []) = refl
decode_param_value-format_get_data_value (a ∷ b ∷ c ∷ d ∷ []) = refl
decode_param_value-format_get_data_value (a ∷ b ∷ c ∷ d ∷ e ∷ v) = refl

-- The virtual device encodes a value as the client does, and with zeros what the client rejects.
pub encode_param_value-encode :
    (p : Parameter) (v : Bytes)
    → encode_param_value p.len v ≡ elim (encode p v) [ ok bs ↦ bs | err e ↦ replicate p.len 0 ]
unfolding encode encode_uint8 encode_uint16 encode_ip encode_param_value ip4_bytes
encode_param_value-encode p v = ground arith

-- A value that the virtual device encodes has the parameter's length.
pub length-encode_param_value :
    (p : Parameter) (v : Bytes) → AreBytes v → length (encode_param_value p.len v) ≡ p.len
length-encode_param_value p v h = elim (Result-cases (encode p v)) [
  | inl (bs, good) ↦
      let (len, bytes) = length-encode p v bs h good in
      let e : encode_param_value p.len v ≡ bs = ground (arith, encode_param_value-encode p v) in
      cc (e, len)
  | inr (x, bad) ↦
      let e : encode_param_value p.len v ≡ replicate p.len 0 =
        ground (arith, encode_param_value-encode p v) in
      ap length e ∙ length-replicate p.len 0
]
