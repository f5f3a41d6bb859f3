-- ===== src/Udap/Tlv/RoundTrip.antt =====
-- `DecodeTLV` and `EncodeTLV` are inverse to one another, up to a truncated entry at the end.
use mathlib.Core.Path.{subst}
use go_udap.Prelude.{
  ℕ, zero, suc, ◌≤◌, ◌<◌, ◌≡◌, refl, sym, List, [], ◌∷◌, ◌++◌, append_assoc, append-nil, ltb,
  ltb→lt, ltb→le, length, take, drop, length-drop, length-take, length-append, take-append-drop,
  take-length_append, drop-length_append, All, All-drop, arith, Bool-cases, inl, inr, ◌↔◌, ok,
}
use go_udap.Prelude.Bytes.{Bytes, IsByte, AreBytes}
use go_udap.Udap.Tlv.{Tlv, encode_tlv, decode_loop, decode_tlv, validate_tlv}

-- The declared length is the value's.
pub record IsTlv (t : Tlv) : Type 0 where
  pub exact : t.len ≡ length t.value

-- A rest that no entry can be cut from: fewer than two bytes, or a length beyond the end.
abbrev pub IsTruncated : Bytes → Type 0
IsTruncated [] = Unit
IsTruncated (t ∷ []) = Unit
IsTruncated (t ∷ l ∷ rest) = length rest < l

decode-truncated : (fuel : ℕ) (rest : Bytes) → IsTruncated rest → decode_loop fuel rest ≡ []
unfolding decode_loop
decode-truncated zero rest h = refl
decode-truncated (suc fuel) [] h = refl
decode-truncated (suc fuel) (t ∷ []) h = refl
decode-truncated (suc fuel) (t ∷ l ∷ rest) h = ground arith

decode_entry :
    (fuel t : ℕ) (value rest : Bytes)
    → decode_loop (suc fuel) (t ∷ length value ∷ (value ++ rest))
      ≡ record { type = t; len = length value; value = value } ∷ decode_loop fuel rest
unfolding decode_loop
decode_entry fuel t value rest =
    rw (take-length_append value rest, drop-length_append value rest)
      (ground (arith, length-append value rest))

-- Any fuel at least the number of bytes decodes every entry.
decode-encode_loop :
    (fuel : ℕ) (ts : List Tlv) (rest : Bytes)
    → length (encode_tlv ts ++ rest) ≤ fuel
    → All IsTlv ts
    → IsTruncated rest
    → decode_loop fuel (encode_tlv ts ++ rest) ≡ ts
unfolding encode_tlv
decode-encode_loop fuel [] rest h valid cut = decode-truncated fuel rest cut
decode-encode_loop zero (t ∷ ts) rest h valid cut = absurd (omega arith)
decode-encode_loop (suc fuel) (t ∷ ts) rest h (v, valid) cut =
    let room : length (encode_tlv ts ++ rest) ≤ fuel = omega (
      arith,
      length-append t.value (encode_tlv ts),
      length-append (t.value ++ encode_tlv ts) rest,
      length-append (encode_tlv ts) rest,
    ) in
    cc (
      append_assoc t.value (encode_tlv ts) rest,
      v.exact,
      decode_entry fuel t.type t.value (encode_tlv ts ++ rest),
      decode-encode_loop fuel ts rest room valid cut,
    )

-- The bytes are those of the entries that are decoded, followed by a truncated rest.
decode_loop-split :
    (fuel : ℕ) (buf : Bytes)
    → length buf ≤ fuel
    → (rest : Bytes) × (buf ≡ encode_tlv (decode_loop fuel buf) ++ rest)
      × IsTruncated rest
      × All IsTlv (decode_loop fuel buf)
unfolding decode_loop encode_tlv
decode_loop-split zero [] h = ([], refl, tt, tt)
decode_loop-split zero (t ∷ buf) h = absurd (omega arith)
decode_loop-split (suc fuel) [] h = ([], refl, tt, tt)
decode_loop-split (suc fuel) (t ∷ []) h = (t ∷ [], refl, tt, tt)
decode_loop-split (suc fuel) (t ∷ l ∷ buf) h = elim (Bool-cases (ltb (length buf) l)) [
  | inl short ↦ rw short (t ∷ l ∷ buf, refl, ltb→lt (length buf) l short, tt)
  | inr room ↦
      let fits = ltb→le (length buf) l room in
      let (rest, e, cut, valid) =
        decode_loop-split fuel (drop l buf) (omega (arith, length-drop l buf)) in
      rw room (
        rest,
        cc (
          take-append-drop l buf,
          append_assoc (take l buf) (encode_tlv (decode_loop fuel (drop l buf))) rest,
          e,
        ),
        cut,
        (record { exact = omega (arith, length-take l buf) }, valid),
      )
]

-- `DecodeTLV` returns `ts` exactly when the bytes are the encoding of `ts`, each of whose entries
-- declares its value's length, followed by a rest that no entry can be cut from.
pub decode_tlv_iff :
    (buf : Bytes) (ts : List Tlv)
    → (decode_tlv buf ≡ ts)
      ↔ (All IsTlv ts × ((rest : Bytes) × (buf ≡ encode_tlv ts ++ rest) × IsTruncated rest))
unfolding decode_tlv
decode_tlv_iff buf ts = (
  λ e.
      let (rest, q, cut, valid) = decode_loop-split (length buf) buf (omega arith) in
      subst (λ us. All IsTlv us × ((r : Bytes) × (buf ≡ encode_tlv us ++ r) × IsTruncated r)) e
        (valid, (rest, q, cut)),
  λ (valid, (rest, e, cut)). rw e (decode-encode_loop _ ts rest (omega arith) valid cut),
)

-- Entries that declare their value's length, and nothing else, are decoded to themselves.
pub decode_tlv-encode_tlv : (ts : List Tlv) → All IsTlv ts → decode_tlv (encode_tlv ts) ≡ ts
decode_tlv-encode_tlv ts valid =
    (decode_tlv_iff (encode_tlv ts) ts).1 (valid, ([], sym (append-nil (encode_tlv ts)), tt))

-- Entries that declare their value's length in a byte pass `TLVData.Validate`.
All-validate :
    (ts : List Tlv)
    → All IsTlv ts
    → All (λ t. t.len < 256) ts
    → All (λ t. validate_tlv t ≡ ok tt) ts
All-validate [] h k = tt
All-validate (t ∷ ts) (v, h) (b, k) = (unfold validate_tlv in ground arith, All-validate ts h k)

decode_loop-lens :
    (fuel : ℕ) (buf : Bytes) → AreBytes buf → All (λ t. t.len < 256) (decode_loop fuel buf)
unfolding decode_loop
decode_loop-lens zero buf h = tt
decode_loop-lens (suc fuel) [] h = tt
decode_loop-lens (suc fuel) (t ∷ []) h = tt
decode_loop-lens (suc fuel) (t ∷ l ∷ buf) (ht, (hl, h)) = elim (Bool-cases (ltb (length buf) l)) [
  | inl short ↦ rw short tt
  | inr room ↦ rw room (hl, decode_loop-lens fuel (drop l buf) (All-drop IsByte l buf h))
]

-- Every entry that is decoded from bytes passes `TLVData.Validate`.
pub validate-decode_tlv :
    (buf : Bytes) → AreBytes buf → All (λ t. validate_tlv t ≡ ok tt) (decode_tlv buf)
unfolding decode_tlv
validate-decode_tlv buf h =
    All-validate (decode_tlv buf) (((decode_tlv_iff buf (decode_tlv buf)).0 refl).0)
      (decode_loop-lens (length buf) buf h)
