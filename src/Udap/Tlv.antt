-- ===== src/Udap/Tlv.antt =====
-- udap/protocol.go: type-length-value entries; udap/validation.go: `TLVData.Validate`.
pub mod RoundTrip
pub mod Fold
use go_udap.Prelude.{
  ℕ, zero, suc, ◌≡◌, refl, not, List, [], ◌∷◌, ◌++◌, ltb, ◌==◌, if◌then◌else◌, length, take, drop,
  Result, ok, err,
}
use go_udap.Prelude.Bytes.{Bytes, codes}

-- `TLVData`
pub record Tlv : Type 0 where
  pub type : ℕ
  pub len : ℕ
  pub value : Bytes

abbrev pub type_error_message : ℕ
type_error_message = 3

abbrev pub max_tlv_value_length : ℕ
max_tlv_value_length = 255

-- `EncodeTLV` writes the declared length, whatever the value's.
unfoldable pub encode_tlv : List Tlv → Bytes
encode_tlv [] = []
encode_tlv (t ∷ ts) = t.type ∷ t.len ∷ (t.value ++ encode_tlv ts)

-- The loop of `DecodeTLV` on the bytes from `offset` on. A round takes two bytes at least.
unfoldable pub decode_loop : ℕ → Bytes → List Tlv
decode_loop zero rest = []
decode_loop (suc fuel) [] = []
decode_loop (suc fuel) (t ∷ []) = []
decode_loop (suc fuel) (t ∷ l ∷ rest) =
    let more = decode_loop fuel (drop l rest) in
    if ltb (length rest) l then [] else record { type = t; len = l; value = take l rest } ∷ more

unfoldable pub decode_tlv : Bytes → List Tlv
unfolding decode_loop
decode_tlv buf = decode_loop (length buf) buf

pub data TlvError : Type 0 where
  length_mismatch : ℕ → ℕ → TlvError
  value_too_long : ℕ → TlvError

unfoldable pub validate_tlv : Tlv → Result TlvError (Unit {0})
validate_tlv t =
    if not (t.len == length t.value)
    then err (length_mismatch t.len (length t.value))
    else if ltb max_tlv_value_length (length t.value)
    then err (value_too_long (length t.value))
    else ok tt

-- The skeleton that the discovery and the get_ip parsers write out: the same cuts as `DecodeTLV`,
-- with a step on the state for each entry.
unfoldable pub scan_loop {ℓ} : {S : Type ℓ} → (ℕ → Bytes → S → S) → ℕ → Bytes → S → S
scan_loop step zero rest s = s
scan_loop step (suc fuel) [] s = s
scan_loop step (suc fuel) (t ∷ []) s = s
scan_loop step (suc fuel) (t ∷ l ∷ rest) s =
    let more = scan_loop step fuel (drop l rest) (step t (take l rest) s) in
    if ltb (length rest) l then s else more

unfoldable pub scan_tlvs {ℓ} : {S : Type ℓ} → (ℕ → Bytes → S → S) → Bytes → S → S
unfolding scan_loop
scan_tlvs step buf s = scan_loop step (length buf) buf s

decode_tests :
    (decode_tlv (3 ∷ 2 ∷ 65 ∷ 66 ∷ 2 ∷ 9 ∷ 1 ∷ [])
      ≡ record { type = 3; len = 2; value = codes "AB" } ∷ [])
    × (decode_tlv (7 ∷ 0 ∷ 8 ∷ []) ≡ record { type = 7; len = 0; value = [] } ∷ [])
unfolding decode_tlv
decode_tests = (refl, refl)
