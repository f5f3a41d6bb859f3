-- ===== src/Udap/Tlv/Fold.antt =====
-- The parsers that scan entries in place see the entries that `DecodeTLV` returns.
use go_udap.Prelude.{ℕ, zero, suc, ◌≡◌, refl, List, [], ◌∷◌, length, take, drop, arith}
use go_udap.Prelude.Bytes.{Bytes}
use go_udap.Udap.Tlv.{Tlv, decode_loop, decode_tlv, scan_loop, scan_tlvs}

abbrev pub fold_tlvs {ℓ} : {S : Type ℓ} → (ℕ → Bytes → S → S) → List Tlv → S → S
fold_tlvs step [] s = s
fold_tlvs step (t ∷ ts) s = fold_tlvs step ts (step t.type t.value s)

module _ {ℓ} {S : Type ℓ} (step : ℕ → Bytes → S → S) where
  fold-decode_loop :
      (fuel : ℕ) (rest : Bytes) (s : S)
      → scan_loop step fuel rest s ≡ fold_tlvs step (decode_loop fuel rest) s
  unfolding scan_loop decode_loop
  fold-decode_loop zero rest s = refl
  fold-decode_loop (suc fuel) [] s = refl
  fold-decode_loop (suc fuel) (t ∷ []) s = refl
  fold-decode_loop (suc fuel) (t ∷ l ∷ rest) s =
      ground (arith, fold-decode_loop fuel (drop l rest) (step t (take l rest) s))

  -- Scanning in place is a fold over the decoded entries.
  pub scan_tlvs-fold :
      (buf : Bytes) (s : S) → scan_tlvs step buf s ≡ fold_tlvs step (decode_tlv buf) s
  unfolding scan_tlvs decode_tlv
  scan_tlvs-fold buf s = fold-decode_loop (length buf) buf s
