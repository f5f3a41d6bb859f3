-- ===== src/Udap/GetData/Items.antt =====
-- The wire form of a list of NVRAM items, and that the response parser reads exactly that form.
use go_udap.Prelude.{
  ℕ, zero, suc, ◌<◌, ◌≡◌, refl, List, [], ◌∷◌, ◌++◌, append_assoc, ltb, ltb→le, length, take, drop,
  length-append, length-take, take-length_append, drop-length_append, take-append-drop, All,
  All-drop, ok, arith, Bool-cases, inl, inr, ap, ◌↔◌,
}
use go_udap.Prelude.Bytes.{Bytes, IsByte, AreBytes, be16, from_be16, from_be16-be16, be16-from_be16}
use go_udap.Prelude.Dict.{Dict}
use go_udap.Udap.GetData.{file_item, read_items, parse_get_data_response}

pub record Item : Type 0 where
  pub offset : ℕ
  pub value : Bytes

pub record IsItem (it : Item) : Type 0 where
  pub offset : it.offset < 65536
  pub size : length it.value < 65536

-- offset, length, value
abbrev pub encode_items : List Item → Bytes
encode_items [] = []
encode_items (it ∷ its) =
    be16 it.offset ++ (be16 (length it.value) ++ (it.value ++ encode_items its))

-- What the items add to a result, one after another.
abbrev pub file_items : List Item → Dict Bytes → Dict Bytes
file_items [] out = out
file_items (it ∷ its) out = file_items its (file_item it.offset it.value out)

read-encode_items :
    (its : List Item) (i : ℕ) (rest : Bytes) (out : Dict Bytes)
    → All IsItem its
    → read_items (length its) i (encode_items its ++ rest) out ≡ ok (file_items its out)
unfolding read_items
read-encode_items [] i rest out h = refl
read-encode_items (it ∷ its) i rest out (v, h) =
    let more = read-encode_items its (suc i) rest (file_item it.offset it.value out) h in
    rw
      (
        from_be16-be16 it.offset v.offset,
        from_be16-be16 (length it.value) v.size,
        append_assoc it.value (encode_items its) rest,
        take-length_append it.value (encode_items its ++ rest),
        drop-length_append it.value (encode_items its ++ rest),
      )
      (ground (arith, length-append it.value (encode_items its ++ rest), more))

-- A payload that holds a count and that many well-formed items, with anything behind them, is
-- parsed to what the items add to an empty result.
pub parse-encode_items :
    (its : List Item) (rest : Bytes)
    → length its < 65536
    → All IsItem its
    → parse_get_data_response (be16 (length its) ++ (encode_items its ++ rest))
      ≡ ok (file_items its [])
unfolding parse_get_data_response
parse-encode_items its rest n h =
    rw (from_be16-be16 (length its) n) (read-encode_items its 0 rest [] h)

read_items_sound :
    (n i : ℕ) (buf : Bytes) (out res : Dict Bytes)
    → AreBytes buf
    → read_items n i buf out ≡ ok res
    → (its : List Item) × (rest : Bytes) × (length its ≡ n)
      × All IsItem its
      × (buf ≡ encode_items its ++ rest)
      × (res ≡ file_items its out)
unfolding read_items
read_items_sound zero i buf out res hb h = ([], buf, refl, tt, refl, cc)
read_items_sound (suc n) i (o0 ∷ o1 ∷ l0 ∷ l1 ∷ buf) out res (h0, (h1, (h2, (h3, hb)))) h =
    let ofs = from_be16 o0 o1 in
    let ln = from_be16 l0 l1 in
    elim (Bool-cases (ltb (length buf) ln)) [
      | inl short ↦ absurd (ground arith)
      | inr room ↦
          let (its, rest, len, valid, e, r) =
            read_items_sound n (suc i) (drop ln buf) (file_item ofs (take ln buf) out) res
              (All-drop IsByte ln buf hb) (ground arith) in
          let size : length (take ln buf) ≡ ln =
            omega (arith, length-take ln buf, ltb→le (length buf) ln room) in
          let (o_hi, o_lo, o_max) = be16-from_be16 o0 o1 h0 h1 in
          let (l_hi, l_lo, l_max) = be16-from_be16 l0 l1 h2 h3 in
          (
            record { offset = ofs; value = take ln buf } ∷ its,
            rest,
            ap suc len,
            (record { offset = o_max; size = omega arith }, valid),
            cc (
              size,
              o_hi,
              o_lo,
              l_hi,
              l_lo,
              take-append-drop ln buf,
              append_assoc (take ln buf) (encode_items its) rest,
              e,
            ),
            r,
          )
    ]
read_items_sound (suc n) i buf out res hb h = cc

sound :
    (buf : Bytes) (res : Dict Bytes)
    → AreBytes buf
    → parse_get_data_response buf ≡ ok res
    → (its : List Item) × (rest : Bytes) × (length its < 65536)
      × All IsItem its
      × (buf ≡ be16 (length its) ++ (encode_items its ++ rest))
      × (res ≡ file_items its [])
unfolding parse_get_data_response
sound [] res hb h = cc
sound (c0 ∷ []) res hb h = cc
sound (c0 ∷ c1 ∷ buf) res (h0, (h1, hb)) h =
    let (hi, lo, max) = be16-from_be16 c0 c1 h0 h1 in
    let (its, rest, len, valid, e, r) = read_items_sound (from_be16 c0 c1) 0 buf [] res hb h in
    (its, rest, omega arith, valid, cc (len, hi, lo, e), r)

-- A payload of bytes is parsed to `res` exactly when it holds a count and that many well-formed
-- items, with anything behind them, and `res` is what the items add to an empty result.
pub parse_get_data_response_iff :
    (buf : Bytes) (res : Dict Bytes)
    → AreBytes buf
    → (parse_get_data_response buf ≡ ok res) ↔ (
        (its : List Item) × (rest : Bytes) × (length its < 65536)
        × All IsItem its
        × (buf ≡ be16 (length its) ++ (encode_items its ++ rest))
        × (res ≡ file_items its []))
parse_get_data_response_iff buf res hb = (
  sound buf res hb,
  λ (its, rest, n, valid, e, r). rw (e, r) (parse-encode_items its rest n valid),
)
