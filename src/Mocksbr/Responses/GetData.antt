-- ===== src/Mocksbr/Responses/GetData.antt =====
-- What the client reads from the virtual device's answer to a GetData request.
use mathlib.Core.Path.{subst}
use go_udap.Prelude.{
  ℕ, ◌+◌, ◌<◌, ◌≡◌, refl, sym, ◌∙◌, ap, List, [], ◌∷◌, ◌++◌, append_assoc, append-nil, map, ok,
  length, length-append, length-map, All, All-append, arith, inl, inr, Bool-cases,
}
use go_udap.Prelude.Bytes.{Bytes, AreBytes, be16, bytes_eq}
use go_udap.Prelude.Dict.{Dict, get}
use go_udap.Prelude.Sort.{sort, All-sort, length-sort}
use go_udap.Udap.Parameters.Table.{Parameter}
use go_udap.Udap.Parameters.Lookup.{IsEntry, IsEntry-bounds}
use go_udap.Udap.GetData.{parse_get_data_response}
use go_udap.Udap.GetData.Items.{Item, IsItem, encode_items, file_items, parse-encode_items}
use go_udap.Udap.Client.Packets.{known_items, get_data_payload}
use go_udap.Mocksbr.Device.{MockDevice, MalformedMode, malformed_none, read_key}
use go_udap.Mocksbr.Requests.{parse_get_data_request}
use go_udap.Mocksbr.Requests.RoundTrip.{
  requested, known_items-IsEntry, parse_get_data_request-get_data_payload,
}
use go_udap.Mocksbr.Values.{encode_param_value}
use go_udap.Mocksbr.Values.Agree.{length-encode_param_value}
use go_udap.Mocksbr.Responses.{requested_items, unknown_items, get_data_body}

-- The item by which the device answers for a parameter.
abbrev pub held : MockDevice → Parameter → Item
held d p = record {
  offset = p.offset;
  value = encode_param_value p.len (read_key p.name d.working_memory);
}

-- An entry at an offset that the table does not have.
abbrev pub raw : ℕ × Bytes → Item
raw (o, v) = record { offset = o; value = v }

-- A key of a map of texts, present or not, reads as a text.
read_key-AreBytes :
    (k : Bytes) (m : Dict Bytes) → All (λ e. AreBytes e.1) m → AreBytes (read_key k m)
unfolding get
read_key-AreBytes k [] h = tt
read_key-AreBytes k ((key, v) ∷ m) (b, h) = elim (Bool-cases (bytes_eq key k)) [
  | inl here ↦ let e : v ≡ read_key k ((key, v) ∷ m) = ground (arith, here) in subst AreBytes e b
  | inr there ↦
      let e : read_key k m ≡ read_key k ((key, v) ∷ m) = ground (arith, there) in
      subst AreBytes e (read_key-AreBytes k m h)
]

module _ (d : MockDevice) (stored : (k : Bytes) → AreBytes (read_key k d.working_memory)) where
  held-IsItem : (p : Parameter) → IsEntry p → IsItem (held d p)
  held-IsItem p e =
      let (o, l) = IsEntry-bounds p e in
      record {
        offset = o;
        size =
            omega (
              arith,
              length-encode_param_value p (read_key p.name d.working_memory) (stored p.name),
            );
      }

  All-held : (ps : List Parameter) → All IsEntry ps → All IsItem (map (held d) ps)
  All-held [] h = tt
  All-held (p ∷ ps) (e, h) = (held-IsItem p e, All-held ps h)

  requested_items-requested :
      (ps : List Parameter)
      → All IsEntry ps
      → requested_items d (map requested ps) ≡ encode_items (map (held d) ps)
  unfolding requested_items
  requested_items-requested [] h = refl
  requested_items-requested (p ∷ ps) (e, h) = cc (
    length-encode_param_value p (read_key p.name d.working_memory) (stored p.name),
    requested_items-requested ps h,
  )

unknown_items-raw : (us : List (ℕ × Bytes)) → unknown_items us ≡ encode_items (map raw us)
unfolding unknown_items
unknown_items-raw [] = refl
unknown_items-raw ((o, v) ∷ us) = cc (unknown_items-raw us)

encode_items-append :
    (is js : List Item) → encode_items (is ++ js) ≡ encode_items is ++ encode_items js
encode_items-append [] js = refl
encode_items-append (i ∷ is) js =
    cc (encode_items-append is js, append_assoc i.value (encode_items is) (encode_items js))

All-raw : (us : List (ℕ × Bytes)) → All (λ u. IsItem (raw u)) us → All IsItem (map raw us)
All-raw [] h = tt
All-raw (u ∷ us) (v, h) = (v, All-raw us h)

-- The items of a well-formed answer.
abbrev pub answer : MockDevice → List Bytes → List Item
answer d names =
    map (held d) (sort (λ (p : Parameter). p.offset) (known_items names))
    ++ map raw (sort (λ (u : ℕ × Bytes). u.0) d.cfg.unknown_offsets)

length-answer :
    (d : MockDevice) (names : List Bytes)
    → length (answer d names) ≡ length (known_items names) + length d.cfg.unknown_offsets
length-answer d names =
    let ps = sort (λ (p : Parameter). p.offset) (known_items names) in
    let us = sort (λ (u : ℕ × Bytes). u.0) d.cfg.unknown_offsets in
    omega (
      arith,
      length-append (map (held d) ps) (map raw us),
      length-map ps (held d),
      length-map us raw,
      length-sort (λ (p : Parameter). p.offset) (known_items names),
      length-sort (λ (u : ℕ × Bytes). u.0) d.cfg.unknown_offsets,
    )

module _ (d : MockDevice) (names : List Bytes) (texts : All (λ e. AreBytes e.1) d.working_memory)
    (fits : length (known_items names) + length d.cfg.unknown_offsets < 65536) where
  get_data_body_lem :
      d.cfg.malformed ≡ malformed_none
      → get_data_body d.cfg.malformed d (parse_get_data_request (get_data_payload names))
        ≡ be16 (length (answer d names)) ++ encode_items (answer d names)
  unfolding get_data_body
  get_data_body_lem m =
      let ps = sort (λ (p : Parameter). p.offset) (known_items names) in
      let us = sort (λ (u : ℕ × Bytes). u.0) d.cfg.unknown_offsets in
      let entries =
        All-sort (λ (p : Parameter). p.offset) IsEntry (known_items names)
          (known_items-IsEntry names) in
      let count : length (map requested ps) + length d.cfg.unknown_offsets
          ≡ length (answer d names) =
        omega (
          arith,
          length-answer d names,
          length-map ps requested,
          length-sort (λ (p : Parameter). p.offset) (known_items names),
        ) in
      ap
        (λ (b : MalformedMode). get_data_body b d (parse_get_data_request (get_data_payload names)))
        m
      ∙ rw
          (
            parse_get_data_request-get_data_payload names (omega (arith, fits)),
            count,
            requested_items-requested d (λ k. read_key-AreBytes k d.working_memory texts) ps
                entries,
            unknown_items-raw us,
            sym (encode_items-append (map (held d) ps) (map raw us)),
          )
          refl

  -- From the answer of a device that is not set to malform it, to a request that the client built, the
  -- client reads the known parameters that it asked for, in the order of their offsets, each with the
  -- stored value as the device encodes it, and then the device's extra entries. The stored values are
  -- texts of bytes, the extra entries fit their fields, and all entries are fewer than 65536.
  pub parse_get_data_response-get_data_body :
      d.cfg.malformed ≡ malformed_none
      → All (λ u. IsItem (raw u)) d.cfg.unknown_offsets
      → parse_get_data_response
          (get_data_body d.cfg.malformed d (parse_get_data_request (get_data_payload names)))
        ≡ ok (file_items (answer d names) [])
  parse_get_data_response-get_data_body m extra =
      let ps = sort (λ (p : Parameter). p.offset) (known_items names) in
      let us = sort (λ (u : ℕ × Bytes). u.0) d.cfg.unknown_offsets in
      let entries =
        All-sort (λ (p : Parameter). p.offset) IsEntry (known_items names)
          (known_items-IsEntry names) in
      let extras =
        All-sort (λ (u : ℕ × Bytes). u.0) (λ u. IsItem (raw u)) d.cfg.unknown_offsets extra in
      let valid =
        All-append IsItem (map (held d) ps) (map raw us)
          (All-held d (λ k. read_key-AreBytes k d.working_memory texts) ps entries)
          (All-raw us extras) in
      let n = length-answer d names in
      ap parse_get_data_response (
        get_data_body_lem m
        ∙ ap (λ s. be16 (length (answer d names)) ++ s)
            (sym (append-nil (encode_items (answer d names)))))
      ∙ parse-encode_items (answer d names) [] (omega (arith, n)) valid
