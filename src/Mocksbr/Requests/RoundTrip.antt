-- ===== src/Mocksbr/Requests/RoundTrip.antt =====
-- What the virtual device reads from the requests that the client builds.
use go_udap.Prelude.{
  ◌<◌, ◌≡◌, refl, sym, ◌∙◌, ap, List, [], ◌∷◌, ◌++◌, append_assoc, append-nil, map, Option, none,
  some, inl, inr, ok, err, Result-cases, length, length-append, drop, take, drop-length_append,
  take-length_append, All, arith,
}
use go_udap.Prelude.Bytes.{Bytes, AreBytes, be16, from_be16-be16}
use go_udap.Prelude.Dict.{Dict}
use go_udap.Prelude.Sort.{sort, All-sort, length-sort}
use go_udap.Udap.Parameters.Table.{Parameter, parameter_by_name}
use go_udap.Udap.Parameters.Codec.{encode}
use go_udap.Udap.Parameters.RoundTrip.{length-encode}
use go_udap.Udap.Parameters.Lookup.{IsEntry, parameter_by_name-IsEntry, IsEntry-bounds}
use go_udap.Udap.Client.Packets.{
  credentials, known_items, get_items, get_data_payload, ParamEntry, entry_offset, param_list,
  set_items, set_data_payload,
}
use go_udap.Mocksbr.Requests.{
  GetDataItem, SetDataItem, get_data_loop, parse_get_data_request, set_data_loop,
  parse_set_data_request,
}

keep-IsEntry :
    (o : Option Parameter) (ps : List Parameter)
    → ((p : Parameter) → o ≡ some p → IsEntry p)
    → All IsEntry ps
    → All IsEntry (elim o [ none ↦ ps | some p ↦ p ∷ ps ])
keep-IsEntry none ps h hs = hs
keep-IsEntry (some p) ps h hs = (h p refl, hs)

pub known_items-IsEntry : (names : List Bytes) → All IsEntry (known_items names)
unfolding known_items
known_items-IsEntry [] = tt
known_items-IsEntry (name ∷ names) =
    keep-IsEntry (parameter_by_name name) (known_items names) (parameter_by_name-IsEntry name)
      (known_items-IsEntry names)

-- The item that asks for a parameter.
abbrev pub requested : Parameter → GetDataItem
requested p = record { offset = p.offset; len = p.len; name = p.name }

get_data_loop-get_items :
    (ps : List Parameter) (rest : Bytes)
    → All IsEntry ps
    → get_data_loop (length ps) (get_items ps ++ rest) ≡ map requested ps
unfolding get_data_loop get_items
get_data_loop-get_items [] rest h = refl
get_data_loop-get_items (p ∷ ps) rest (e, h) =
    let (o, l) = IsEntry-bounds p e in
    cc (
      from_be16-be16 p.offset o,
      from_be16-be16 p.len l,
      e.device,
      get_data_loop-get_items ps rest h,
    )

-- Of a GetData request for any names, fewer than 65536 of them known, the virtual device reads the
-- known parameters, each with its offset, length and name, in the order of their offsets.
pub parse_get_data_request-get_data_payload :
    (names : List Bytes)
    → length (known_items names) < 65536
    → parse_get_data_request (get_data_payload names)
      ≡ map requested (sort (λ (p : Parameter). p.offset) (known_items names))
unfolding parse_get_data_request get_data_payload
parse_get_data_request-get_data_payload names h =
    let items = sort (λ (p : Parameter). p.offset) (known_items names) in
    let n = length-sort (λ (p : Parameter). p.offset) (known_items names) in
    let entries =
      All-sort (λ (p : Parameter). p.offset) IsEntry (known_items names)
        (known_items-IsEntry names) in
    rw (from_be16-be16 (length items) (omega (arith, n))) (
      ap (get_data_loop (length items)) (sym (append-nil (get_items items)))
      ∙ get_data_loop-get_items items [] entries)

-- The bytes that stand for an entry's value on the wire.
abbrev pub wire_value : ParamEntry → Bytes
wire_value e = elim (encode e.parameter e.value) [ ok bs ↦ bs | err x ↦ [] ]

wire_value_lem :
    (e : ParamEntry) (bs : Bytes) → encode e.parameter e.value ≡ ok bs → wire_value e ≡ bs
wire_value_lem e bs h = ground arith

-- The item that writes an entry.
abbrev pub written : ParamEntry → SetDataItem
written e = record {
  offset = e.parameter.offset;
  len = e.parameter.len;
  value = wire_value e;
  name = e.parameter.name;
}

pub record IsSendable (e : ParamEntry) : Type 0 where
  pub entry : IsEntry e.parameter
  pub value : AreBytes e.value

-- What a successful encoding of the entries consists of.
set_items_ok :
    (e : ParamEntry) (es : List ParamEntry) (items : Bytes)
    → set_items (e ∷ es) ≡ ok items
    → (bs rest : Bytes) × (encode e.parameter e.value ≡ ok bs)
      × (set_items es ≡ ok rest)
      × (items ≡ be16 e.parameter.offset ++ (be16 e.parameter.len ++ (bs ++ rest)))
unfolding set_items
set_items_ok e es items h = elim (Result-cases (encode e.parameter e.value)) [
  | inr (x, bad) ↦ absurd (ground arith)
  | inl (bs, good) ↦ elim (Result-cases (set_items es)) [
    | inr (x, bad) ↦ absurd (ground arith)
    | inl (rest, more) ↦ (bs, rest, good, more, ground arith)
  ]
]

set_data_loop-set_items :
    (es : List ParamEntry) (items rest : Bytes)
    → All IsSendable es
    → set_items es ≡ ok items
    → set_data_loop (length es) (items ++ rest) ≡ map written es
unfolding set_data_loop
set_data_loop-set_items [] items rest h q = refl
set_data_loop-set_items (e ∷ es) items rest (v, h) q =
    let (bs, more, good, others, eq) = set_items_ok e es items q in
    let (o, l) = IsEntry-bounds e.parameter v.entry in
    let (len, bytes) = length-encode e.parameter e.value bs v.value good in
    let ih = set_data_loop-set_items es more rest h others in
    let start : take e.parameter.len (bs ++ (more ++ rest)) ≡ bs =
      rw (sym len) (take-length_append bs (more ++ rest)) in
    let left : drop e.parameter.len (bs ++ (more ++ rest)) ≡ more ++ rest =
      rw (sym len) (drop-length_append bs (more ++ rest)) in
    rw
      (
        eq,
        append_assoc bs more rest,
        from_be16-be16 e.parameter.offset o,
        from_be16-be16 e.parameter.len l,
        start,
        left,
        ih,
      )
      (ground (arith, length-append bs (more ++ rest), wire_value_lem e bs good, v.entry.device))

keep-IsSendable :
    (o : Option Parameter) (v : Bytes) (es : List ParamEntry)
    → ((p : Parameter) → o ≡ some p → IsEntry p)
    → AreBytes v
    → All IsSendable es
    → All IsSendable (elim o [ none ↦ es | some p ↦ record { value = v; parameter = p } ∷ es ])
keep-IsSendable none v es h b hs = hs
keep-IsSendable (some p) v es h b hs = (record { entry = h p refl; value = b }, hs)

pub param_list-IsSendable :
    (params : Dict Bytes) → All (λ e. AreBytes e.1) params → All IsSendable (param_list params)
unfolding param_list
param_list-IsSendable [] h = tt
param_list-IsSendable ((name, v) ∷ params) (b, h) =
    keep-IsSendable (parameter_by_name name) v (param_list params) (parameter_by_name-IsEntry name)
      b (param_list-IsSendable params h)

set_data_payload_ok :
    (params : Dict Bytes) (payload : Bytes)
    → set_data_payload params ≡ ok payload
    → (items : Bytes) × (set_items (sort entry_offset (param_list params)) ≡ ok items)
      × (payload ≡ credentials ++ (be16 (length (sort entry_offset (param_list params))) ++ items))
unfolding set_data_payload
set_data_payload_ok params payload h =
    elim (Result-cases (set_items (sort entry_offset (param_list params)))) [
      | inr (x, bad) ↦ absurd (ground arith)
      | inl (items, good) ↦ (items, good, ground arith)
    ]

-- Of a SetData request that the client could build, from values of bytes for fewer than 65536 known
-- names, the virtual device reads one item for each, with the parameter's offset, length and name
-- and the encoded value, in the order of their offsets.
pub parse_set_data_request-set_data_payload :
    (params : Dict Bytes) (payload : Bytes)
    → All (λ e. AreBytes e.1) params
    → length (param_list params) < 65536
    → set_data_payload params ≡ ok payload
    → parse_set_data_request payload ≡ map written (sort entry_offset (param_list params))
unfolding parse_set_data_request
parse_set_data_request-set_data_payload params payload b h q =
    let es = sort entry_offset (param_list params) in
    let (items, good, eq) = set_data_payload_ok params payload q in
    let n = length-sort entry_offset (param_list params) in
    let sendable =
      All-sort entry_offset IsSendable (param_list params) (param_list-IsSendable params b) in
    rw (eq, from_be16-be16 (length es) (omega (arith, n)))
      (ap (set_data_loop (length es)) (sym (append-nil items))
        ∙ set_data_loop-set_items es items [] sendable good)
