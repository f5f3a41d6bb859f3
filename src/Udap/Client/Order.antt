-- ===== src/Udap/Client/Order.antt =====
-- The SetData request does not show the order in which `range` visits the caller's map.
use mathlib.Core.List.{Permᴰ}
use mathlib.Core.Path.{subst}
use go_udap.Prelude.{
  ◌≡◌, refl, ap, List, [], ◌∷◌, Option, none, some, Result, ok, err, length, ℕ, ◌++◌,
}
use go_udap.Prelude.Bytes.{Bytes, be16}
use go_udap.Prelude.Dict.{Dict}
use go_udap.Prelude.Sort.Order.{IsApart, sort-Perm}
use go_udap.Udap.Parameters.Table.{Parameter, parameter_by_name}
use go_udap.Udap.Discovery.{Device}
use go_udap.Udap.Client.Packets.{
  ParamEntry, entry_offset, param_list, set_data_payload, set_items, credentials, BuildError,
  create_set_data_packet,
}

-- The entry of one name and its value, in front of the others.
abbrev entry_before : Bytes × Bytes → List ParamEntry → List ParamEntry
entry_before e es = elim (parameter_by_name e.0) [
  | none ↦ es
  | some p ↦ record { value = e.1; parameter = p } ∷ es
]

before-cons :
    (o : Option Parameter) (v : Bytes) (es fs : List ParamEntry)
    → Permᴰ es fs
    → Permᴰ
        (elim o [ none ↦ es | some p ↦ record { value = v; parameter = p } ∷ es ])
        (elim o [ none ↦ fs | some p ↦ record { value = v; parameter = p } ∷ fs ])
before-cons none v es fs d = d
before-cons (some p) v es fs d = Permᴰ.cons refl d

Perm_self : (es : List ParamEntry) → Permᴰ es es
Perm_self [] = Permᴰ.nil
Perm_self (e ∷ es) = Permᴰ.cons refl (Perm_self es)

before-swap :
    (o p : Option Parameter) (v w : Bytes) (es : List ParamEntry)
    → Permᴰ
        (elim o [
          | none ↦ elim p [ none ↦ es | some r ↦ record { value = w; parameter = r } ∷ es ]
          | some q ↦
              record { value = v; parameter = q }
              ∷ elim p [ none ↦ es | some r ↦ record { value = w; parameter = r } ∷ es ]
        ])
        (elim p [
          | none ↦ elim o [ none ↦ es | some r ↦ record { value = v; parameter = r } ∷ es ]
          | some q ↦
              record { value = w; parameter = q }
              ∷ elim o [ none ↦ es | some r ↦ record { value = v; parameter = r } ∷ es ]
        ])
before-swap none none v w es = Perm_self es
before-swap none (some p) v w es = Perm_self _
before-swap (some o) none v w es = Perm_self _
before-swap (some o) (some p) v w es = Permᴰ.swap refl refl

param_list-Perm : (ps qs : Dict Bytes) → Permᴰ ps qs → Permᴰ (param_list ps) (param_list qs)
unfolding param_list
param_list-Perm [] [] Permᴰ.nil = Permᴰ.nil
param_list-Perm (p ∷ ps) (q ∷ qs) (Permᴰ.cons e d) =
    subst (λ r. Permᴰ (param_list (p ∷ ps)) (param_list (r ∷ qs))) e
      (before-cons (parameter_by_name p.0) p.1 (param_list ps) (param_list qs)
        (param_list-Perm ps qs d))
param_list-Perm (p ∷ q ∷ ps) (q' ∷ p' ∷ _) (Permᴰ.swap e f) =
    subst (λ r. Permᴰ (param_list (p ∷ q ∷ ps)) (param_list (q' ∷ r ∷ ps))) e
      (subst (λ r. Permᴰ (param_list (p ∷ q ∷ ps)) (param_list (r ∷ p ∷ ps))) f
        (before-swap (parameter_by_name p.0) (parameter_by_name q.0) p.1 q.1 (param_list ps)))
param_list-Perm ps rs (Permᴰ.trans {l₂ = qs} d e) =
    Permᴰ.trans (param_list-Perm ps qs d) (param_list-Perm qs rs e)

set_data_payload-Perm :
    (params params' : Dict Bytes)
    → Permᴰ params params'
    → IsApart entry_offset (param_list params)
    → set_data_payload params ≡ set_data_payload params'
unfolding set_data_payload
set_data_payload-Perm params params' d h =
    let build : List ParamEntry → Result BuildError Bytes = λ es. elim (set_items es) [
      | err x ↦ err x
      | ok items ↦ ok (credentials ++ (be16 (length es) ++ items))
    ] in
    ap build (
      sort-Perm entry_offset (param_list params) (param_list params')
        (param_list-Perm params params' d) h)

-- When the known names of a map lead to different offsets, the SetData packet is the same for every
-- order in which `range` visits the map.
pub create_set_data_packet-Perm :
    (device : Device) (params params' : Dict Bytes) (seq : ℕ)
    → Permᴰ params params'
    → IsApart entry_offset (param_list params)
    → create_set_data_packet device params seq ≡ create_set_data_packet device params' seq
unfolding create_set_data_packet
create_set_data_packet-Perm device params params' seq d h =
    rw (set_data_payload-Perm params params' d h) refl
