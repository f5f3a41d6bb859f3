-- ===== src/Udap/Parameters/Lookup.antt =====
-- The four lookups over the parameter table agree: by name and by offset, in the client and in the
-- virtual device.
use mathlib.Core.Path.{subst}
use mathlib.Core.Option.{some-injective}
use go_udap.Prelude.{
  length, ◌==◌, ◌<◌, if◌then◌else◌, Option-cases, inl, inr, ◌≡◌, List, [], ◌∷◌, Option, none, some,
  Bool, true, false, ok, All, arith,
}
use go_udap.Prelude.Bytes.{Bytes, bytes_eq}
use go_udap.Prelude.Dict.{get}
use go_udap.Udap.Parameters.Table.{
  Parameter, parameters, parameter_aliases, last_match, parameter_index, parameter_by_name,
  config_param_by_offset, validate_entry,
}
use go_udap.Mocksbr.Requests.{parameter_by_offset}

-- What every lookup says of a table entry.
pub record IsEntry (p : Parameter) : Type 0 where
  pub valid : validate_entry p ≡ ok tt
  pub client : config_param_by_offset p.offset ≡ some p.name
  pub device : parameter_by_offset p.offset ≡ p.name
  pub name : parameter_by_name p.name ≡ some p
  pub named : (length p.name == 0) ≡ false

is_entry :
    {p : Parameter}
    → validate_entry p ≡ ok tt
    → config_param_by_offset p.offset ≡ some p.name
    → parameter_by_offset p.offset ≡ p.name
    → parameter_by_name p.name ≡ some p
    → (length p.name == 0) ≡ false
    → IsEntry p
is_entry v c d n l = record { valid = v; client = c; device = d; name = n; named = l }

All-IsEntry : All IsEntry parameters
unfolding parameters validate_entry config_param_by_offset parameter_by_offset parameter_by_name
    parameter_index
All-IsEntry = search (is_entry) depth 40

-- The last match is the later one if there is one, else the element itself.
match-cases {ℓ κ} :
    {A : Type ℓ} (P : A → Type κ) (o : Option A) (c : Bool) (x a : A)
    → ((b : A) → o ≡ some b → P b)
    → P x
    → elim o [ some y ↦ some y | none ↦ if c then some x else none ] ≡ some a
    → P a
match-cases P (some y) c x a h p e = h a e
match-cases P none true x a h p e = subst P (some-injective _ _ e) p
match-cases P none false x a h p e = absurd (ground arith)

last_match-All {ℓ κ} :
    {A : Type ℓ} (P : A → Type κ) (test : A → Bool) (xs : List A) (a : A)
    → All P xs
    → last_match test xs ≡ some a
    → P a
unfolding last_match
last_match-All P test [] a h e = absurd (ground arith)
last_match-All P test (x ∷ xs) a (p, h) e =
    match-cases P (last_match test xs) (test x) x a (λ b later. last_match-All P test xs b h later)
      p e

-- What holds for the whole table holds for what a name, or its alias, leads to.
pub parameter_by_name-All {κ} :
    (P : Parameter → Type κ) (name : Bytes) (p : Parameter)
    → All P parameters
    → parameter_by_name name ≡ some p
    → P p
unfolding parameter_by_name parameter_index
parameter_by_name-All P name p all h = elim (Option-cases (parameter_index name)) [
  | inr (q, found) ↦ last_match-All P (λ r. bytes_eq r.name name) parameters p all (ground arith)
  | inl absent ↦ elim (Option-cases (get name parameter_aliases)) [
    | inr (canonical, found) ↦
        last_match-All P (λ r. bytes_eq r.name canonical) parameters p all (ground arith)
    | inl unknown ↦ absurd (ground arith)
  ]
]

-- A parameter that is found under a name, which may be an alias, has a valid offset and length; its
-- offset leads back to its name, in the client and in the virtual device, and its name to itself.
pub parameter_by_name-IsEntry :
    (name : Bytes) (p : Parameter) → parameter_by_name name ≡ some p → IsEntry p
parameter_by_name-IsEntry name p h = parameter_by_name-All IsEntry name p All-IsEntry h

pub IsEntry-bounds : (p : Parameter) → IsEntry p → (p.offset < 65536) × (p.len < 65536)
IsEntry-bounds p e = let v = e.valid in unfold validate_entry in (ground arith, ground arith)
