-- ===== src/Cli/Set/Interface.antt =====
-- What `set` makes of the interface of a device that has none configured.
use go_udap.Prelude.{
  ◌≡◌, ◌≢◌, refl, false, none, some, Option-cases, Bool-cases, inl, inr, length, ◌==◌,
  if◌then◌else◌, arith,
}
use go_udap.Prelude.Bytes.{Bytes, bytes_eq, bytes_eq_self, bytes_eq_iff, codes}
use go_udap.Prelude.Dict.{Dict, get, put, copy, get-put, get-copy}
use go_udap.Udap.Parameters.Table.{Parameter, parameter_by_name, parameter_index, parameters}
use go_udap.Cli.Output.{read_or_empty}
use go_udap.Cli.Set.{apply_interface_default}

abbrev pub interface_key : Bytes
interface_key = codes "interface"

abbrev pub unset : Bytes
unset = codes "128"

abbrev entry : Parameter
entry = record {
  name = interface_key;
  offset = 52;
  len = 1;
  placeholder = codes "0|1";
  help = codes "0=wireless, 1=wired (Ethernet)";
  factory_default = unset;
}

interface_known : parameter_by_name (codes "interface") ≡ some entry
unfolding parameter_by_name parameter_index parameters
interface_known = refl

unset_apart :
    (bytes_eq (codes "0") (codes "128") ≡ false) × (bytes_eq (codes "1") (codes "128") ≡ false)
unfolding bytes_eq
unset_apart = (refl, refl)

-- The parameters stay, because of the caller's choice or of the device's value, or get an interface.
data IsSubstituted (merged known : Dict Bytes) : Type 0 where
  chosen :
      (v : Bytes)
      → get interface_key merged ≡ some v
      → apply_interface_default merged known ≡ merged
      → IsSubstituted merged known
  configured :
      get interface_key merged ≡ none
      → bytes_eq (read_or_empty interface_key known) unset ≡ false
      → apply_interface_default merged known ≡ merged
      → IsSubstituted merged known
  substituted :
      (v : Bytes)
      → get interface_key merged ≡ none
      → bytes_eq v unset ≡ false
      → apply_interface_default merged known ≡ put interface_key v merged
      → IsSubstituted merged known

apply_interface_default-IsSubstituted : (merged known : Dict Bytes) → IsSubstituted merged known
unfolding apply_interface_default
apply_interface_default-IsSubstituted merged known =
    elim (Option-cases (get interface_key merged)) [
      | inr (v, given) ↦ chosen v given (ground (arith, given))
      | inl vacant ↦ elim (Bool-cases (bytes_eq (read_or_empty interface_key known) unset)) [
        | inr set ↦ configured vacant set (ground (arith, vacant, interface_known, set))
        | inl sentinel ↦
            elim (Bool-cases (length (read_or_empty (codes "wireless_SSID") merged) == 0)) [
              | inl wired ↦
                  substituted (codes "1") vacant unset_apart.1
                    (ground (arith, vacant, interface_known, sentinel, wired))
              | inr wireless ↦
                  substituted (codes "0") vacant unset_apart.0
                    (ground (arith, vacant, interface_known, sentinel, wireless))
            ]
      ]
    ]

-- What the device has of a parameter behind a set: the caller's value, else the cached one.
abbrev pub value_behind : Bytes → Dict Bytes → Dict Bytes → Bytes
value_behind k known m = read_or_empty k (copy known m)

value_behind-put : (k v : Bytes) (known m : Dict Bytes) → value_behind k known (put k v m) ≡ v
unfolding read_or_empty
value_behind-put k v known m =
    ground (arith, get-copy k known (put k v m), get-put k k v m, bytes_eq_self k)

value_behind-none :
    (k : Bytes) (known m : Dict Bytes)
    → get k m ≡ none
    → value_behind k known m ≡ read_or_empty k known
unfolding read_or_empty
value_behind-none k known m h = ground (arith, get-copy k known m)

-- If the caller chooses no interface, then behind a set that writes its parameters with the
-- substitution over the cached ones, the interface is not the factory's sentinel; and the
-- substitution changes no other parameter.
pub apply_interface_default_lem :
    (merged known : Dict Bytes)
    → get interface_key merged ≡ none
    → (value_behind interface_key known (apply_interface_default merged known) ≢ unset)
      × ((k : Bytes)
          → get k (apply_interface_default merged known) ≡ (
              if bytes_eq interface_key k
              then get interface_key (apply_interface_default merged known)
              else get k merged))
apply_interface_default_lem merged known vacant =
    elim (apply_interface_default-IsSubstituted merged known) [
      | chosen v given same ↦ absurd (ground (arith, vacant, given))
      | configured _ set same ↦ (
        λ h. ground (
          arith,
          h,
          set,
          same,
          value_behind-none interface_key known merged vacant,
          bytes_eq_iff (read_or_empty interface_key known) unset,
        ),
        λ k. rw same (ground (arith, bytes_eq_iff interface_key k)),
      )
      | substituted v _ set new ↦ (
        λ h. ground (
          arith,
          h,
          set,
          new,
          value_behind-put interface_key v known merged,
          bytes_eq_iff v unset,
        ),
        λ k.
            rw new (ground (arith, bytes_eq_iff interface_key k, get-put interface_key k v merged)),
      )
    ]
