-- ===== src/Cmd/Flags/Indices.antt =====
-- The indices of the `--device` flags.
use mathlib.Core.Path.{subst}
use go_udap.Prelude.{
  ℕ, ◌≤◌, ◌≡◌, refl, ap, ==_iff, Bool, true, false, Bool-cases, ◌||◌, List, [], ◌∷◌, ◌++◌, Option,
  none, some, Option-cases, ◌==◌, if◌then◌else◌, Result, ok, err, Result-cases, All, inl, inr,
  arith, ◌>>=◌,
}
use go_udap.Prelude.Bytes.{Bytes}
use go_udap.Go.Strings.{to_lower_word, cut_at}
use go_udap.Go.Strconv.{atoi}
use go_udap.Go.Space.{trim_space}
use go_udap.Mocksbr.Device.{DeviceConfig}
use go_udap.Cmd.Flags.{
  DeviceOverride, FlagError, missing_separator, missing_idx, Spec, parse_index, stored, set_key,
  parse_part, parse_parts, with_index, parse_one_device_spec, seen, parse_specs, parse_device_flags,
  split,
}

module _ (parse_duration : Bytes → Option (Bool × ℕ)) (n_devices : ℕ) where
  -- An index, if there is one, is that of a device.
  abbrev InRange : Option ℕ → Type 0
  InRange none = Unit
  InRange (some n) = (1 ≤ n) × (n ≤ n_devices)

  data IsRanged : Result FlagError Spec → Type 0 where
    refused : (e : FlagError) → IsRanged (err e)
    ranged : (st : Spec) → InRange st.index → IsRanged (ok st)

  either :
      (b : Bool) (r q : Result FlagError Spec)
      → IsRanged r
      → IsRanged q
      → IsRanged (if b then r else q)
  either true r q h k = h
  either false r q h k = k

  parse_index_lem :
      (val : Bytes) (n : ℕ) → parse_index n_devices val ≡ ok n → (1 ≤ n) × (n ≤ n_devices)
  unfolding parse_index
  parse_index_lem val n h = elim (Option-cases (atoi val)) [
    | inl bad ↦ absurd (ground (arith, bad, h))
    | inr ((negative, m), good) ↦ (ground (arith, good, h), ground (arith, good, h))
  ]

  stored_index :
      (st : Spec) (r : Result FlagError ℕ)
      → ((n : ℕ) → r ≡ ok n → (1 ≤ n) × (n ≤ n_devices))
      → IsRanged (stored (λ n. record st { index = some n }) r)
  stored_index st (err e) h = refused e
  stored_index st (ok n) h = ranged _ (h n refl)

  parse_index-stored :
      (val : Bytes) (st : Spec)
      → IsRanged (stored (λ n. record st { index = some n }) (parse_index n_devices val))
  parse_index-stored val st = stored_index st (parse_index n_devices val) (parse_index_lem val)

  stored_config :
      {A : Type 0} (g : A → DeviceConfig) (st : Spec) (r : Result FlagError A)
      → InRange st.index
      → IsRanged (stored (λ a. record st { config = g a }) r)
  stored_config g st (err e) h = refused e
  stored_config g st (ok a) h = ranged _ h

  set_key-IsRanged :
      (key val : Bytes) (st : Spec)
      → InRange st.index
      → IsRanged (set_key parse_duration n_devices key val st)
  unfolding set_key
  set_key-IsRanged key val st h =
      search (either, parse_index-stored, stored_config, ranged, refused, h) depth 40

  parse_part-IsRanged :
      (part : Bytes) (st : Spec)
      → InRange st.index
      → IsRanged (parse_part parse_duration n_devices part st)
  unfolding parse_part
  parse_part-IsRanged part st h =
      either _ _ _ (ranged st h) (cut_part (cut_at b'=' (trim_space part)))
    where
      cut_part :
          (o : Option (Bytes × Bytes))
          → IsRanged (elim o [
            | none ↦ err (missing_separator (trim_space part))
            | some (key, val) ↦
                set_key parse_duration n_devices
                  (to_lower_word (trim_space key))
                  (trim_space val)
                  st
          ])
      cut_part none = refused _
      cut_part (some (key, val)) =
          set_key-IsRanged (to_lower_word (trim_space key)) (trim_space val) st h

  continue-IsRanged :
      (r : Result FlagError Spec) (f : Spec → Result FlagError Spec)
      → IsRanged r
      → ((st : Spec) → InRange st.index → IsRanged (f st))
      → IsRanged (r >>= f)
  continue-IsRanged _ f (refused e) k = refused e
  continue-IsRanged _ f (ranged st h) k = k st h

  parse_parts-IsRanged :
      (parts : List Bytes) (st : Spec)
      → InRange st.index
      → IsRanged (parse_parts parse_duration n_devices parts st)
  unfolding parse_parts
  parse_parts-IsRanged [] st h = ranged st h
  parse_parts-IsRanged (part ∷ parts) st h =
      continue-IsRanged (parse_part parse_duration n_devices part st)
        (parse_parts parse_duration n_devices parts) (parse_part-IsRanged part st h)
        (parse_parts-IsRanged parts)

  abbrev HasIndex : DeviceOverride → Type 0
  HasIndex ov = (1 ≤ ov.idx) × (ov.idx ≤ n_devices)

  index-HasIndex :
      (o : Option ℕ) (cfg : DeviceConfig) (ov : DeviceOverride)
      → InRange o
      → (elim o [ none ↦ err missing_idx | some n ↦ ok (record { idx = n; cfg = cfg }) ]) ≡ ok ov
      → HasIndex ov
  index-HasIndex none cfg ov h e = absurd (ground (arith, e))
  index-HasIndex (some n) cfg ov (low, high) e =
      let same : n ≡ ov.idx =
        ap (λ (r : Result FlagError DeviceOverride). elim r [ ok o ↦ o.idx | err x ↦ n ]) e in
      (omega (arith, low, same), omega (arith, high, same))

  parse_one_device_spec-HasIndex :
      (spec : Bytes) (ov : DeviceOverride)
      → parse_one_device_spec parse_duration n_devices spec ≡ ok ov
      → HasIndex ov
  unfolding parse_one_device_spec
  parse_one_device_spec-HasIndex spec ov e =
      go (parse_parts parse_duration n_devices (split b',' spec) _)
        (parse_parts-IsRanged (split b',' spec) _ tt) e
    where
      go :
          (r : Result FlagError Spec)
          → IsRanged r
          → (r >>= with_index parse_duration n_devices) ≡ ok ov
          → HasIndex ov
      go _ (refused e) h = absurd (ground (arith, h))
      go _ (ranged st k) h = index-HasIndex st.index st.config ov k h

  -- No two indices are the same.
  abbrev AreApart : List DeviceOverride → Type 0
  AreApart [] = Unit
  AreApart (ov ∷ ovs) = (seen parse_duration n_devices ov.idx ovs ≡ false) × AreApart ovs

  pub record AreNumbered (ovs : List DeviceOverride) : Type 0 where
    pub in_range : All HasIndex ovs
    pub apart : AreApart ovs

  seen-append :
      (n : ℕ) (ovs : List DeviceOverride) (ov : DeviceOverride)
      → seen parse_duration n_devices n (ovs ++ ov ∷ [])
        ≡ (seen parse_duration n_devices n ovs || (ov.idx == n))
  seen-append n [] ov = ground arith
  seen-append n (x ∷ ovs) ov = ground (arith, seen-append n ovs ov)

  AreApart-append :
      (ovs : List DeviceOverride) (ov : DeviceOverride)
      → AreApart ovs
      → seen parse_duration n_devices ov.idx ovs ≡ false
      → AreApart (ovs ++ ov ∷ [])
  AreApart-append [] ov h new = (refl, tt)
  AreApart-append (x ∷ ovs) ov (p, h) new = (
    ground (arith, seen-append x.idx ovs ov, p, new, ==_iff x.idx ov.idx, ==_iff ov.idx x.idx),
    AreApart-append ovs ov h (ground (arith, new)),
  )

  All-snoc :
      (ovs : List DeviceOverride) (ov : DeviceOverride)
      → All HasIndex ovs
      → HasIndex ov
      → All HasIndex (ovs ++ ov ∷ [])
  All-snoc [] ov h k = (k, tt)
  All-snoc (x ∷ ovs) ov (p, h) k = (p, All-snoc ovs ov h k)

  parse_specs-AreNumbered :
      (specs : List Bytes) (out ovs : List DeviceOverride)
      → AreNumbered out
      → parse_specs parse_duration n_devices specs out ≡ ok ovs
      → AreNumbered ovs
  unfolding parse_specs
  parse_specs-AreNumbered [] out ovs h e =
      subst AreNumbered
        (ap (λ (r : Result FlagError (List DeviceOverride)). elim r [ ok o ↦ o | err x ↦ [] ]) e) h
  parse_specs-AreNumbered (spec ∷ specs) out ovs h e =
      elim (Result-cases (parse_one_device_spec parse_duration n_devices spec)) [
        | inr (x, bad) ↦ absurd (ground (arith, bad, e))
        | inl (ov, good) ↦ elim (Bool-cases (seen parse_duration n_devices ov.idx out)) [
          | inl twice ↦ absurd (ground (arith, good, twice, e))
          | inr new ↦
              parse_specs-AreNumbered specs (out ++ ov ∷ []) ovs
                (record {
                  in_range =
                      All-snoc out ov h.in_range (parse_one_device_spec-HasIndex spec ov good);
                  apart = AreApart-append out ov h.apart new;
                })
                (ground (arith, good, new, e))
        ]
      ]

  -- The indices of the overrides that are parsed from the --device flags are between 1 and the number
  -- of devices, and no two of them are the same.
  pub parse_device_flags-AreNumbered :
      (specs : List Bytes) (ovs : List DeviceOverride)
      → parse_device_flags parse_duration n_devices specs ≡ ok ovs
      → AreNumbered ovs
  unfolding parse_device_flags
  parse_device_flags-AreNumbered specs ovs e =
      parse_specs-AreNumbered specs [] ovs (record { in_range = tt; apart = tt }) e
