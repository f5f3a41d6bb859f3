-- ===== src/Mocksbr/Network/Members.antt =====
-- The network's invariant: the insertion order lists every device once, and nothing else.
use mathlib.Core.Path.{subst}
use go_udap.Prelude.{
  ℕ, zero, suc, ◌≡◌, refl, List, [], ◌∷◌, ◌++◌, Bool, true, false, ◌&&◌, ◌||◌, not, Bool-cases, inl,
  inr, none, some, Option-cases, some, ltb, length, take, drop, get_elem?, arith,
}
use go_udap.Prelude.Bytes.{Bytes, bytes_eq, bytes_eq_iff}
use go_udap.Prelude.Dict.{Dict, get, put, delete_where, get-put, get-delete_where}
use go_udap.Go.Strings.{to_lower}
use go_udap.Mocksbr.Device.{DeviceConfig, MockDevice, new_device}
use go_udap.Mocksbr.Network.{Network, empty_network, valid_mac, add, remove_auto}

abbrev pub listed : Bytes → List Bytes → Bool
listed k [] = false
listed k (x ∷ xs) = bytes_eq x k || listed k xs

abbrev pub has : Bytes → Dict MockDevice → Bool
has k m = elim (get k m) [ none ↦ false | some d ↦ true ]

abbrev pub IsDistinct : List Bytes → Type 0
IsDistinct [] = Unit
IsDistinct (x ∷ xs) = (listed x xs ≡ false) × IsDistinct xs

pub record IsNetwork (n : Network) : Type 0 where
  pub keyed : (k : Bytes) → has k n.devices ≡ listed k n.order
  pub distinct : IsDistinct n.order

bytes_eq_comm : (x y : Bytes) → bytes_eq x y ≡ bytes_eq y x
bytes_eq_comm x y = ground (arith, bytes_eq_iff x y, bytes_eq_iff y x)

pub listed-append :
    (k : Bytes) (xs ys : List Bytes) → listed k (xs ++ ys) ≡ (listed k xs || listed k ys)
listed-append k [] ys = refl
listed-append k (x ∷ xs) ys = ground (arith, listed-append k xs ys)

IsDistinct-append :
    (xs : List Bytes) (mac : Bytes)
    → IsDistinct xs
    → listed mac xs ≡ false
    → IsDistinct (xs ++ mac ∷ [])
IsDistinct-append [] mac h n = (refl, tt)
IsDistinct-append (x ∷ xs) mac (q, h) n = (
  ground (arith, listed-append x xs (mac ∷ []), bytes_eq_comm x mac),
  IsDistinct-append xs mac h (ground arith),
)

listed-get_elem? :
    (i : ℕ) (xs : List Bytes) (m : Bytes) → get_elem? xs i ≡ some m → listed m xs ≡ true
listed-get_elem? i [] m e = absurd (ground arith)
listed-get_elem? zero (x ∷ xs) m e = ground (arith, bytes_eq_iff x m)
listed-get_elem? (suc i) (x ∷ xs) m e = ground (arith, listed-get_elem? i xs m e)

-- Without its element at `i`, a list of distinct addresses lists the others.
listed-remove :
    (k : Bytes) (i : ℕ) (xs : List Bytes) (m : Bytes)
    → IsDistinct xs
    → get_elem? xs i ≡ some m
    → listed k (take i xs ++ drop (suc i) xs) ≡ (not (bytes_eq m k) && listed k xs)
listed-remove k i [] m h e = absurd (ground arith)
listed-remove k zero (x ∷ xs) m (q, h) e = ground (arith, bytes_eq_iff x k)
listed-remove k (suc i) (x ∷ xs) m (q, h) e = ground (
  arith,
  listed-remove k i xs m h e,
  bytes_eq_iff x k,
  bytes_eq_iff m k,
  listed-get_elem? i xs m e,
)

IsDistinct-remove :
    (i : ℕ) (xs : List Bytes) (m : Bytes)
    → IsDistinct xs
    → get_elem? xs i ≡ some m
    → IsDistinct (take i xs ++ drop (suc i) xs)
IsDistinct-remove i [] m h e = absurd (ground arith)
IsDistinct-remove zero (x ∷ xs) m (q, h) e = h
IsDistinct-remove (suc i) (x ∷ xs) m (q, h) e =
    (ground (arith, listed-remove x i xs m h e), IsDistinct-remove i xs m h e)

-- A network without devices.
pub empty-IsNetwork : IsNetwork empty_network
unfolding get
empty-IsNetwork = record { keyed = λ k. refl; distinct = tt }

-- The network with one more device.
abbrev pub extended : Bytes → MockDevice → Network → Network
extended mac d n = record { devices = put mac d n.devices; order = n.order ++ mac ∷ [] }

pub extended-IsNetwork :
    (mac : Bytes) (d : MockDevice) (n : Network)
    → IsNetwork n
    → get mac n.devices ≡ none
    → IsNetwork (extended mac d n)
extended-IsNetwork mac d n h free = record {
  keyed =
      λ k. ground (arith, get-put mac k d n.devices, h.keyed k, listed-append k n.order (mac ∷ []));
  distinct = IsDistinct-append n.order mac h.distinct (ground (arith, h.keyed mac));
}

-- The network without the device at a place in the order.
abbrev shrunk : ℕ → Bytes → Network → Network
shrunk i mac n = record {
  devices = delete_where (λ k. bytes_eq k mac) n.devices;
  order = take i n.order ++ drop (suc i) n.order;
}

shrunk-IsNetwork :
    (i : ℕ) (mac : Bytes) (n : Network)
    → IsNetwork n
    → get_elem? n.order i ≡ some mac
    → IsNetwork (shrunk i mac n)
shrunk-IsNetwork i mac n h e = record {
  keyed = λ k. ground (
    arith,
    get-delete_where (λ j. bytes_eq j mac) k n.devices,
    h.keyed k,
    bytes_eq_comm k mac,
    listed-remove k i n.order mac h.distinct e,
  );
  distinct = IsDistinct-remove i n.order mac h.distinct e;
}

-- Adding a device, whether it succeeds or fails, keeps the network's invariant: the insertion order
-- lists every device once, and nothing else.
pub IsNetwork-add : (cfg : DeviceConfig) (n : Network) → IsNetwork n → IsNetwork (add cfg n).1
unfolding add
IsNetwork-add cfg n h = elim (Bool-cases (valid_mac cfg.mac)) [
  | inr bad ↦ let e : n ≡ (add cfg n).1 = ground arith in subst IsNetwork e h
  | inl good ↦ elim (Option-cases (get (to_lower cfg.mac) n.devices)) [
    | inr (d, taken) ↦ let e : n ≡ (add cfg n).1 = ground arith in subst IsNetwork e h
    | inl free ↦
        let mac = to_lower cfg.mac in
        let d = new_device (record cfg { mac = mac }) in
        let e : extended mac d n ≡ (add cfg n).1 = ground arith in
        subst IsNetwork e (extended-IsNetwork mac d n h free)
  ]
]

-- Removing a device by its index, whether the index is in range or not, keeps the network's
-- invariant: the insertion order lists every device once, and nothing else.
pub IsNetwork-remove_auto : (idx : ℕ) (n : Network) → IsNetwork n → IsNetwork (remove_auto idx n).1
unfolding remove_auto
IsNetwork-remove_auto zero n h = h
IsNetwork-remove_auto (suc i) n h = elim (Bool-cases (ltb (length n.order) (suc i))) [
  | inl out ↦ let e : n ≡ (remove_auto (suc i) n).1 = ground arith in subst IsNetwork e h
  | inr inside ↦ elim (Option-cases (get_elem? n.order i)) [
    | inl nothing ↦ let e : n ≡ (remove_auto (suc i) n).1 = ground arith in subst IsNetwork e h
    | inr (mac, found) ↦
        let e : shrunk i mac n ≡ (remove_auto (suc i) n).1 = ground arith in
        subst IsNetwork e (shrunk-IsNetwork i mac n h found)
  ]
]
