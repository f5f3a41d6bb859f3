-- ===== src/Cli/Output/Sorted.antt =====
-- The sorted parameter list has the map's entries, each once.
use mathlib.Core.Path.{subst}
use go_udap.Prelude.{◌≡◌, List, [], ◌∷◌, map, Bool, false, Bool-cases, inl, inr, All, arith}
use go_udap.Prelude.Bytes.{Bytes, bytes_eq, bytes_eq_iff, bytes_eq_self}
use go_udap.Prelude.Dict.{Dict, get}
use go_udap.Prelude.Sort.Texts.{insert, sorted}
use go_udap.Go.Strings.{text_lt}
use go_udap.Cli.Output.{
  ParamValue, read_or_empty, sorted_params, is_dropped, filter_read_output, IsDistinct,
}

abbrev pub keys : Dict Bytes → List Bytes
keys = map (λ e. e.0)

abbrev pub AreDistinct : List Bytes → Type 0
AreDistinct [] = Unit
AreDistinct (x ∷ xs) = All (λ y. bytes_eq x y ≡ false) xs × AreDistinct xs

module _ (lt : Bytes → Bytes → Bool) where
  All-insert {κ} :
      (P : Bytes → Type κ) (x : Bytes) (xs : List Bytes) → P x → All P xs → All P (insert lt x xs)
  unfolding insert
  All-insert P x [] p h = (p, tt)
  All-insert P x (y ∷ ys) p (q, h) = elim (Bool-cases (lt y x)) [
    | inl behind ↦ rw behind (q, All-insert P x ys p h)
    | inr front ↦ rw front (p, (q, h))
  ]

  All-sorted {κ} : (P : Bytes → Type κ) (xs : List Bytes) → All P xs → All P (sorted lt xs)
  unfolding sorted
  All-sorted P [] h = tt
  All-sorted P (x ∷ xs) (p, h) = All-insert P x (sorted lt xs) p (All-sorted P xs h)

  AreDistinct-insert :
      (x : Bytes) (xs : List Bytes)
      → All (λ y. bytes_eq x y ≡ false) xs
      → AreDistinct xs
      → AreDistinct (insert lt x xs)
  unfolding insert
  AreDistinct-insert x [] h d = (tt, tt)
  AreDistinct-insert x (y ∷ ys) (n, h) (p, d) = elim (Bool-cases (lt y x)) [
    | inl behind ↦
        let turned : bytes_eq y x ≡ false = ground (arith, bytes_eq_iff x y, bytes_eq_iff y x) in
        rw behind
          (All-insert (λ z. bytes_eq y z ≡ false) x ys turned p, AreDistinct-insert x ys h d)
    | inr front ↦ rw front ((n, h), (p, d))
  ]

  AreDistinct-sorted : (xs : List Bytes) → AreDistinct xs → AreDistinct (sorted lt xs)
  unfolding sorted
  AreDistinct-sorted [] d = tt
  AreDistinct-sorted (x ∷ xs) (p, d) =
      AreDistinct-insert x (sorted lt xs) (All-sorted (λ y. bytes_eq x y ≡ false) xs p)
        (AreDistinct-sorted xs d)

read_or_empty_self : (k v : Bytes) (m : Dict Bytes) → v ≡ read_or_empty k ((k, v) ∷ m)
unfolding read_or_empty get
read_or_empty_self k v m = ground (arith, bytes_eq_self k)

All-behind {κ} :
    (P : Bytes × Bytes → Type κ) (k v : Bytes) (m : Dict Bytes) (ks : List Bytes)
    → All (λ j. bytes_eq k j ≡ false) ks
    → All (λ j. P (j, read_or_empty j m)) ks
    → All (λ j. P (j, read_or_empty j ((k, v) ∷ m))) ks
unfolding read_or_empty get
All-behind P k v m [] n h = tt
All-behind P k v m (j ∷ ks) (n, ns) (p, h) =
    let same : read_or_empty j m ≡ read_or_empty j ((k, v) ∷ m) = ground (arith, n) in
    (subst (λ (w : Bytes). P (j, w)) same p, All-behind P k v m ks ns h)

-- What holds for the entries holds for the keys with what the map reads there.
All-keys {κ} :
    (P : Bytes × Bytes → Type κ) (m : Dict Bytes)
    → AreDistinct (keys m)
    → All P m
    → All (λ k. P (k, read_or_empty k m)) (keys m)
All-keys P [] d h = tt
All-keys P ((k, v) ∷ m) (n, d) (p, h) = (
  subst (λ (w : Bytes). P (k, w)) (read_or_empty_self k v m) p,
  All-behind P k v m (keys m) n (All-keys P m d h),
)

-- What the filter keeps.
pub All-filter_read_output {κ} :
    (P : Bytes × Bytes → Type κ) (m : Dict Bytes)
    → All (λ e. is_dropped e.0 e.1 ≡ false → P e) m
    → All P (filter_read_output m)
unfolding filter_read_output
All-filter_read_output P [] h = tt
All-filter_read_output P ((k, v) ∷ m) (p, h) = elim (Bool-cases (is_dropped k v)) [
  | inl out ↦ rw out (All-filter_read_output P m h)
  | inr kept ↦ rw kept (p kept, All-filter_read_output P m h)
]

All-keys_kept {κ} :
    (P : Bytes → Type κ) (m : Dict Bytes) → All P (keys m) → All P (keys (filter_read_output m))
unfolding filter_read_output
All-keys_kept P [] h = tt
All-keys_kept P ((k, v) ∷ m) (p, h) = elim (Bool-cases (is_dropped k v)) [
  | inl out ↦ rw out (All-keys_kept P m h)
  | inr kept ↦ rw kept (p, All-keys_kept P m h)
]

pub AreDistinct-filter_read_output :
    (m : Dict Bytes) → AreDistinct (keys m) → AreDistinct (keys (filter_read_output m))
unfolding filter_read_output
AreDistinct-filter_read_output [] d = tt
AreDistinct-filter_read_output ((k, v) ∷ m) (n, d) = elim (Bool-cases (is_dropped k v)) [
  | inl out ↦ rw out (AreDistinct-filter_read_output m d)
  | inr kept ↦
      rw kept (All-keys_kept (λ y. bytes_eq k y ≡ false) m n, AreDistinct-filter_read_output m d)
]

abbrev pub as_param : Bytes × Bytes → ParamValue
as_param e = record { name = e.0; value = e.1 }

All-map {κ} :
    {A B : Type 0} (P : B → Type κ) (f : A → B) (xs : List A)
    → All (λ x. P (f x)) xs
    → All P (map f xs)
All-map P f [] h = tt
All-map P f (x ∷ xs) (p, h) = (p, All-map P f xs h)

-- What holds for a map's entries holds for its sorted list.
pub All-sorted_params {κ} :
    (P : ParamValue → Type κ) (m : Dict Bytes)
    → AreDistinct (keys m)
    → All (λ e. P (as_param e)) m
    → All P (sorted_params m)
unfolding sorted_params
All-sorted_params P m d h =
    All-map P (λ k. as_param (k, read_or_empty k m)) (sorted text_lt (keys m))
      (All-sorted text_lt (λ k. P (as_param (k, read_or_empty k m))) (keys m)
        (All-keys (λ e. P (as_param e)) m d h))

map-IsDistinct :
    (f : Bytes → Bytes) (ks : List Bytes)
    → AreDistinct ks
    → IsDistinct (map (λ k. as_param (k, f k)) ks)
map-IsDistinct f [] d = tt
map-IsDistinct f (k ∷ ks) (n, d) =
    (All-map (λ q. bytes_eq k q.name ≡ false) (λ j. as_param (j, f j)) ks n, map-IsDistinct f ks d)

pub sorted_params-IsDistinct :
    (m : Dict Bytes) → AreDistinct (keys m) → IsDistinct (sorted_params m)
unfolding sorted_params
sorted_params-IsDistinct m d =
    map-IsDistinct (λ k. read_or_empty k m) (sorted text_lt (keys m))
      (AreDistinct-sorted text_lt (keys m) d)
