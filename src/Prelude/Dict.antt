-- ===== src/Prelude/Dict.antt =====
-- Go's `map[string]V` as an association list; a lookup reads the first entry of a key. The order
-- of the entries is that in which a `range` loop visits them.
use mathlib.Core.Path.{◌≡◌, refl}
use mathlib.Core.Bool.{Bool}
use mathlib.Core.Option.{Option, none, some}
use mathlib.Core.List.{List, [], ◌∷◌, ◌++◌}
use native.Mathlib.Omega.{arith}
use go_udap.Prelude.Tests.{if◌then◌else◌}
use go_udap.Prelude.Bytes.{Bytes, bytes_eq, bytes_eq_iff}

abbrev pub Dict {ℓ} : Type ℓ → Type ℓ
Dict V = List (Bytes × V)

module _ {ℓ} {V : Type ℓ} where
  -- `v, ok := m[k]`
  unfoldable pub get : Bytes → Dict V → Option V
  get k [] = none
  get k ((j, v) ∷ m) = if bytes_eq j k then some v else get k m

  -- `m[k] = v`
  unfoldable pub put : Bytes → V → Dict V → Dict V
  put k v [] = (k, v) ∷ []
  put k v ((j, w) ∷ m) = if bytes_eq j k then (k, v) ∷ m else (j, w) ∷ put k v m

  -- `delete(m, k)` for every key that a test picks
  unfoldable pub delete_where : (Bytes → Bool) → Dict V → Dict V
  delete_where p [] = []
  delete_where p ((j, v) ∷ m) = let rest = delete_where p m in if p j then rest else (j, v) ∷ rest

  -- `maps.Copy(dst, src)`
  unfoldable pub copy : Dict V → Dict V → Dict V
  copy dst [] = dst
  copy dst ((k, v) ∷ src) = put k v (copy dst src)

  abbrev pub or_else : Option V → Option V → Option V
  or_else (some v) o = some v
  or_else none o = o

  pub get-put :
      (k j : Bytes) (v : V) (m : Dict V)
      → get j (put k v m) ≡ (if bytes_eq k j then some v else get j m)
  unfolding get put
  get-put k j v [] = refl
  get-put k j v ((i, w) ∷ m) =
      ground (arith, bytes_eq_iff k j, bytes_eq_iff i k, bytes_eq_iff i j, get-put k j v m)

  pub get-copy :
      (j : Bytes) (dst src : Dict V) → get j (copy dst src) ≡ or_else (get j src) (get j dst)
  unfolding get copy
  get-copy j dst [] = refl
  get-copy j dst ((k, v) ∷ src) = ground (arith, get-put k j v (copy dst src), get-copy j dst src)

  pub get-delete_where :
      (p : Bytes → Bool) (j : Bytes) (m : Dict V)
      → get j (delete_where p m) ≡ (if p j then none else get j m)
  unfolding get delete_where
  get-delete_where p j [] = ground arith
  get-delete_where p j ((i, v) ∷ m) = ground (arith, get-delete_where p j m, bytes_eq_iff i j)

  -- A new key goes to the end.
  pub put_fresh : (k : Bytes) (v : V) (m : Dict V) → get k m ≡ none → put k v m ≡ m ++ (k, v) ∷ []
  unfolding get put
  put_fresh k v [] h = refl
  put_fresh k v ((j, w) ∷ m) h = ground (arith, put_fresh k v m, bytes_eq_iff j k)
