-- ===== src/Prelude/Sort/Order.antt =====
-- Sorting forgets the order of elements whose keys differ.
use Prim.Native.Nat.{ℕ}
use mathlib.Core.Path.{◌≡◌, refl, sym, ap, ◌∙◌, subst}
use mathlib.Core.Logic.{◌≢◌}
use mathlib.Core.List.{List, [], ◌∷◌, Permᴰ}
use go_udap.Prelude.Lists.{All}
use go_udap.Prelude.Sort.{sort, insert-insert}

All-Perm {ℓ κ} : {A : Type ℓ} (P : A → Type κ) (xs ys : List A) → Permᴰ xs ys → All P xs → All P ys
All-Perm P [] [] Permᴰ.nil h = tt
All-Perm P (x ∷ xs) (y ∷ ys) (Permᴰ.cons e d) (p, h) = (subst P e p, All-Perm P xs ys d h)
All-Perm P (x ∷ y ∷ xs) (y' ∷ x' ∷ _) (Permᴰ.swap e f) (p, (q, h)) = (subst P f q, (subst P e p, h))
All-Perm P xs zs (Permᴰ.trans {l₂ = ys} d e) h = All-Perm P ys zs e (All-Perm P xs ys d h)

module _ {ℓ} {A : Type ℓ} (key : A → ℕ) where
  -- No two elements have the same key.
  abbrev pub IsApart : List A → Type 0
  IsApart [] = Unit
  IsApart (x ∷ xs) = All (λ y. key x ≢ key y) xs × IsApart xs

  IsApart-Perm : (xs ys : List A) → Permᴰ xs ys → IsApart xs → IsApart ys
  IsApart-Perm [] [] Permᴰ.nil h = tt
  IsApart-Perm (x ∷ xs) (y ∷ ys) (Permᴰ.cons e d) (p, h) = (
    All-Perm (λ z. key y ≢ key z) xs ys d (subst (λ w. All (λ z. key w ≢ key z) xs) e p),
    IsApart-Perm xs ys d h,
  )
  IsApart-Perm (x ∷ y ∷ xs) (y' ∷ x' ∷ _) (Permᴰ.swap e f) ((n, p), (q, h)) = (
    (λ c. n (ap key e ∙ sym c ∙ ap key (sym f)), subst (λ w. All (λ z. key w ≢ key z) xs) f q),
    (subst (λ w. All (λ z. key w ≢ key z) xs) e p, h),
  )
  IsApart-Perm xs zs (Permᴰ.trans {l₂ = ys} d e) h = IsApart-Perm ys zs e (IsApart-Perm xs ys d h)

  -- Permuted lists without equal keys are sorted to the same list.
  pub sort-Perm : (xs ys : List A) → Permᴰ xs ys → IsApart xs → sort key xs ≡ sort key ys
  unfolding sort
  sort-Perm [] [] Permᴰ.nil h = refl
  sort-Perm (x ∷ xs) (y ∷ ys) (Permᴰ.cons e d) (p, h) = cc (e, sort-Perm xs ys d h)
  sort-Perm (x ∷ y ∷ xs) (y' ∷ x' ∷ _) (Permᴰ.swap e f) ((n, p), h) =
      cc (e, f, insert-insert key x y (sort key xs) n)
  sort-Perm xs zs (Permᴰ.trans {l₂ = ys} d e) h =
      sort-Perm xs ys d h ∙ sort-Perm ys zs e (IsApart-Perm xs ys d h)
