-- ===== src/Prelude/Sort.antt =====
-- A stable sort by a strict order, the result of slices.SortStableFunc: insertion from the right puts
-- an element before those that it does not come after.
use mathlib.Core.Path.{◌≡◌}
use mathlib.Core.Bool.{Bool, true, false}
use mathlib.Core.List.{List, [], ◌∷◌, Perm}
use mathlib.Core.List.Perm
use native.Mathlib.Omega.{arith}
use scim_go.Prelude.Tests.{if◌then◌else◌}

module _ {ℓ} {A : Type ℓ} (lt : A → A → Bool) where
  unfoldable pub insert_sorted : A → List A → List A
  insert_sorted x [] = x ∷ []
  insert_sorted x (y ∷ ys) = if lt y x then y ∷ insert_sorted x ys else x ∷ y ∷ ys

  unfoldable pub sort : List A → List A
  unfolding insert_sorted
  sort [] = []
  sort (x ∷ xs) = insert_sorted x (sort xs)

  insert_sorted-perm : (x : A) (ys : List A) → Perm (insert_sorted x ys) (x ∷ ys)
  unfolding insert_sorted
  insert_sorted-perm x [] = Perm.refl (x ∷ [])
  insert_sorted-perm x (y ∷ ys) =
      elim (lt y x) as (λ b. Perm (if b then y ∷ insert_sorted x ys else x ∷ y ∷ ys) (x ∷ y ∷ ys)) [
        | true ↦ Perm.trans (Perm.cons y (insert_sorted-perm x ys)) (Perm.swap x y ys)
        | false ↦ Perm.refl (x ∷ y ∷ ys)
      ]

  pub sort-perm : (xs : List A) → Perm (sort xs) xs
  unfolding sort
  sort-perm [] = Perm.refl []
  sort-perm (x ∷ xs) = Perm.trans (insert_sorted-perm x (sort xs)) (Perm.cons x (sort-perm xs))

  -- No element comes before the one listed just ahead of it.
  abbrev pub IsSorted : List A → Type 0
  IsSorted [] = Unit
  IsSorted (x ∷ []) = Unit
  IsSorted (x ∷ y ∷ ys) = (lt y x ≡ false) × IsSorted (y ∷ ys)

  insert_sorted-IsSorted :
      ((a b : A) → lt a b ≡ true → lt b a ≡ false)
      → (x : A) (ys : List A) → IsSorted ys
      → IsSorted (insert_sorted x ys)
  unfolding insert_sorted
  insert_sorted-IsSorted asymm x [] s = tt
  insert_sorted-IsSorted asymm x (y ∷ []) s = ground (arith, asymm y x)
  insert_sorted-IsSorted asymm x (y ∷ z ∷ zs) s =
      ground (arith, asymm y x, insert_sorted-IsSorted asymm x (z ∷ zs))

  pub sort-IsSorted :
      ((a b : A) → lt a b ≡ true → lt b a ≡ false) → (xs : List A) → IsSorted (sort xs)
  unfolding sort
  sort-IsSorted asymm [] = tt
  sort-IsSorted asymm (x ∷ xs) = insert_sorted-IsSorted asymm x (sort xs) (sort-IsSorted asymm xs)
