-- ===== src/Base/Sort.antt =====
-- Stable insertion sort by a Boolean order, which is what Python's `sorted` and an ORDER BY compute.
use mathlib.Core.Path.{◌≡◌, refl}
use mathlib.Core.Bool.{Bool, true}
use mathlib.Core.List.{List, [], ◌∷◌}
use mathlib.Core.List.Perm
use mathlib.Core.List.{Perm}
use mathlib.Core.Logic.{inl, inr}
use native.Mathlib.Omega.{arith}
use opc_stack.Base.Tests.{if◌then◌else◌, Bool-cases}
use opc_stack.Base.Lists.{select, All}

module _ {ℓ} {A : Type ℓ} (le : A → A → Bool) where
  unfoldable pub insert_by : A → List A → List A
  insert_by x [] = x ∷ []
  insert_by x (y ∷ ys) = let rest = insert_by x ys in if le x y then x ∷ y ∷ ys else y ∷ rest

  unfoldable pub sort_by : List A → List A
  unfolding insert_by
  sort_by [] = []
  sort_by (x ∷ xs) = insert_by x (sort_by xs)

  insert_by-perm : (x : A) (xs : List A) → Perm (insert_by x xs) (x ∷ xs)
  unfolding insert_by
  insert_by-perm x [] = Perm.rfl
  insert_by-perm x (y ∷ ys) = elim (Bool-cases (le x y)) [
    | inl e ↦ rw e Perm.rfl
    | inr e ↦ rw e (Perm.trans (Perm.cons y (insert_by-perm x ys)) (Perm.swap x y ys))
  ]

  pub sort_by-perm : (xs : List A) → Perm (sort_by xs) xs
  unfolding sort_by
  sort_by-perm [] = Perm.rfl
  sort_by-perm (x ∷ xs) = Perm.trans (insert_by-perm x (sort_by xs)) (Perm.cons x (sort_by-perm xs))

  insert_by-All {κ} :
      (P : A → Type κ) (x : A) (xs : List A) → P x → All P xs → All P (insert_by x xs)
  unfolding insert_by
  insert_by-All P x [] p h = (p, tt)
  insert_by-All P x (y ∷ ys) p h = elim (Bool-cases (le x y)) [
    | inl e ↦ rw e (p, (h.0, h.1))
    | inr e ↦ rw e (h.0, insert_by-All P x ys p h.1)
  ]

  pub sort_by-All {κ} : (P : A → Type κ) (xs : List A) → All P xs → All P (sort_by xs)
  unfolding sort_by
  sort_by-All P [] h = tt
  sort_by-All P (x ∷ xs) h = insert_by-All P x (sort_by xs) h.0 (sort_by-All P xs h.1)

  -- A class of elements that the order cannot tell apart keeps its order: the sort is stable.
  module _ (p : A → Bool) (same : (x y : A) → p x ≡ true → p y ≡ true → le x y ≡ true) where
    select-insert_by : (x : A) (xs : List A) → select p (insert_by x xs) ≡ select p (x ∷ xs)
    unfolding insert_by
    select-insert_by x [] = refl
    select-insert_by x (y ∷ ys) = ground (arith, same x y, select-insert_by x ys)

    pub select-sort_by : (xs : List A) → select p (sort_by xs) ≡ select p xs
    unfolding sort_by
    select-sort_by [] = refl
    select-sort_by (x ∷ xs) = ground (arith, select-insert_by x (sort_by xs), select-sort_by xs)

  -- The result is in order, each element before all that follow.
  abbrev pub IsSorted : List A → Type 0
  IsSorted [] = Unit
  IsSorted (x ∷ xs) = All (λ y. le x y ≡ true) xs × IsSorted xs
