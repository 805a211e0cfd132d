-- ===== src/Common/Sort.antt =====
-- A stable sort by a test, as `sort` does it: what comes first stays first where the test says that
-- neither is greater.
use mathlib.Core.Path.{◌≡◌}
use mathlib.Core.Logic.{◌↔◌, ◌⊎◌, inl, inr}
use mathlib.Core.Bool.{Bool, true}
use mathlib.Core.List.{List, [], ◌∷◌}
use native.Mathlib.Omega.{arith}
use logistics.Common.Tests.{if◌then◌else◌, Bool-cases}
use logistics.Common.Lists.{All, In}

module _ {A : Type 0} (le : A → A → Bool) where
  pub insert : A → List A → List A
  insert x [] = x ∷ []
  insert x (y ∷ ys) = let rest = insert x ys in if le x y then x ∷ y ∷ ys else y ∷ rest

  unfoldable pub sort_by : List A → List A
  unfolding insert
  sort_by [] = []
  sort_by (x ∷ xs) = insert x (sort_by xs)

  -- Every value is at most all that follow.
  abbrev pub IsSorted : List A → Type 0
  IsSorted [] = Unit
  IsSorted (x ∷ xs) = All (λ y. le x y ≡ true) xs × IsSorted xs

  insert-In : (x a : A) (ys : List A) → In a (insert x ys) ↔ ((a ≡ x) ⊎ In a ys)
  unfolding insert
  insert-In x a [] = (λ h. h, λ h. h)
  insert-In x a (y ∷ ys) = ground (arith, insert-In x a ys)

  -- Sorting keeps the values.
  pub sort_by-In : (xs : List A) (a : A) → In a (sort_by xs) ↔ In a xs
  unfolding sort_by
  sort_by-In [] a = (λ h. h, λ h. h)
  sort_by-In (x ∷ xs) a = ground (arith, insert-In x a (sort_by xs), sort_by-In xs a)

  module _ (total : (x y : A) → (le x y ≡ true) ⊎ (le y x ≡ true))
      (trans : (x y z : A) → le x y ≡ true → le y z ≡ true → le x z ≡ true) where
    All-le :
        (x y : A) (zs : List A)
        → le x y ≡ true
        → All (λ z. le y z ≡ true) zs
        → All (λ z. le x z ≡ true) zs
    All-le x y [] h a = tt
    All-le x y (z ∷ zs) h (b, a) = (trans x y z h b, All-le x y zs h a)

    All-insert :
        (y x : A) (zs : List A)
        → le y x ≡ true
        → All (λ z. le y z ≡ true) zs
        → All (λ z. le y z ≡ true) (insert x zs)
    unfolding insert
    All-insert y x [] h a = (h, tt)
    All-insert y x (z ∷ zs) h a = ground (arith, All-insert y x zs h a.1)

    insert-IsSorted : (x : A) (ys : List A) → IsSorted ys → IsSorted (insert x ys)
    unfolding insert
    insert-IsSorted x [] s = (tt, tt)
    insert-IsSorted x (y ∷ ys) s = elim (Bool-cases (le x y)) [
      | inl low ↦ rw low ((low, All-le x y ys low s.0), s)
      | inr high ↦
          rw high
            (All-insert y x ys (ground (arith, total x y, high)) s.0, insert-IsSorted x ys s.1)
    ]

    pub sort_by-IsSorted : (xs : List A) → IsSorted (sort_by xs)
    unfolding sort_by
    sort_by-IsSorted [] = tt
    sort_by-IsSorted (x ∷ xs) = insert-IsSorted x (sort_by xs) (sort_by-IsSorted xs)
