-- ===== src/Common/Counting.antt =====
-- A list without repetitions is no longer than a list that holds all its values.
use Prim.Native.Nat.{suc, ◌≤◌}
use mathlib.Core.Path.{◌≡◌, refl, sym, subst, ap, ◌∙◌}
use mathlib.Core.Logic.{◌⊎◌, inl, inr}
use mathlib.Core.List.{List, [], ◌∷◌}
use native.Mathlib.Omega.{arith}
use logistics.Common.Lists.{In, IsDistinct, length}

module _ {A : Type 0} where
  -- the list without the occurrence that is pointed at
  without : (a : A) (xs : List A) → In a xs → List A
  without a [] m = absurd m
  without a (x ∷ xs) (inl e) = xs
  without a (x ∷ xs) (inr m) = x ∷ without a xs m

  length-without : (a : A) (xs : List A) (m : In a xs) → suc (length (without a xs m)) ≡ length xs
  unfolding without
  length-without a [] m = absurd m
  length-without a (x ∷ xs) (inl e) = refl
  length-without a (x ∷ xs) (inr m) = ap suc (length-without a xs m)

  In-without : (a b : A) (xs : List A) (m : In a xs) → In b xs → (b ≡ a → ⊥) → In b (without a xs m)
  unfolding without
  In-without a b [] m n ne = absurd m
  In-without a b (x ∷ xs) (inl e) (inl f) ne = absurd (ne (f ∙ sym e))
  In-without a b (x ∷ xs) (inl e) (inr n) ne = n
  In-without a b (x ∷ xs) (inr m) (inl f) ne = inl f
  In-without a b (x ∷ xs) (inr m) (inr n) ne = inr (In-without a b xs m n ne)

  pub IsDistinct-length :
      (xs ys : List A) → IsDistinct xs → ((a : A) → In a xs → In a ys) → length xs ≤ length ys
  IsDistinct-length [] ys d into = omega arith
  IsDistinct-length (x ∷ xs) ys (fresh, d) into =
      let here = into x (inl refl) in
      let rest =
        IsDistinct-length xs (without x ys here) d (λ a m.
          In-without x a ys here (into a (inr m)) (λ e. fresh (subst (λ b. In b xs) e m))) in
      omega (arith, rest, length-without x ys here)

  In-without_cases :
      (a b : A) (xs : List A) (m : In a xs) → In b xs → (b ≡ a) ⊎ In b (without a xs m)
  unfolding without
  In-without_cases a b [] m n = absurd m
  In-without_cases a b (x ∷ xs) (inl e) (inl f) = inl (f ∙ sym e)
  In-without_cases a b (x ∷ xs) (inl e) (inr n) = inr n
  In-without_cases a b (x ∷ xs) (inr m) (inl f) = inr (inl f)
  In-without_cases a b (x ∷ xs) (inr m) (inr n) = elim (In-without_cases a b xs m n) [
    | inl e ↦ inl e
    | inr k ↦ inr (inr k)
  ]

  -- A list without repetitions that is as long as one that holds all its values holds all of that one's.
  pub IsDistinct-In :
      (xs ys : List A)
      → IsDistinct xs
      → ((a : A) → In a xs → In a ys)
      → length xs ≡ length ys
      → (b : A) → In b ys
      → In b xs
  IsDistinct-In [] [] d into same b m = m
  IsDistinct-In [] (y ∷ ys) d into same b m = absurd (omega (arith, same))
  IsDistinct-In (x ∷ xs) ys (fresh, d) into same b m =
      let here = into x (inl refl) in
      elim (In-without_cases x b ys here m) [
        | inl e ↦ inl e
        | inr k ↦ inr (
            IsDistinct-In xs (without x ys here) d
              (λ a m'.
                In-without x a ys here (into a (inr m')) (λ e. fresh (subst (λ c. In c xs) e m')))
              (omega (arith, same, length-without x ys here)) b k)
      ]
