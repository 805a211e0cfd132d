-- ===== src/Changes/Scope/Unique.antt =====
-- `[...new Set(xs)]` holds the same values, each once.
use logistics.Common.{
  ◌≡◌, refl, ◌↔◌, inl, inr, false, List, [], ◌∷◌, String, arith, In, IsDistinct, includes,
  Bool-cases, string_eq, eq_iff,
}
use logistics.Changes.Scope.{unique_from, unique}

unique_from-In :
    (seen xs : List String) (a : String)
    → (In a (unique_from seen xs) → In a xs × (includes seen a ≡ false))
      × (In a xs → includes seen a ≡ false → In a (unique_from seen xs))
unfolding unique_from
unique_from-In seen [] a = (λ h. absurd h, λ h. absurd h)
unique_from-In seen (x ∷ xs) a = elim (Bool-cases (includes seen x)) [
  | inl old ↦ ground (arith, old, unique_from-In seen xs a)
  | inr new ↦ ground (arith, new, unique_from-In (x ∷ seen) xs a, eq_iff x a)
]

pub unique-In : (xs : List String) (a : String) → In a (unique xs) ↔ In a xs
unfolding unique
unique-In xs a = (λ h. ((unique_from-In [] xs a).0 h).0, λ h. (unique_from-In [] xs a).1 h refl)

unique_from-IsDistinct : (seen xs : List String) → IsDistinct (unique_from seen xs)
unfolding unique_from
unique_from-IsDistinct seen [] = tt
unique_from-IsDistinct seen (x ∷ xs) = elim (Bool-cases (includes seen x)) [
  | inl old ↦ rw (old, unique_from) (unique_from-IsDistinct seen xs)
  | inr new ↦
      rw (new, unique_from)
        (
          λ h. ground (arith, ((unique_from-In (x ∷ seen) xs x).0 h).1, eq_iff x x),
          unique_from-IsDistinct (x ∷ seen) xs,
        )
]

pub unique-IsDistinct : (xs : List String) → IsDistinct (unique xs)
unfolding unique
unique-IsDistinct xs = unique_from-IsDistinct [] xs
