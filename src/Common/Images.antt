-- ===== src/Common/Images.antt =====
-- Images and filters: membership in them, and that they keep a list free of repetitions.
use mathlib.Core.Path.{◌≡◌, refl, ap, ◌∙◌}
use mathlib.Core.Logic.{◌↔◌, inl, inr}
use mathlib.Core.Bool.{Bool, true, false}
use mathlib.Core.List.{List, [], ◌∷◌, map}
use native.Mathlib.Omega.{arith}
use logistics.Common.Tests.{Bool-cases}
use logistics.Common.Lists.{In, IsDistinct, filter}

pub filter-In_iff :
    {A : Type 0} (p : A → Bool) (xs : List A) (a : A)
    → In a (filter p xs) ↔ (In a xs × (p a ≡ true))
filter-In_iff p [] a = (λ h. absurd h, λ h. absurd h.0)
filter-In_iff p (x ∷ xs) a = elim (Bool-cases (p x)) [
  | inl keep ↦ rw keep (
    λ h. elim h [
      | inl e ↦ (inl e, ap p e ∙ keep)
      | inr m ↦ let y = (filter-In_iff p xs a).0 m in (inr y.0, y.1)
    ],
    λ h. elim h.0 [ inl e ↦ inl e | inr m ↦ inr ((filter-In_iff p xs a).1 (m, h.1)) ],
  )
  | inr leave ↦ rw leave (
    λ h. let y = (filter-In_iff p xs a).0 h in (inr y.0, y.1),
    λ h. elim h.0 [
      | inl e ↦ let clash : p a ≡ false = ap p e ∙ leave in absurd (ground (arith, clash, h.1))
      | inr m ↦ (filter-In_iff p xs a).1 (m, h.1)
    ],
  )
]

pub map-In :
    {A B : Type 0} (f : A → B) (xs : List A) (b : B)
    → In b (map f xs) ↔ ((a : A) × In a xs × (b ≡ f a))
map-In f [] b = (λ h. absurd h, λ h. absurd h.1)
map-In f (x ∷ xs) b = (
  λ h. elim h [
    | inl e ↦ (x, inl refl, e)
    | inr m ↦ let (a, member, e) = (map-In f xs b).0 m in (a, inr member, e)
  ],
  λ h. elim h.1 [ inl e ↦ inl (h.2 ∙ ap f e) | inr m ↦ inr ((map-In f xs b).1 (h.0, m, h.2)) ],
)

module _ {A B : Type 0} (f : A → B) where
  pub In-map : (xs : List A) (a : A) → In a xs → In (f a) (map f xs)
  In-map xs a m = (map-In f xs (f a)).1 (a, m, refl)

  pub filter-IsDistinct :
      (p : A → Bool) (xs : List A) → IsDistinct (map f xs) → IsDistinct (map f (filter p xs))
  filter-IsDistinct p [] d = tt
  filter-IsDistinct p (x ∷ xs) (fresh, d) = elim (Bool-cases (p x)) [
    | inl keep ↦ rw keep (
      λ m.
          let (a, there, e) = (map-In f (filter p xs) (f x)).0 m in
          fresh ((map-In f xs (f x)).1 (a, ((filter-In_iff p xs a).0 there).0, e)),
      filter-IsDistinct p xs d,
    )
    | inr leave ↦ rw leave (filter-IsDistinct p xs d)
  ]

pub map-map :
    {A B C : Type 0} (g : B → C) (f : A → B) (xs : List A)
    → map g (map f xs) ≡ map (λ x. g (f x)) xs
map-map g f [] = refl
map-map g f (x ∷ xs) = ap (λ ys. g (f x) ∷ ys) (map-map g f xs)
