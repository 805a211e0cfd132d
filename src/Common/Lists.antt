-- ===== src/Common/Lists.antt =====
-- Lists searched and filtered by Boolean tests, as `find`, `filter`, `some`, `every` and `includes`
-- do, and the predicates by which statements speak of lists.
use Prim.Native.Nat.{ℕ, suc}
use mathlib.Core.Path.{◌≡◌, refl, sym, subst}
use mathlib.Core.Logic.{◌↔◌, ◌⊎◌, inl, inr}
use mathlib.Core.Bool.{Bool, true, false, ◌&&◌, ◌||◌}
use mathlib.Core.Option.{Option, none, some}
use mathlib.Core.List.{List, [], ◌∷◌, ◌++◌}
use native.Mathlib.Omega.{arith}
use logistics.Common.Tests.{if◌then◌else◌, Eq, ◌==◌}

module _ {ℓ} {A : Type ℓ} where
  abbrev pub length : List A → ℕ
  length [] = 0
  length (x ∷ xs) = suc (length xs)

  abbrev pub is_nil : List A → Bool
  is_nil [] = true
  is_nil (x ∷ xs) = false

  abbrev pub filter : (A → Bool) → List A → List A
  filter p [] = []
  filter p (x ∷ xs) = let rest = filter p xs in if p x then x ∷ rest else rest

  abbrev pub find? : (A → Bool) → List A → Option A
  find? p [] = none
  find? p (x ∷ xs) = if p x then some x else find? p xs

  abbrev pub all : (A → Bool) → List A → Bool
  all p [] = true
  all p (x ∷ xs) = p x && all p xs

  abbrev pub any : (A → Bool) → List A → Bool
  any p [] = false
  any p (x ∷ xs) = p x || any p xs

module _ {ℓ κ} {A : Type ℓ} (P : A → Type κ) where
  abbrev pub All : List A → Type κ
  All [] = Unit
  All (x ∷ xs) = P x × All xs

module _ {ℓ} {A : Type ℓ} (P : A → Type 0) where
  abbrev pub Any : List A → Type 0
  Any [] = ⊥
  Any (x ∷ xs) = P x ⊎ Any xs

module _ {A : Type 0} where
  -- Membership, by recursion on the list.
  abbrev pub In : A → List A → Type 0
  In a = Any (λ x. a ≡ x)

  -- No value twice.
  abbrev pub IsDistinct : List A → Type 0
  IsDistinct [] = Unit
  IsDistinct (x ∷ xs) = (In x xs → ⊥) × IsDistinct xs

  pub All-In : (P : A → Type 0) (xs : List A) {a : A} → All P xs → In a xs → P a
  All-In P [] h m = absurd m
  All-In P (x ∷ xs) h (inl e) = subst P (sym e) h.0
  All-In P (x ∷ xs) h (inr m) = All-In P xs h.1 m

  pub In-All : (P : A → Type 0) (xs : List A) → ((a : A) → In a xs → P a) → All P xs
  In-All P [] h = tt
  In-All P (x ∷ xs) h = (h x (inl refl), In-All P xs (λ a m. h a (inr m)))

  pub In-append_left : (a : A) (xs ys : List A) → In a xs → In a (xs ++ ys)
  In-append_left a [] ys h = absurd h
  In-append_left a (x ∷ xs) ys (inl e) = inl e
  In-append_left a (x ∷ xs) ys (inr h) = inr (In-append_left a xs ys h)

  pub In-append_right : (a : A) (xs ys : List A) → In a ys → In a (xs ++ ys)
  In-append_right a [] ys h = h
  In-append_right a (x ∷ xs) ys h = inr (In-append_right a xs ys h)

  pub In-append_cases : (a : A) (xs ys : List A) → In a (xs ++ ys) → In a xs ⊎ In a ys
  In-append_cases a [] ys h = inr h
  In-append_cases a (x ∷ xs) ys (inl e) = inl (inl e)
  In-append_cases a (x ∷ xs) ys (inr h) = elim (In-append_cases a xs ys h) [
    | inl l ↦ inl (inr l)
    | inr r ↦ inr r
  ]

  pub find?-append_some :
      (p : A → Bool) (xs ys : List A) (a : A) → find? p xs ≡ some a → find? p (xs ++ ys) ≡ some a
  find?-append_some p [] ys a h = ground arith
  find?-append_some p (x ∷ xs) ys a h = ground (arith, find?-append_some p xs ys a)

  pub find?-append_none :
      (p : A → Bool) (xs ys : List A) → find? p xs ≡ none → find? p (xs ++ ys) ≡ find? p ys
  find?-append_none p [] ys h = refl
  find?-append_none p (x ∷ xs) ys h = ground (arith, find?-append_none p xs ys)

  -- What `find` returns passes the test and is in the list.
  pub find?_sound :
      (p : A → Bool) (xs : List A) {a : A} → find? p xs ≡ some a → (p a ≡ true) × In a xs
  find?_sound p [] h = ground arith
  find?_sound p (x ∷ xs) {a} h = ground (arith, find?_sound p xs {a = a})

  -- `find` returns nothing exactly when nothing passes.
  pub find?-eq-none_iff :
      (p : A → Bool) (xs : List A) → (find? p xs ≡ none) ↔ All (λ x. p x ≡ false) xs
  find?-eq-none_iff p [] = (λ _. tt, λ _. refl)
  find?-eq-none_iff p (x ∷ xs) = ground (arith, find?-eq-none_iff p xs)

  pub all_iff : (p : A → Bool) (xs : List A) → (all p xs ≡ true) ↔ All (λ x. p x ≡ true) xs
  all_iff p [] = (λ _. tt, λ _. refl)
  all_iff p (x ∷ xs) = ground (arith, all_iff p xs)

  pub any_iff : (p : A → Bool) (xs : List A) → (any p xs ≡ true) ↔ Any (λ x. p x ≡ true) xs
  any_iff p [] = ground arith
  any_iff p (x ∷ xs) = ground (arith, any_iff p xs)

  pub all-append : (p : A → Bool) (xs ys : List A) → all p (xs ++ ys) ≡ (all p xs && all p ys)
  all-append p [] ys = refl
  all-append p (x ∷ xs) ys = ground (arith, all-append p xs ys)

module _ {A : Type 0} ⦃e : Eq A⦄ where
  abbrev pub includes : List A → A → Bool
  includes [] a = false
  includes (x ∷ xs) a = x == a || includes xs a

  pub includes_iff : (xs : List A) (a : A) → (includes xs a ≡ true) ↔ In a xs
  includes_iff [] a = ground arith
  includes_iff (x ∷ xs) a = ground (arith, includes_iff xs a, e.same_iff x a)
