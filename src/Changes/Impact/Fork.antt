-- ===== src/Changes/Impact/Fork.antt =====
-- When a change forks, and which field names a change of several fields.
use logistics.Common.{
  ℕ, ◌≤◌, ◌≡◌, ◌≢◌, ◌↔◌, ◌⊎◌, inl, inr, Bool, true, false, Option, none, some, List, [], ◌∷◌,
  String, arith, All, Option-cases,
}
use logistics.Changes.Impact.{
  ImpactClass, impact_rank, free, change_order, decide_path, ImpactRegistry, class_of, field,
  bad_request, not_editable, heavier, highest_from, highest_impact_field,
}

-- A change goes through a change order exactly if it is RFQ-defining or heavier and its scope has
-- downstream work; an internal or corrective change never does.
pub decide_path_iff :
    (c : ImpactClass) (downstream : Bool)
    → ((decide_path c downstream ≡ change_order) ↔ ((2 ≤ impact_rank c) × (downstream ≡ true)))
      × ((decide_path c downstream ≡ free) ↔ ((impact_rank c ≤ 1) ⊎ (downstream ≡ false)))
unfolding decide_path
decide_path_iff c downstream = ground arith

module _ (r : ImpactRegistry) (entity : String) where
  -- The field has a class, and no field of the list has a heavier one.
  abbrev pub IsHeaviest : String → List String → Type 0
  IsHeaviest f fs =
      (c : ImpactClass) × (class_of r entity f ≡ some c)
      × All
          (λ g.
            (d : ImpactClass) × (class_of r entity g ≡ some d) × (impact_rank d ≤ impact_rank c))
          fs

  -- what the reducer holds so far is declared
  abbrev IsDeclared : Option (String × ImpactClass) → Type 0
  IsDeclared none = Unit
  IsDeclared (some (f, c)) = class_of r entity f ≡ some c

  abbrev rank_of : Option (String × ImpactClass) → ℕ
  rank_of none = 0
  rank_of (some (f, c)) = impact_rank c

  heavier-le :
      (hi : Option (String × ImpactClass)) (g : String) (d : ImpactClass)
      → (rank_of hi ≤ impact_rank (heavier hi g d).1)
        × (impact_rank d ≤ impact_rank (heavier hi g d).1)
  heavier-le none g d = omega arith
  heavier-le (some (f, c)) g d = ground arith

  highest_from-IsHeaviest :
      (hi : Option (String × ImpactClass)) (fs : List String) (f : String)
      → IsDeclared hi
      → highest_from r entity hi fs ≡ field f
      → (c : ImpactClass) × (class_of r entity f ≡ some c)
        × (rank_of hi ≤ impact_rank c)
        × All
            (λ g.
              (d : ImpactClass) × (class_of r entity g ≡ some d) × (impact_rank d ≤ impact_rank c))
            fs
  unfolding highest_from
  highest_from-IsHeaviest none [] f h e = absurd (ground arith)
  highest_from-IsHeaviest (some (g, c)) [] f h e = (c, ground arith, omega arith, tt)
  highest_from-IsHeaviest hi (g ∷ fs) f h e = elim (Option-cases (class_of r entity g)) [
    | inl missing ↦ absurd (ground (arith, missing))
    | inr (d, found) ↦
        let declared : IsDeclared (some (heavier hi g d)) = heavier-IsDeclared hi d found h in
        let (c, known, above, rest) =
          highest_from-IsHeaviest (some (heavier hi g d)) fs f declared
            (rw (found, highest_from) at e) in
        let (le_hi, le_d) = heavier-le hi g d in
        (c, known, omega arith, ((d, found, omega arith), rest))
  ]
    where
      heavier-IsDeclared :
          (hi : Option (String × ImpactClass)) (d : ImpactClass)
          → class_of r entity g ≡ some d
          → IsDeclared hi
          → IsDeclared (some (heavier hi g d))
      heavier-IsDeclared none d found h = found
      heavier-IsDeclared (some (k, c)) d found h = ground arith

  -- If a list of fields is answered with a field, that field and all of the list have a class, and none of them is
  -- heavier than its.
  pub highest_impact_field-IsHeaviest :
      (fs : List String) (f : String) → highest_impact_field r entity fs ≡ field f → IsHeaviest f fs
  unfolding highest_impact_field
  highest_impact_field-IsHeaviest fs f e =
      let (c, known, _, heaviest) = highest_from-IsHeaviest none fs f tt e in (c, known, heaviest)

  -- The first field that has no class is what the error names.
  abbrev pub FirstUnknown : String → List String → Type 0
  FirstUnknown f [] = ⊥
  FirstUnknown f (g ∷ gs) =
      ((class_of r entity g ≡ none) × (f ≡ g)) ⊎ ((class_of r entity g ≢ none) × FirstUnknown f gs)

  highest_from-not_editable :
      (hi : Option (String × ImpactClass)) (fs : List String) (f : String)
      → (highest_from r entity hi fs ≡ bad_request (not_editable f)) ↔ FirstUnknown f fs
  unfolding highest_from
  highest_from-not_editable none [] f = ground arith
  highest_from-not_editable (some hi) [] f = ground arith
  highest_from-not_editable hi (g ∷ fs) f = elim (Option-cases (class_of r entity g)) [
    | inl missing ↦ ground (arith, missing)
    | inr (d, found) ↦ ground (arith, found, highest_from-not_editable (some (heavier hi g d)) fs f)
  ]

  -- A list of fields is refused as not editable exactly for its first field without a class.
  pub highest_impact_field-not_editable :
      (fs : List String) (f : String)
      → (highest_impact_field r entity fs ≡ bad_request (not_editable f)) ↔ FirstUnknown f fs
  unfolding highest_impact_field
  highest_impact_field-not_editable fs f = highest_from-not_editable none fs f
