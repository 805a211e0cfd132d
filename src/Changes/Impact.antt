-- ===== src/Changes/Impact.antt =====
-- packages/shared/src/change.ts and apps/api/src/modules/changes/impact.registry.ts: the impact
-- classes, the fork between the free path and a change order, and the registry of the class of each
-- field.
pub mod Fork
use mathlib.Core.List.{foldl}
use logistics.Common.{
  ℕ, zero, suc, ◌≡◌, refl, Bool, true, false, ◌&&◌, Option, none, some, List, [], ◌∷◌, ◌++◌, String,
  Eq, code_beq, code_beq_iff, leb, ltb, if◌then◌else◌,
}
use logistics.Common.Dict
use logistics.Common.Dict.{Dict}

pub data ImpactClass : Type 0 where
  internal corrective rfq_defining pricing_award_defining structural : ImpactClass

-- IMPACT_RANK
abbrev pub impact_rank : ImpactClass → ℕ
impact_rank internal = 0
impact_rank corrective = 1
impact_rank rfq_defining = 2
impact_rank pricing_award_defining = 3
impact_rank structural = 4

pub data ImpactPath : Type 0 where
  free change_order : ImpactPath

unfoldable pub decide_path : ImpactClass → Bool → ImpactPath
decide_path impact_class has_downstream_work =
    let rfq_defining_or_heavier = leb (impact_rank rfq_defining) (impact_rank impact_class) in
    if rfq_defining_or_heavier && has_downstream_work then change_order else free

-- a field name, or `@create` or `@delete`
abbrev pub ImpactKey : Type 0
ImpactKey = String

abbrev pub EntityImpactMap : Type 0
EntityImpactMap = Dict ImpactClass

pub record ImpactRegistry : Type 0 where
  pub maps : Dict EntityImpactMap

-- `{ ...old, ...map }`
abbrev pub spread : List (ImpactKey × ImpactClass) → EntityImpactMap → EntityImpactMap
spread [] old = old
spread ((k, c) ∷ es) old = spread es (Dict.set k c old)

abbrev pub or_empty : Option EntityImpactMap → EntityImpactMap
or_empty none = Dict.empty
or_empty (some m) = m

unfoldable pub declare : String → EntityImpactMap → ImpactRegistry → ImpactRegistry
declare entity map r = record {
  maps = Dict.set entity (spread map.entries (or_empty (Dict.get entity r.maps))) r.maps;
}

unfoldable pub class_of : ImpactRegistry → String → ImpactKey → Option ImpactClass
class_of r entity key = elim (Dict.get entity r.maps) [ none ↦ none | some m ↦ Dict.get key m ]

pub data BadRequest : Type 0 where
  not_editable : String → BadRequest
  no_fields : BadRequest

pub data Highest : Type 0 where
  field : String → Highest
  bad_request : BadRequest → Highest

-- The reducer keeps the field of highest impact so far, with its class.
abbrev pub heavier : Option (String × ImpactClass) → String → ImpactClass → String × ImpactClass
heavier none f c = (f, c)
heavier (some (g, d)) f c = if ltb (impact_rank d) (impact_rank c) then (f, c) else (g, d)

abbrev pub named : Option (String × ImpactClass) → Highest
named none = bad_request no_fields
named (some (f, c)) = field f

pub highest_from : ImpactRegistry → String → Option (String × ImpactClass) → List String → Highest
highest_from r entity hi [] = named hi
highest_from r entity hi (f ∷ fs) = elim (class_of r entity f) [
  | none ↦ bad_request (not_editable f)
  | some c ↦ highest_from r entity (some (heavier hi f c)) fs
]

unfoldable pub highest_impact_field : ImpactRegistry → String → List String → Highest
unfolding highest_from
highest_impact_field r entity fields = highest_from r entity none fields
