-- ===== src/Route/Graph/LookUps.antt =====
-- What is found in the graph of a route: a value that a `Map` by ids returns is one of the values that
-- it was made from.
use logistics.Common.{
  ◌↔◌, ◌⊎◌, ◌≡◌, sym, inl, inr, Option, none, some, List, [], ◌∷◌, map, String, arith, In,
  string_eq,
}
use logistics.Common.Dict
use logistics.Common.Dict.{Dict}
use logistics.Common.Images.{map-In}
use logistics.Route.Graph.{
  RouteGraph, RouteCargo, RouteLeg, dict_of, dict_from, present, leg_by_id, legs_by_cargo,
  legs_of_cargo,
}

pub In-present_iff :
    {A : Type 0} (os : List (Option A)) (a : A) → In a (present os) ↔ In (some a) os
In-present_iff [] a = ground arith
In-present_iff (none ∷ os) a = ground (arith, In-present_iff os a)
In-present_iff (some b ∷ os) a = ground (arith, In-present_iff os a)

module _ {A : Type 0} (id : A → String) where
  get-dict_from :
      (xs : List A) (d : Dict A) (k : String) (v : A)
      → Dict.get k (dict_from id xs d) ≡ some v
      → In v xs ⊎ (Dict.get k d ≡ some v)
  unfolding dict_from
  get-dict_from [] d k v h = inr h
  get-dict_from (x ∷ xs) d k v h = elim (get-dict_from xs (Dict.set (id x) x d) k v h) [
    | inl m ↦ inl (inr m)
    | inr e ↦ ground (arith, e, Dict.get-set (id x) k x d)
  ]

  pub get-dict_of :
      (xs : List A) (k : String) (v : A) → Dict.get k (dict_of id xs) ≡ some v → In v xs
  unfolding dict_of
  get-dict_of xs k v h = elim (get-dict_from xs Dict.empty k v h) [
    | inl m ↦ m
    | inr e ↦ ground (arith, e, Dict.get-empty {V = A} k)
  ]

pub legs_of_cargo-In :
    (graph : RouteGraph) (c : RouteCargo) (l : RouteLeg)
    → In l (legs_of_cargo graph c)
    → In l graph.legs
unfolding legs_of_cargo
legs_of_cargo-In graph c l m =
    let found = (In-present_iff (map (leg_by_id graph) (legs_by_cargo graph c.id)) l).0 m in
    let (k, there, e) = (map-In (leg_by_id graph) (legs_by_cargo graph c.id) (some l)).0 found in
    get-dict_of (λ x. x.id) graph.legs k l (sym e)
