-- ===== src/Route/Validate/Routable.antt =====
-- A graph that draws no finding is a route: its legs are complete, and each row of cargo that legs carry
-- goes along one continuous chain of these.
use logistics.Common.{
  ◌≡◌, ◌≢◌, refl, sym, subst, inl, inr, Bool, true, false, not, is_some, Option, none, some, List,
  [], ◌∷◌, map, String, arith, All, All-In, In-All, In, Bool-cases, ◌==◌, string_eq, is_nil,
}
use logistics.Common.Images.{In-map}
use logistics.Findings.{Finding}
use logistics.Quote.Rules.{Clock}
use logistics.Quote.Rules.Meaning.{append_nil_iff, joined_nil_iff, each_nil_iff}
use logistics.Route.Layering.{truthy}
use logistics.Route.Graph.{
  RouteGraph, RouteCargo, RouteLeg, RoutePhase, cargos_by_leg, legs_of_cargo,
}
use logistics.Route.Graph.LookUps.{In-present_iff, legs_of_cargo-In}
use logistics.Route.Chain.{Hop, hop_of, edges_of, edges_rules, cargo_rules}
use logistics.Route.Chain.Continuous.{IsChain, chain_rules-IsChain}
use logistics.Route.Rules.{sev, complete_rule, is_missing, missing_of, missing_parts, when_some}
use logistics.Route.Validate.{by_rule, validate_route}

-- both ends, the mode, the dates and some cargo are there
pub record IsComplete (graph : RouteGraph) (l : RouteLeg) : Type 0 where
  pub origin : is_missing l.origin_point_id ≡ false
  pub destination : is_missing l.destination_point_id ≡ false
  pub mode : is_some l.mode ≡ true
  pub cargo : cargos_by_leg graph l.id ≢ []
  pub ready_date : is_missing l.ready_date ≡ false
  pub target_delivery : is_missing l.target_delivery ≡ false

-- the leg is one of the hops
pub CarriedBy : List Hop → RouteLeg → Type 0
CarriedBy hops l = (h : Hop) × In h hops × (h.leg ≡ l)

missing_of-nil : (b : Bool) (name : String) → missing_of b name ≡ [] → b ≡ false
missing_of-nil true name h = absurd (ground arith)
missing_of-nil false name h = refl

when_some-nil : (ms : List String) (f : List String → Finding) → when_some ms f ≡ [] → ms ≡ []
when_some-nil [] f h = refl
when_some-nil (m ∷ ms) f h = absurd (ground arith)

not-is_nil : {A : Type 0} (xs : List A) → is_nil xs ≡ false → xs ≢ []
not-is_nil xs h e = ground arith

module _ (clock : Clock) (phase : RoutePhase) (graph : RouteGraph) where
  complete_rule-IsComplete :
      (l : RouteLeg) → complete_rule clock phase graph l ≡ [] → IsComplete graph l
  unfolding complete_rule
  complete_rule-IsComplete l h =
      let none_missing = when_some-nil (missing_parts clock phase graph l) _ h in
      let (o, rest) =
        (append_nil_iff (missing_of (is_missing l.origin_point_id) "origin") _).0 none_missing in
      let (d, rest) =
        (append_nil_iff (missing_of (is_missing l.destination_point_id) "destination") _).0 rest in
      let (m, rest) = (append_nil_iff (missing_of (not (is_some l.mode)) "mode") _).0 rest in
      let (c, rest) =
        (append_nil_iff (missing_of (is_nil (cargos_by_leg graph l.id)) "cargo") _).0 rest in
      let (r, t) = (append_nil_iff (missing_of (is_missing l.ready_date) "ready date") _).0 rest in
      record {
        origin = missing_of-nil _ _ o;
        destination = missing_of-nil _ _ d;
        mode = ground (arith, missing_of-nil _ _ m);
        cargo = not-is_nil _ (missing_of-nil _ _ c);
        ready_date = missing_of-nil _ _ r;
        target_delivery = missing_of-nil _ _ t;
      }

truthy_of_missing : (o : Option String) → is_missing o ≡ false → (s : String) × (truthy o ≡ some s)
truthy_of_missing none h = absurd (ground arith)
truthy_of_missing (some s) h = elim (Bool-cases (s == "")) [
  | inl empty ↦ absurd (ground (arith, empty))
  | inr given ↦ (s, rw given refl)
]

-- a leg with both its ends is one of the edges
edges_of-CarriedBy :
    (legs : List RouteLeg) (l : RouteLeg)
    → In l legs
    → is_missing l.origin_point_id ≡ false
    → is_missing l.destination_point_id ≡ false
    → CarriedBy (edges_of legs) l
unfolding edges_of CarriedBy
edges_of-CarriedBy legs l m origin destination =
    let (o, from) = truthy_of_missing l.origin_point_id origin in
    let (d, to) = truthy_of_missing l.destination_point_id destination in
    let hop : Hop = record { leg = l; origin = o; destination = d } in
    let hops =
      λ (x : RouteLeg). hop_of x (truthy x.origin_point_id) (truthy x.destination_point_id) in
    let is_hop : some hop ≡ hops l = rw (from, to) refl in
    (
      hop,
      (In-present_iff (map hops legs) hop).1
          (subst (λ x. In x (map hops legs)) (sym is_hop) (In-map hops legs l m)),
      refl,
    )

module _ (clock : Clock) (phase : RoutePhase) (graph : RouteGraph) where
  edges_rules-IsChain :
      (c : RouteCargo) (edges : List Hop) (h : Hop)
      → In h edges
      → edges_rules clock (sev phase) graph c edges ≡ []
      → IsChain clock graph edges
  edges_rules-IsChain c [] h m e = absurd m
  edges_rules-IsChain c (f ∷ fs) h m e = chain_rules-IsChain clock (sev phase) graph c (f ∷ fs) e

  cargo_rules-clear :
      (c : RouteCargo)
      → cargo_rules clock (sev phase) graph c ≡ []
      → edges_rules clock (sev phase) graph c (edges_of (legs_of_cargo graph c)) ≡ []
  unfolding cargo_rules
  cargo_rules-clear c h = ((append_nil_iff _ _).0 h).1

  -- what the rules of the legs and of the cargo ask for
  validate_route-nil :
      validate_route clock graph phase ≡ []
      → All (λ l. complete_rule clock phase graph l ≡ []) graph.legs
        × All (λ c. cargo_rules clock (sev phase) graph c ≡ []) graph.cargo
  unfolding validate_route
  validate_route-nil h =
      let clear = (joined_nil_iff (by_rule clock graph phase)).0 h in
      (
        (each_nil_iff (complete_rule clock phase graph) graph.legs).0 clear.1.1.1.1.1.0,
        (each_nil_iff (cargo_rules clock (sev phase) graph) graph.cargo).0
            clear.1.1.1.1.1.1.1.1.1.1.1.0,
      )

  carried :
      (c : RouteCargo) (legs : List RouteLeg)
      → All (CarriedBy (edges_of legs)) legs
      → legs ≢ []
      → edges_rules clock (sev phase) graph c (edges_of legs) ≡ []
      → IsChain clock graph (edges_of legs)
  unfolding CarriedBy
  carried c [] each_carried given e = absurd (given refl)
  carried c (l ∷ ls) ((h, m, _), _) given e = edges_rules-IsChain c (edges_of (l ∷ ls)) h m e

  -- A route without findings carries each row of cargo in one chain: the edges are the legs of the row, and
  -- one path takes every edge once, leaves no point twice, starts at no Delivery point and departs from no
  -- point before the leg in front has arrived, as far as both dates are known. It speaks of a row of the
  -- graph that has a leg in it.
  pub validate_route-IsChain :
      validate_route clock graph phase ≡ []
      → (c : RouteCargo) → In c graph.cargo
      → legs_of_cargo graph c ≢ []
      → IsChain clock graph (edges_of (legs_of_cargo graph c))
        × All (CarriedBy (edges_of (legs_of_cargo graph c))) (legs_of_cargo graph c)
  validate_route-IsChain h c m given =
      let legs = legs_of_cargo graph c in
      let (complete, rows) = validate_route-nil h in
      let carries : All (CarriedBy (edges_of legs)) legs =
        In-All (CarriedBy (edges_of legs)) legs (λ l there.
          let whole = complete_rule-IsComplete clock phase graph l (
            All-In (λ l. complete_rule clock phase graph l ≡ []) graph.legs complete
              (legs_of_cargo-In graph c l there)) in
          edges_of-CarriedBy legs l there whole.origin whole.destination) in
      let clear =
        cargo_rules-clear c
          (All-In (λ c. cargo_rules clock (sev phase) graph c ≡ []) graph.cargo rows m) in
      (carried c legs carries given clear, carries)
