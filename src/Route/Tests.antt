-- ===== src/Route/Tests.antt =====
-- Runs of the route component at concrete inputs, and its theorems applied at them.
use logistics.Common.{
  ℕ, true, arith, inl, All, map, ltb, ◌≤◌, ◌≡◌, refl, none, some, [], ◌∷◌, List, String, ◌==◌,
  string_eq, if◌then◌else◌,
}
use logistics.Common.Dict
use logistics.Changes.Scope.{unique}
use logistics.Findings.{Severity, blocking, warning}
use logistics.Quote.Draft.{FreightMode, road, sea}
use logistics.Quote.Rules.{Clock}
use logistics.Route.Graph.{
  PointType, pickup, seaport, delivery, RoutePoint, RouteLeg, RouteCargo, RouteGraph, draft, create,
  check_mode_endpoints, dict_of, legs_of_cargo,
}
use logistics.Route.Chain.{edges_of, walk, path_rules, chain_rules, cargo_rules}
use logistics.Route.Chain.Continuous.{IsChain}
use logistics.Route.Rules.{complete_rule, hub_rule}
use logistics.Route.Validate.{validate_route}
use logistics.Route.Validate.Routable.{CarriedBy, validate_route-IsChain}
use logistics.Route.Validate.Severities.{Graded, validate_route-Graded}
use logistics.Route.Layering.{LayeringEdge, depth_of, compute_longest_path_depth}
use logistics.Route.Layering.Walks.{Walk, IsAcyclic, IsAcyclic-of_rank}
use logistics.Route.Layering.Depth.{compute_longest_path_depth_lem}

abbrev edge : String → String → LayeringEdge
edge o d = record { origin_id = some o; destination_id = some d }

-- a hub that is fed by a short and a long way
abbrev edges : List LayeringEdge
edges =
    edge "hub" "port"
    ∷ edge "plant" "hub"
    ∷ edge "depot" "hub"
    ∷ edge "plant" "depot"
    ∷ record { origin_id = some "port"; destination_id = none }
    ∷ []

abbrev level : String → ℕ
level p = if p == "port" then 3 else if p == "hub" then 2 else if p == "depot" then 1 else 0

depth_run :
    let depth = compute_longest_path_depth ("port" ∷ "plant" ∷ []) edges in
    depth.entries ≡ ("port", 3) ∷ ("plant", 0) ∷ ("hub", 2) ∷ ("depot", 1) ∷ []
unfolding compute_longest_path_depth depth_of Dict.get Dict.set unique
depth_run = refl

edges-IsAcyclic : IsAcyclic edges
edges-IsAcyclic = IsAcyclic-of_rank level edges refl

compute_longest_path_depth_lem_example :
    let depth = depth_of (compute_longest_path_depth ("port" ∷ "plant" ∷ []) edges) "port" in
    ((u : String) × Walk edges u depth "port")
    × ((u : String) (n : ℕ) → Walk edges u n "port" → n ≤ depth)
compute_longest_path_depth_lem_example =
    compute_longest_path_depth_lem ("port" ∷ "plant" ∷ []) edges edges-IsAcyclic "port"

-- dates that compare as days of one month
abbrev clock : Clock
clock = record {
  Time = ℕ;
  time_of = λ s.
      if s == "day 1"
      then some 1
      else if s == "day 4"
      then some 4
      else if s == "day 5"
      then some 5
      else if s == "day 9"
      then some 9
      else none;
  earlier = ltb;
}

abbrev point : String → PointType → RoutePoint
point id type_ = record {
  id = id;
  type_ = type_;
  name = some id;
  street_address = some "1 Main Road";
  city = some "Pune";
  postal_code = some "411001";
  country = some "IN";
  contact_name = some "Asha";
  contact_phone = some "+91 20 1234";
  contact_email = some "asha@example.com";
  warehouse_type = none;
  iata_code = none;
  icao_code = none;
  un_locode = some "INNSA";
  terminal = none;
  timezone = some "Asia/Kolkata";
}

abbrev leg : String → FreightMode → String → String → String → String → RouteLeg
leg id mode origin destination ready target = record {
  id = id;
  leg_code = id;
  mode = some mode;
  origin_point_id = some origin;
  destination_point_id = some destination;
  ready_date = some ready;
  target_delivery = some target;
}

abbrev crate : RouteCargo
crate = record {
  id = "crate";
  label = "PO-1 Valves #1";
  is_dangerous = true;
  msds_file_id = some "file";
  gross_wt = some "120";
  volume_cbm = some "2";
}

abbrev graph_of : List RouteLeg → RouteGraph
graph_of legs = record {
  query_id = "query";
  points = point "plant" pickup ∷ point "port" seaport ∷ point "shop" delivery ∷ [];
  legs = legs;
  cargo = crate ∷ [];
  leg_cargo = map (λ l. record { leg_id = l.id; cargo_item_id = "crate" }) legs;
}

abbrev road_legs : List RouteLeg
road_legs =
    leg "L2" road "port" "shop" "day 5" "day 9" ∷ leg "L1" road "plant" "port" "day 1" "day 4" ∷ []

abbrev sound : RouteGraph
sound = graph_of road_legs

sound_run : validate_route clock sound create ≡ []
unfolding validate_route complete_rule hub_rule cargo_rules chain_rules path_rules walk
    check_mode_endpoints dict_of legs_of_cargo edges_of Dict.get Dict.set unique
sound_run = refl

-- a leg back from the shop to the plant, by sea
abbrev looped : RouteGraph
looped = graph_of (leg "L3" sea "shop" "plant" "day 9" "day 9" ∷ road_legs)

looped_run :
    map {B = String × Severity} (λ f. (f.rule, f.severity)) (validate_route clock looped draft)
    ≡ ("V-M1", blocking) ∷ ("T3", warning) ∷ ("R1", warning) ∷ []
unfolding validate_route complete_rule hub_rule cargo_rules chain_rules path_rules walk
    check_mode_endpoints dict_of legs_of_cargo edges_of Dict.get Dict.set unique
looped_run = refl

validate_route-IsChain_example :
    IsChain clock sound (edges_of (legs_of_cargo sound crate))
    × All (CarriedBy (edges_of (legs_of_cargo sound crate))) (legs_of_cargo sound crate)
unfolding legs_of_cargo dict_of Dict.get Dict.set
validate_route-IsChain_example =
    validate_route-IsChain clock create sound sound_run crate (inl refl)
      (λ none_there. ground (arith, none_there))

validate_route-Graded_example : All (Graded draft) (validate_route clock looped draft)
validate_route-Graded_example = validate_route-Graded clock draft looped
