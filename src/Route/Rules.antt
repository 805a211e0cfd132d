-- ===== src/Route/Rules.antt =====
-- packages/shared/src/route.ts, the rules that look at one leg, one point, one row of cargo, or the
-- legs at one hub.
use logistics.Common.{
  Bool, false, ◌||◌, not, Option, none, some, List, [], ◌∷◌, ◌++◌, map, String, ◌==◌, string_eq,
  any, filter, includes, is_nil, is_some, if◌then◌else◌,
}
use logistics.Findings.{Finding, Severity, blocking, warning}
use logistics.Quote.Draft.{FreightMode, road, air, sea}
use logistics.Quote.Rules.{Clock, is_before, each, when}
use logistics.Route.Layering.{truthy}
use logistics.Route.Graph.{
  PointType, pickup, delivery, warehouse, airport, seaport, RoutePoint, RouteLeg, RouteCargo,
  RouteGraph, RoutePhase, draft, create, check_mode_endpoints, Field, point_required_fields,
  present, ids, point_by_id, cargo_by_id, name_of_id, legs_by_cargo, cargos_by_leg,
  incoming_by_point, outgoing_by_point,
}
use logistics.Route.Chain.{text, joined_by, to_time, finding}

-- `sev()` and `sev(true)`
abbrev pub sev : RoutePhase → Severity
sev draft = warning
sev create = blocking

abbrev pub mode_name : FreightMode → String
mode_name road = "ROAD"
mode_name air = "AIR"
mode_name sea = "SEA"

abbrev pub point_type_name : PointType → String
point_type_name pickup = "PICKUP"
point_type_name delivery = "DELIVERY"
point_type_name warehouse = "WAREHOUSE"
point_type_name airport = "AIRPORT"
point_type_name seaport = "SEAPORT"

-- `!value`
abbrev pub is_missing : Option String → Bool
is_missing o = not (is_some (truthy o))

-- a name, if the value is missing
abbrev pub missing_of : Bool → String → List String
missing_of missing name = if missing then name ∷ [] else []

abbrev pub when_some : List String → (List String → Finding) → List Finding
when_some [] f = []
when_some (m ∷ ms) f = f (m ∷ ms) ∷ []

module _ (clock : Clock) (phase : RoutePhase) (graph : RouteGraph) where
  abbrev pub leg_finding : String → RouteLeg → List String → Finding
  leg_finding rule l message =
      finding (sev phase) rule "leg" l.id (text ("Leg " ∷ l.leg_code ∷ message))

  abbrev pub point_name : RoutePoint → String
  point_name p = elim p.name [ none ↦ p.id | some name ↦ name ]

  -- R5
  abbrev pub no_leg_rule : List Finding
  no_leg_rule =
      when (is_nil graph.legs)
        (finding (sev phase) "R5" "query" graph.query_id "A route needs at least one leg")

  abbrev pub is_loop : Option String → Option String → Bool
  is_loop none d = false
  is_loop (some o) none = false
  is_loop (some o) (some d) = o == d

  abbrev pub loop_rule : RouteLeg → List Finding
  loop_rule l = when (is_loop (truthy l.origin_point_id) (truthy l.destination_point_id)) (
      leg_finding "R5" l
        (" must connect two different points (its origin and destination are the same)" ∷ []))

  -- R3
  abbrev pub empty_leg_rule : RouteLeg → List Finding
  empty_leg_rule l =
      when (is_nil (cargos_by_leg graph l.id)) (leg_finding "R3" l (" carries no cargo" ∷ []))

  abbrev pub orphan_cargo_rule : RouteCargo → List Finding
  orphan_cargo_rule c = when (is_nil (legs_by_cargo graph c.id)) (
      finding (sev phase) "R3" "cargo" c.id
        (text ("Cargo " ∷ c.label ∷ " is not assigned to any leg" ∷ [])))

  abbrev pub used_points : List String
  used_points =
      ids (map (λ l. l.origin_point_id) graph.legs)
      ++ ids (map (λ l. l.destination_point_id) graph.legs)

  abbrev pub unused_point_rule : RoutePoint → List Finding
  unused_point_rule p = when (not (includes used_points p.id)) (
      finding (sev phase) "R3" "point" p.id
        (text ("Point " ∷ point_name p ∷ " is not used by any leg" ∷ [])))

  -- the completeness of a leg
  abbrev pub missing_parts : RouteLeg → List String
  missing_parts l =
      missing_of (is_missing l.origin_point_id) "origin"
      ++ (missing_of (is_missing l.destination_point_id) "destination"
          ++ (missing_of (not (is_some l.mode)) "mode"
              ++ (missing_of (is_nil (cargos_by_leg graph l.id)) "cargo"
                  ++ (missing_of (is_missing l.ready_date) "ready date"
                      ++ missing_of (is_missing l.target_delivery) "target delivery"))))

  unfoldable pub complete_rule : RouteLeg → List Finding
  complete_rule l =
      when_some (missing_parts l)
        (λ missing. leg_finding "C1" l (" is missing: " ∷ joined_by ", " missing ∷ []))

  -- the roll-up of a leg
  abbrev pub cargos_on : RouteLeg → List RouteCargo
  cargos_on l = present (map (λ id. cargo_by_id graph id) (cargos_by_leg graph l.id))

  abbrev pub roll_up_rule : RouteLeg → List Finding
  roll_up_rule l =
      when (any (λ c. not (is_some c.gross_wt) || not (is_some c.volume_cbm)) (cargos_on l))
        (leg_finding "C3" l (" cannot compute its weight/volume roll-up" ∷ []))

  -- V-M1
  abbrev pub is_incompatible :
      Option FreightMode → Option RoutePoint → Option RoutePoint → Option FreightMode
  is_incompatible none o d = none
  is_incompatible (some m) none d = none
  is_incompatible (some m) (some o) none = none
  is_incompatible (some m) (some o) (some d) =
      if check_mode_endpoints m o.type_ d.type_ then none else some m

  abbrev pub look_up : Option String → Option RoutePoint
  look_up none = none
  look_up (some pid) = point_by_id graph pid

  abbrev pub mode_finding : RouteLeg → Option FreightMode → List Finding
  mode_finding l none = []
  mode_finding l (some m) =
      finding blocking "V-M1" "leg" l.id (
        text (
          "Leg "
          ∷ l.leg_code
          ∷ " ("
          ∷ mode_name m
          ∷ ") endpoints are incompatible with its mode"
          ∷ []))
      ∷ []

  abbrev pub mode_rule : RouteLeg → List Finding
  mode_rule l = mode_finding l (
      is_incompatible l.mode (look_up (truthy l.origin_point_id))
        (look_up (truthy l.destination_point_id)))

  -- R7
  abbrev pub country_finding : RouteLeg → String → Option RoutePoint → List Finding
  country_finding l role none = []
  country_finding l role (some p) = when (is_missing p.country) (
      finding (sev phase) "R7" "point" p.id
        (text ("Leg " ∷ l.leg_code ∷ " " ∷ role ∷ " point needs a Country" ∷ [])))

  abbrev pub country_rule : RouteLeg → List Finding
  country_rule l =
      country_finding l "origin" (look_up (truthy l.origin_point_id))
      ++ country_finding l "destination" (look_up (truthy l.destination_point_id))

  -- R8
  abbrev pub missing_fields : RoutePoint → List Field → List String
  missing_fields p fields = map (λ f. f.0) (filter (λ f. is_missing (f.1 p)) fields)

  abbrev pub fields_rule : RoutePoint → List Finding
  fields_rule p = when_some (missing_fields p (point_required_fields p.type_)) (λ missing.
      finding (sev phase) "R8" "point" p.id (
        text (
          "Point "
          ∷ point_name p
          ∷ " ("
          ∷ point_type_name p.type_
          ∷ ") is missing: "
          ∷ joined_by ", " missing
          ∷ [])))

  -- T3: the latest of the dates at which the feeding legs arrive
  abbrev pub later : Option clock.Time → Option clock.Time → Option clock.Time
  later m none = m
  later none (some t) = some t
  later (some m) (some t) = if clock.earlier m t then some t else some m

  abbrev pub max_in : Option clock.Time → List RouteLeg → Option clock.Time
  max_in m [] = m
  max_in m (l ∷ ls) = max_in (later m (to_time clock l.target_delivery)) ls

  abbrev pub hub_finding : String → Option clock.Time → RouteLeg → List Finding
  hub_finding pid latest l = when (is_before clock (to_time clock l.ready_date) latest) (
      leg_finding "T3" l (
        " departs "
        ∷ name_of_id graph pid
        ∷ " before all feeding legs arrive (hub effective date)"
        ∷ []))

  unfoldable pub hub_rule : String → List Finding
  hub_rule pid =
      each (hub_finding pid (max_in none (incoming_by_point graph pid)))
        (outgoing_by_point graph pid)
