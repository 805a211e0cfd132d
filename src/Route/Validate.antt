-- ===== src/Route/Validate.antt =====
-- packages/shared/src/route.ts, `validateRoute`: all rules, in the order of the source.
pub mod Routable
pub mod Severities
use logistics.Common.{List, [], ◌∷◌}
use logistics.Findings.{Finding}
use logistics.Quote.Rules.{Clock, each, joined}
use logistics.Route.Graph.{RouteGraph, RoutePhase, incoming_points}
use logistics.Route.Chain.{cargo_rules}
use logistics.Route.Rules.{
  sev, no_leg_rule, loop_rule, empty_leg_rule, orphan_cargo_rule, unused_point_rule, complete_rule,
  roll_up_rule, mode_rule, country_rule, fields_rule, hub_rule,
}

-- the findings of each rule
abbrev pub by_rule : Clock → RouteGraph → RoutePhase → List (List Finding)
by_rule clock graph phase =
    no_leg_rule clock phase graph
    ∷ each (loop_rule clock phase graph) graph.legs
    ∷ each (empty_leg_rule clock phase graph) graph.legs
    ∷ each (orphan_cargo_rule clock phase graph) graph.cargo
    ∷ each (unused_point_rule clock phase graph) graph.points
    ∷ each (complete_rule clock phase graph) graph.legs
    ∷ each (roll_up_rule clock phase graph) graph.legs
    ∷ each (mode_rule clock phase graph) graph.legs
    ∷ each (country_rule clock phase graph) graph.legs
    ∷ each (fields_rule clock phase graph) graph.points
    ∷ each (hub_rule clock phase graph) (incoming_points graph)
    ∷ each (cargo_rules clock (sev phase) graph) graph.cargo
    ∷ []

unfoldable pub validate_route : Clock → RouteGraph → RoutePhase → List Finding
validate_route clock graph phase = joined (by_rule clock graph phase)
