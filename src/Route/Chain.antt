-- ===== src/Route/Chain.antt =====
-- packages/shared/src/route.ts, the rules of one row of cargo: R9, R6, R1, R2, R4, T1 and
-- the rule of the legs that the chain leaves out.
pub mod Walk
pub mod Continuous
use Prim.Native.String.{◌++◌ as str_append}
use logistics.Common.{
  ℕ, zero, suc, ◌+◌, Bool, true, false, ◌&&◌, ◌||◌, not, Option, none, some, List, [], ◌∷◌, ◌++◌,
  map, String, ◌==◌, string_eq, nat_eq, length, ltb, filter, find?, any, includes, is_nil, is_some,
  if◌then◌else◌,
}
use logistics.Changes.Scope.{unique}
use logistics.Findings.{Finding, FindingScope, Severity}
use logistics.Quote.Rules.{Clock, is_before, each, when}
use logistics.Route.Layering.{truthy}
use logistics.Route.Graph.{
  RoutePoint, RouteLeg, RouteCargo, RouteGraph, is_delivery, present, point_by_id, name_of_id,
  legs_of_cargo,
}

abbrev pub text : List String → String
text [] = ""
text (s ∷ ss) = str_append s (text ss)

abbrev pub joined_by : String → List String → String
joined_by sep [] = ""
joined_by sep (s ∷ []) = s
joined_by sep (s ∷ t ∷ ss) = str_append s (str_append sep (joined_by sep (t ∷ ss)))

-- toTime
abbrev pub to_time : (clock : Clock) → Option String → Option clock.Time
to_time clock none = none
to_time clock (some s) = clock.time_of s

abbrev pub finding : Severity → String → String → String → String → Finding
finding severity rule type_ id message = record {
  rule = rule;
  severity = severity;
  scope = record { type_ = type_; id = some id };
  message = message;
}

-- a leg with both its ends
pub record Hop : Type 0 where
  pub leg : RouteLeg
  pub origin : String
  pub destination : String

abbrev pub hop_of : RouteLeg → Option String → Option String → Option Hop
hop_of l none d = none
hop_of l (some o) none = none
hop_of l (some o) (some d) = some (record { leg = l; origin = o; destination = d })

-- `legs.filter((l) => l.originPointId && l.destinationPointId)`
unfoldable pub edges_of : List RouteLeg → List Hop
edges_of legs =
    present (map (λ l. hop_of l (truthy l.origin_point_id) (truthy l.destination_point_id)) legs)

abbrev pub out_edges : List Hop → String → List Hop
out_edges edges n = filter (λ e. e.origin == n) edges

-- outdeg.get(n) ?? 0 and indeg.get(n) ?? 0
abbrev pub outdeg : List Hop → String → ℕ
outdeg edges n = length (out_edges edges n)

abbrev pub indeg : List Hop → String → ℕ
indeg edges n = length (filter (λ e. e.destination == n) edges)

abbrev pub both_ends : List Hop → List String
both_ends [] = []
both_ends (e ∷ es) = e.origin ∷ e.destination ∷ both_ends es

-- in the order in which the edges name them
abbrev pub nodes : List Hop → List String
nodes edges = unique (both_ends edges)

abbrev pub is_source : List Hop → String → Bool
is_source edges n = outdeg edges n == indeg edges n + 1

abbrev pub is_sink : List Hop → String → Bool
is_sink edges n = indeg edges n == outdeg edges n + 1

abbrev pub is_imbalanced : List Hop → String → Bool
is_imbalanced edges n =
    not (indeg edges n == outdeg edges n) && not (is_source edges n) && not (is_sink edges n)

module _ (clock : Clock) where
  -- `dep < prevArr`, where both are dates
  abbrev pub is_early : Option Hop → Hop → Bool
  is_early none e = false
  is_early (some prev) e =
      is_before clock (to_time clock e.leg.ready_date) (to_time clock prev.leg.target_delivery)

pub data Ending : Type 0 where
  arrived broke out_of_fuel : Ending

-- the findings of the walk, the legs that it took, and how it ended
pub record Walked : Type 0 where
  pub findings : List Finding
  pub steps : ℕ
  pub ending : Ending

module _ (clock : Clock) (severity : Severity) (graph : RouteGraph) (c : RouteCargo) where
  abbrev pub cargo_finding : String → List String → Finding
  cargo_finding rule message =
      finding severity rule "cargo" c.id (text ("Cargo " ∷ c.label ∷ message))

  abbrev pub early_rule : Option Hop → Hop → List Finding
  early_rule prev e = when (is_early clock prev e) (
      finding severity "T1" "leg" e.leg.id
        (text ("Leg " ∷ e.leg.leg_code ∷ " departs before the previous leg arrives" ∷ [])))

  abbrev pub prepend : List Finding → Walked → Walked
  prepend fs w = record w { findings = fs ++ w.findings }

  abbrev pub stop : ℕ → Finding → Walked
  stop steps f = record { findings = f ∷ []; steps = steps; ending = broke }

  -- the body of the loop at a point that has these edges out of it
  abbrev pub take : ℕ → ℕ → String → Option Hop → List Hop → (Hop → Walked) → Walked
  take bound steps cur prev [] rest =
      stop steps (cargo_finding "R1" (": broken or forking chain at " ∷ name_of_id graph cur ∷ []))
  take bound steps cur prev (e ∷ f ∷ es) rest =
      stop steps (cargo_finding "R1" (": broken or forking chain at " ∷ name_of_id graph cur ∷ []))
  take bound steps cur prev (e ∷ []) rest = prepend (early_rule prev e) (
      if ltb bound (suc steps)
      then stop (suc steps) (cargo_finding "R4" (": route does not terminate (cycle)" ∷ []))
      else rest e)

  -- the `while` loop
  unfoldable pub walk : ℕ → List Hop → String → String → List String → ℕ → Option Hop → Walked
  walk zero edges end cur visited steps prev = record {
    findings = [];
    steps = steps;
    ending = out_of_fuel;
  }
  walk (suc fuel) edges end cur visited steps prev =
      let rest =
        λ (e : Hop). walk fuel edges end e.destination (cur ∷ visited) (suc steps) (some e) in
      if cur == end
      then record { findings = []; steps = steps; ending = arrived }
      else if includes visited cur
      then stop steps
          (cargo_finding "R4" (": route revisits " ∷ name_of_id graph cur ∷ " (cycle)" ∷ []))
      else take (length edges) steps cur prev (out_edges edges cur) rest

  abbrev pub codes : List Hop → String
  codes es = joined_by " & " (map (λ e. e.leg.leg_code) es)

  -- why the edges have no single start or no single end
  abbrev pub split_message : List Hop → Option String → Option String → List String
  split_message edges (some fork_pt) merge =
      " can't be split across parallel legs — it leaves "
      ∷ name_of_id graph fork_pt
      ∷ " on "
      ∷ codes (out_edges edges fork_pt)
      ∷ ". Give each destination its own cargo row."
      ∷ []
  split_message edges none (some merge_pt) =
      " can't be built from parallel legs — "
      ∷ codes (filter (λ e. e.destination == merge_pt) edges)
      ∷ " both arrive at "
      ∷ name_of_id graph merge_pt
      ∷ ". Give each origin its own cargo row."
      ∷ []
  split_message edges none none =
      ": its legs do not form a single continuous Pickup→Delivery chain" ∷ []

  abbrev pub split_finding : List Hop → Finding
  split_finding edges = cargo_finding "R1" (
      split_message edges (find? (λ n. ltb 1 (outdeg edges n)) (unique (map (λ e. e.origin) edges)))
        (find? (λ n. ltb 1 (indeg edges n)) (unique (map (λ e. e.destination) edges))))

  abbrev pub starts_at_delivery : Option RoutePoint → Bool
  starts_at_delivery none = false
  starts_at_delivery (some p) = is_delivery p.type_

  abbrev pub is_arrived : Ending → Bool
  is_arrived arrived = true
  is_arrived _ = false

  -- the walk took every edge
  abbrev pub consumed_rule : List Hop → Walked → List Finding
  consumed_rule edges w =
      when (is_arrived w.ending && not (w.steps == length edges))
        (cargo_finding "C2" (": not all its legs form one continuous chain" ∷ []))

  abbrev pub walk_rules : List Hop → Walked → List Finding
  walk_rules edges w = w.findings ++ consumed_rule edges w

  unfoldable pub path_rules : List Hop → String → String → List Finding
  unfolding walk
  path_rules edges start end =
      when (starts_at_delivery (point_by_id graph start)) (
        cargo_finding "R2" (
          ": chain can't start at a Delivery point — a Delivery is where cargo arrives, not where it begins"
          ∷ []))
      ++ walk_rules edges (walk (suc (suc (length edges))) edges end start [] 0 none)

  abbrev pub ends_rules : List Hop → List String → List String → List Finding
  ends_rules edges (start ∷ []) (end ∷ []) = path_rules edges start end
  ends_rules edges _ _ = split_finding edges ∷ []

  unfoldable pub chain_rules : List Hop → List Finding
  chain_rules edges =
      when (any (is_imbalanced edges) (nodes edges))
        (cargo_finding "R6" (": a point does not balance (what enters must leave)" ∷ []))
      ++ ends_rules edges (filter (is_source edges) (nodes edges))
          (filter (is_sink edges) (nodes edges))

  -- R9
  abbrev pub msds_rule : RouteLeg → List Finding
  msds_rule l = when (c.is_dangerous && not (is_some (truthy c.msds_file_id))) (
      finding severity "R9" "leg" l.id (
        text
          ("Leg " ∷ l.leg_code ∷ " carries dangerous cargo " ∷ c.label ∷ " without an MSDS" ∷ [])))

  -- the edges, if there are any
  abbrev pub edges_rules : List Hop → List Finding
  edges_rules [] = []
  edges_rules (e ∷ es) = chain_rules (e ∷ es)

  unfoldable pub cargo_rules : List Finding
  cargo_rules =
      each msds_rule (legs_of_cargo graph c) ++ edges_rules (edges_of (legs_of_cargo graph c))
