-- ===== src/Route/Validate/Severities.antt =====
-- How severe the findings of a route are.
use logistics.Common.{
  if◌then◌else◌, ◌≡◌, refl, inl, inr, Bool, true, false, Option, none, some, List, [], ◌∷◌, ◌++◌,
  String, arith, All, All-In, In-All, ℕ, zero, suc, any, filter, Bool-cases, length, ltb, includes,
  ◌==◌, string_eq,
}
use logistics.Findings.{Finding, Severity, blocking, warning}
use logistics.Quote.Draft.{FreightMode}
use logistics.Quote.Rules.{Clock, when, each, joined}
use logistics.Route.Graph.{
  RouteGraph, RouteCargo, RouteLeg, RoutePoint, incoming_points, incoming_by_point,
  outgoing_by_point, legs_of_cargo, RoutePhase, draft, create,
}
use logistics.Route.Chain.{
  Hop, edges_of, is_imbalanced, nodes, is_source, is_sink, cargo_finding, Walked, take, early_rule,
  out_edges, msds_rule, walk, path_rules, ends_rules, chain_rules, cargo_rules, edges_rules,
}
use logistics.Route.Layering.{truthy}
use logistics.Route.Rules.{
  sev, loop_rule, empty_leg_rule, orphan_cargo_rule, unused_point_rule, roll_up_rule, hub_finding,
  country_finding, mode_finding, max_in, look_up, when_some, complete_rule, fields_rule, hub_rule,
  mode_rule, country_rule,
}
use logistics.Route.Validate.{by_rule, validate_route}

-- A finding in a draft is a warning, save for the one rule that always blocks; every finding at
-- creation blocks.
pub Graded : RoutePhase → Finding → Type 0
Graded draft f = f.severity ≡ (if f.rule == "V-M1" then blocking else warning)
Graded create f = f.severity ≡ blocking

-- The severity that the phase gives, save for the one rule that always blocks.
pub HasSeverity : RoutePhase → Finding → Type 0
HasSeverity phase f = f.severity ≡ (if f.rule == "V-M1" then blocking else sev phase)

module _ (P : Finding → Type 0) where
  All-append : (fs gs : List Finding) → All P fs → All P gs → All P (fs ++ gs)
  All-append [] gs h k = k
  All-append (f ∷ fs) gs h k = (h.0, All-append fs gs h.1 k)

  All-when : (b : Bool) (f : Finding) → P f → All P (when b f)
  All-when true f h = (h, tt)
  All-when false f h = tt

  All-when_some :
      (ms : List String) (f : List String → Finding)
      → ((ms : List String) → P (f ms))
      → All P (when_some ms f)
  All-when_some [] f h = tt
  All-when_some (m ∷ ms) f h = (h (m ∷ ms), tt)

  All-each :
      {A : Type 0} (rule : A → List Finding) (xs : List A)
      → ((x : A) → All P (rule x))
      → All P (each rule xs)
  All-each rule [] h = tt
  All-each rule (x ∷ xs) h = All-append (rule x) (each rule xs) (h x) (All-each rule xs h)

  All-joined : (ps : List (List Finding)) → All (All P) ps → All P (joined ps)
  All-joined [] h = tt
  All-joined (p ∷ []) h = h.0
  All-joined (p ∷ q ∷ ps) h = All-append p (joined (q ∷ ps)) h.0 (All-joined (q ∷ ps) h.1)

-- every finding about a row of cargo has the severity that is given
module _ (clock : Clock) (severity : Severity) (graph : RouteGraph) (c : RouteCargo) where
  abbrev Is : Finding → Type 0
  Is f = (f.severity ≡ severity) × ((f.rule == "V-M1") ≡ false)

  take-All :
      (bound steps : ℕ) (cur : String) (prev : Option Hop) (es : List Hop) (rest : Hop → Walked)
      → ((e : Hop) → All Is (rest e).findings)
      → All Is (take clock severity graph c bound steps cur prev es rest).findings
  take-All bound steps cur prev [] rest h = ((refl, refl), tt)
  take-All bound steps cur prev (e ∷ f ∷ es) rest h = ((refl, refl), tt)
  take-All bound steps cur prev (e ∷ []) rest h =
      All-append Is (early_rule clock severity graph c prev e) _ (All-when Is _ _ (refl, refl))
        (elim (Bool-cases (ltb bound (suc steps))) [
          | inl over ↦ rw over ((refl, refl), tt)
          | inr within ↦ rw within (h e)
        ])

  walk-All :
      (fuel : ℕ) (edges : List Hop) (end cur : String) (visited : List String) (steps : ℕ)
      (prev : Option Hop)
      → All Is (walk clock severity graph c fuel edges end cur visited steps prev).findings
  unfolding walk
  walk-All zero edges end cur visited steps prev = tt
  walk-All (suc fuel) edges end cur visited steps prev = elim (Bool-cases (cur == end)) [
    | inl there ↦ rw there tt
    | inr far ↦ elim (Bool-cases (includes visited cur)) [
      | inl again ↦ rw (far, again) ((refl, refl), tt)
      | inr fresh ↦
          rw (far, fresh)
            (take-All (length edges) steps cur prev (out_edges edges cur) _
              (λ e. walk-All fuel edges end e.destination (cur ∷ visited) (suc steps) (some e)))
    ]
  ]

  path_rules-All :
      (edges : List Hop) (start end : String)
      → All Is (path_rules clock severity graph c edges start end)
  unfolding path_rules
  path_rules-All edges start end = All-append Is _ _ (All-when Is _ _ (refl, refl)) (
      All-append Is _ _ (walk-All (suc (suc (length edges))) edges end start [] 0 none)
        (All-when Is _ _ (refl, refl)))

  ends_rules-All :
      (edges : List Hop) (sources sinks : List String)
      → All Is (ends_rules clock severity graph c edges sources sinks)
  ends_rules-All edges (s ∷ []) (t ∷ []) = path_rules-All edges s t
  ends_rules-All edges [] sinks = ((refl, refl), tt)
  ends_rules-All edges (s ∷ s' ∷ ss) sinks = ((refl, refl), tt)
  ends_rules-All edges (s ∷ []) [] = ((refl, refl), tt)
  ends_rules-All edges (s ∷ []) (t ∷ t' ∷ ts) = ((refl, refl), tt)

  chain_rules-All : (edges : List Hop) → All Is (chain_rules clock severity graph c edges)
  unfolding chain_rules
  chain_rules-All edges =
      let off = any (is_imbalanced edges) (nodes edges) in
      let unbalanced =
        cargo_finding clock severity graph c "R6"
          (": a point does not balance (what enters must leave)" ∷ []) in
      All-append Is (when off unbalanced) _ (All-when Is off unbalanced (refl, refl)) (
        ends_rules-All edges (filter (is_source edges) (nodes edges))
          (filter (is_sink edges) (nodes edges)))

  edges_rules-All : (edges : List Hop) → All Is (edges_rules clock severity graph c edges)
  edges_rules-All [] = tt
  edges_rules-All (e ∷ es) = chain_rules-All (e ∷ es)

  cargo_rules-All : All Is (cargo_rules clock severity graph c)
  unfolding cargo_rules
  cargo_rules-All =
      let legs = legs_of_cargo graph c in
      All-append Is (each (msds_rule clock severity graph c) legs) _
        (All-each Is (msds_rule clock severity graph c) legs (λ l. All-when Is _ _ (refl, refl)))
        (edges_rules-All (edges_of legs))

module _ (clock : Clock) (phase : RoutePhase) (graph : RouteGraph) where
  All-HasSeverity :
      (fs : List Finding)
      → All (λ f. (f.severity ≡ sev phase) × ((f.rule == "V-M1") ≡ false)) fs
      → All (HasSeverity phase) fs
  unfolding HasSeverity
  All-HasSeverity [] h = tt
  All-HasSeverity (f ∷ fs) h = (ground (arith, h.0), All-HasSeverity fs h.1)

  mode_finding-HasSeverity :
      (l : RouteLeg) (o : Option FreightMode)
      → All (HasSeverity phase) (mode_finding clock phase graph l o)
  unfolding HasSeverity
  mode_finding-HasSeverity l none = tt
  mode_finding-HasSeverity l (some m) = (refl, tt)

  mode_rule-HasSeverity : (l : RouteLeg) → All (HasSeverity phase) (mode_rule clock phase graph l)
  mode_rule-HasSeverity l = mode_finding-HasSeverity l _

  country_finding-HasSeverity :
      (l : RouteLeg) (role : String) (o : Option RoutePoint)
      → All (HasSeverity phase) (country_finding clock phase graph l role o)
  unfolding HasSeverity
  country_finding-HasSeverity l role none = tt
  country_finding-HasSeverity l role (some p) = All-when (HasSeverity phase) _ _ refl

  country_rule-HasSeverity :
      (l : RouteLeg) → All (HasSeverity phase) (country_rule clock phase graph l)
  country_rule-HasSeverity l =
      let from = look_up clock phase graph (truthy l.origin_point_id) in
      let to = look_up clock phase graph (truthy l.destination_point_id) in
      All-append (HasSeverity phase) (country_finding clock phase graph l "origin" from)
        (country_finding clock phase graph l "destination" to)
        (country_finding-HasSeverity l "origin" from)
        (country_finding-HasSeverity l "destination" to)

  validate_route-HasSeverity : All (HasSeverity phase) (validate_route clock graph phase)
  unfolding validate_route HasSeverity complete_rule hub_rule
  validate_route-HasSeverity = All-joined (HasSeverity phase) (by_rule clock graph phase) (
      (
        All-when (HasSeverity phase) _ _ refl,
        (
          All-each (HasSeverity phase) (loop_rule clock phase graph) graph.legs
              (λ x. All-when (HasSeverity phase) _ _ refl),
          (
            All-each (HasSeverity phase) (empty_leg_rule clock phase graph) graph.legs
                (λ x. All-when (HasSeverity phase) _ _ refl),
            (
              All-each (HasSeverity phase) (orphan_cargo_rule clock phase graph) graph.cargo
                  (λ x. All-when (HasSeverity phase) _ _ refl),
              (
                All-each (HasSeverity phase) (unused_point_rule clock phase graph) graph.points
                    (λ x. All-when (HasSeverity phase) _ _ refl),
                (
                  All-each (HasSeverity phase) (complete_rule clock phase graph) graph.legs
                      (λ x. All-when_some (HasSeverity phase) _ _ (λ ms. refl)),
                  (
                    All-each (HasSeverity phase) (roll_up_rule clock phase graph) graph.legs
                        (λ x. All-when (HasSeverity phase) _ _ refl),
                    (
                      All-each (HasSeverity phase) (mode_rule clock phase graph) graph.legs
                          mode_rule-HasSeverity,
                      (
                        All-each (HasSeverity phase) (country_rule clock phase graph) graph.legs
                            country_rule-HasSeverity,
                        (
                          All-each (HasSeverity phase) (fields_rule clock phase graph) graph.points
                              (λ x. All-when_some (HasSeverity phase) _ _ (λ ms. refl)),
                          (
                            All-each (HasSeverity phase) (hub_rule clock phase graph)
                                (incoming_points graph)
                                (λ pid.
                                  All-each (HasSeverity phase)
                                    (hub_finding clock phase graph pid
                                      (max_in clock phase graph none (incoming_by_point graph pid)))
                                    (outgoing_by_point graph pid)
                                    (λ x. All-when (HasSeverity phase) _ _ refl)),
                            (
                              All-each (HasSeverity phase) (cargo_rules clock (sev phase) graph)
                                  graph.cargo
                                  (λ c.
                                    All-HasSeverity _ (cargo_rules-All clock (sev phase) graph c)),
                              tt,
                            ),
                          ),
                        ),
                      ),
                    ),
                  ),
                ),
              ),
            ),
          ),
        ),
      ))

HasSeverity-Graded : (phase : RoutePhase) (f : Finding) → HasSeverity phase f → Graded phase f
unfolding HasSeverity Graded
HasSeverity-Graded draft f h = h
HasSeverity-Graded create f h = ground arith

-- The phase gives the severity of every finding: a warning in a draft, save for the rule V-M1, which
-- always blocks; and blocking at creation.
pub validate_route-Graded :
    (clock : Clock) (phase : RoutePhase) (graph : RouteGraph)
    → All (Graded phase) (validate_route clock graph phase)
validate_route-Graded clock phase graph =
    In-All (Graded phase) (validate_route clock graph phase) (λ f m. HasSeverity-Graded phase f (
      All-In (HasSeverity phase) (validate_route clock graph phase)
        (validate_route-HasSeverity clock phase graph) m))
