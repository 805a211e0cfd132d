-- ===== src/Route/Chain/Continuous.antt =====
-- A row of cargo whose edges draw no finding is carried along one continuous chain.
use logistics.Common.{
  suc, ◌≡◌, ◌≢◌, refl, ◌∙◌, Bool, true, false, Option, none, some, List, [], ◌∷◌, map, String,
  arith, In, IsDistinct, length, filter, nat_eq, string_eq,
}
use logistics.Common.Counting.{IsDistinct-In}
use logistics.Common.Images.{In-map}
use logistics.Findings.{Severity, Finding}
use logistics.Quote.Rules.{Clock, when}
use logistics.Quote.Rules.Meaning.{append_nil_iff}
use logistics.Route.Graph.{RouteCargo, RouteGraph, RoutePoint, delivery, point_by_id, is_delivery}
use logistics.Route.Chain.{
  Hop, is_source, is_sink, nodes, walk_rules, consumed_rule, path_rules, ends_rules, chain_rules,
  walk,
}
use logistics.Route.Chain.Walk.{Leads, InOrder, walk-Taken}

-- One chain: a start that is no Delivery, and a path from it to an end that takes every edge once, leaves
-- no point twice, and departs from no point before it has arrived there.
pub record IsChain (clock : Clock) (graph : RouteGraph) (edges : List Hop) : Type 0 where
  pub start : String
  pub end : String
  pub path : List Hop
  pub leads : Leads start path end
  pub count : length path ≡ length edges
  pub inside : (h : Hop) → In h path → In h edges
  pub all : (h : Hop) → In h edges → In h path
  pub once : IsDistinct (map (λ h. h.origin) path)
  pub in_order : InOrder clock none path
  pub no_delivery : (p : RoutePoint) → point_by_id graph start ≡ some p → p.type_ ≢ delivery

when_clear : (b : Bool) (f : Finding) → when b f ≡ [] → b ≡ false
when_clear true f h = absurd (ground arith)
when_clear false f h = refl

IsDistinct-of_map : {A B : Type 0} (f : A → B) (xs : List A) → IsDistinct (map f xs) → IsDistinct xs
IsDistinct-of_map f [] d = tt
IsDistinct-of_map f (x ∷ xs) (fresh, d) = (λ m. fresh (In-map f xs x m), IsDistinct-of_map f xs d)

starts_elsewhere :
    (o : Option RoutePoint) (p : RoutePoint)
    → (elim o [ none ↦ false | some q ↦ is_delivery q.type_ ]) ≡ false
    → o ≡ some p
    → p.type_ ≢ delivery
starts_elsewhere none p h e = absurd (ground arith)
starts_elsewhere (some q) p h e = λ d. ground (arith, h, e, d)

module _ (clock : Clock) (severity : Severity) (graph : RouteGraph) (c : RouteCargo) where
  path_rules-IsChain :
      (edges : List Hop) (start end : String)
      → path_rules clock severity graph c edges start end ≡ []
      → IsChain clock graph edges
  unfolding path_rules
  path_rules-IsChain edges start end h =
      let w = walk clock severity graph c (suc (suc (length edges))) edges end start [] 0 none in
      let (from, rest) = (append_nil_iff _ (walk_rules clock severity graph c edges w)).0 h in
      let (clear, consumed) =
        (append_nil_iff w.findings (consumed_rule clock severity graph c edges w)).0 rest in
      let (n, t, counted, comes) =
        walk-Taken clock severity graph c (suc (suc (length edges))) edges end start [] 0 none
          (omega arith) (omega arith) clear in
      let taken = when_clear _ _ consumed in
      let full : n ≡ length edges = ground (arith, taken, counted, comes) in
      let count : length t.path ≡ length edges = t.count ∙ full in
      record {
        start = start;
        end = end;
        path = t.path;
        leads = t.leads;
        count = count;
        inside = t.inside;
        all =
            IsDistinct-In t.path edges (IsDistinct-of_map (λ h. h.origin) t.path t.once) t.inside
              count;
        once = t.once;
        in_order = t.in_order;
        no_delivery = λ p e. starts_elsewhere (point_by_id graph start) p (when_clear _ _ from) e;
      }

  ends_rules-IsChain :
      (edges : List Hop) (sources sinks : List String)
      → ends_rules clock severity graph c edges sources sinks ≡ []
      → IsChain clock graph edges
  ends_rules-IsChain edges (s ∷ []) (t ∷ []) h = path_rules-IsChain edges s t h
  ends_rules-IsChain edges [] sinks h = absurd (ground arith)
  ends_rules-IsChain edges (s ∷ s' ∷ ss) sinks h = absurd (ground arith)
  ends_rules-IsChain edges (s ∷ []) [] h = absurd (ground arith)
  ends_rules-IsChain edges (s ∷ []) (t ∷ t' ∷ ts) h = absurd (ground arith)

  pub chain_rules-IsChain :
      (edges : List Hop) → chain_rules clock severity graph c edges ≡ [] → IsChain clock graph edges
  unfolding chain_rules
  chain_rules-IsChain edges h =
      ends_rules-IsChain edges (filter (is_source edges) (nodes edges))
        (filter (is_sink edges) (nodes edges)) ((append_nil_iff _ _).0 h).1
