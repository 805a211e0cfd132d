-- ===== src/Status/Query.antt =====
-- packages/shared/src/status.ts, `deriveQueryStatus`, and
-- apps/api/src/modules/status/query-status.projector.ts: the status of a query, which is derived from
-- its legs and a few milestones and never set by hand.
pub mod Gate
use logistics.Common.{
  ℕ, ◌<◌, Bool, true, false, ◌&&◌, ◌||◌, not, Option, none, some, List, [], ◌∷◌, String, Eq, ◌==◌,
  filter, all, any, ltb, is_some, is_nil, if◌then◌else◌,
}
use logistics.Status.Vocabulary.{
  LegStatus, QuoteStatus, QueryStatus, leg_rank, leg_status_eq, quote_status_eq,
}
use logistics.Status.Rollup.{is_distributed}

-- an absent milestone is falsy
pub record QueryMilestones : Type 0 where
  pub created : Bool
  pub rfq_ready : Bool
  pub no_response : Bool
  pub awaiting_client_decision : Bool
  pub quoting_client : Bool
  pub won : Bool
  pub lost : Bool
  pub closed : Bool

-- the reducer `LEG_RANK[s] < LEG_RANK[m] ? s : m`
abbrev pub lower : LegStatus → LegStatus → LegStatus
lower m s = if ltb (leg_rank s) (leg_rank m) then s else m

pub least_from : LegStatus → List LegStatus → LegStatus
least_from m [] = m
least_from m (s ∷ ss) = least_from (lower m s) ss

-- `leastAdvanced` of a list that is not empty, given by its head and tail
unfoldable pub least_advanced : LegStatus → List LegStatus → LegStatus
unfolding least_from
least_advanced s ss = least_from s (s ∷ ss)

-- the `switch` on the least advanced leg
abbrev pub of_least : QueryMilestones → LegStatus → QueryStatus
of_least ms LegStatus.draft = QueryStatus.draft
of_least ms LegStatus.ready_for_rfq =
    if ms.rfq_ready then QueryStatus.rfq_ready else QueryStatus.created
of_least ms LegStatus.rfq_sent = QueryStatus.rfq_sent
of_least ms LegStatus.partially_quoted = QueryStatus.rfq_sent
of_least ms LegStatus.fully_quoted =
    if ms.no_response then QueryStatus.no_response else QueryStatus.quoted
of_least ms LegStatus.pending_approval = QueryStatus.quoted
of_least ms LegStatus.approved = QueryStatus.quoted
of_least ms LegStatus.delivered = QueryStatus.closed
of_least ms LegStatus.closed = QueryStatus.closed
of_least ms LegStatus.awarded = QueryStatus.quoted
of_least ms LegStatus.in_transit = QueryStatus.quoted

-- the legs' part of `deriveQueryStatus`
abbrev pub of_legs : List LegStatus → QueryMilestones → QueryStatus
of_legs [] ms =
    if ms.rfq_ready
    then QueryStatus.rfq_ready
    else if ms.created
    then QueryStatus.created
    else QueryStatus.draft
of_legs (s ∷ ss) ms = of_least ms (least_advanced s ss)

unfoldable pub derive_query_status : List LegStatus → QueryMilestones → QueryStatus
derive_query_status leg_statuses ms =
    if ms.closed
    then QueryStatus.closed
    else if ms.lost
    then QueryStatus.lost
    else if ms.won
    then QueryStatus.won
    else if ms.awaiting_client_decision
    then QueryStatus.awaiting_client_decision
    else if ms.quoting_client
    then QueryStatus.quoting_client
    else of_legs leg_statuses ms

-- What `recompute` reads: the query's row, its legs, its quotes, and how many of its quotations are
-- ISSUED. A date and a snapshot matter by their presence.
pub record QueryView : Type 0 where
  pub rfq_ready_at : Option String
  pub award_snapshot : Option String
  pub leg_statuses : List LegStatus
  pub quote_statuses : List QuoteStatus
  pub issued : ℕ

-- every quote that was sent has expired or is invalid, and some was sent
unfoldable pub no_response : List QuoteStatus → Bool
no_response quote_statuses =
    let quotes = filter is_distributed quote_statuses in
    not (is_nil quotes)
    && all (λ q. q == QuoteStatus.expired || q == QuoteStatus.invalid) quotes
    && not (any (λ q. q == QuoteStatus.quoted) quotes)

-- the milestones that the projector passes on
abbrev pub milestones_of : QueryView → QueryMilestones
milestones_of q = record {
  created = false;
  rfq_ready = is_some q.rfq_ready_at;
  no_response = no_response q.quote_statuses;
  awaiting_client_decision = ltb 0 q.issued;
  quoting_client = is_some q.award_snapshot;
  won = false;
  lost = false;
  closed = false;
}

-- The status that `recompute` writes.
unfoldable pub recompute : QueryView → QueryStatus
recompute q = derive_query_status q.leg_statuses (milestones_of q)
