-- ===== src/Status/Rollup.antt =====
-- packages/shared/src/status.ts, `rollupLegTarget`, and its user,
-- apps/api/src/modules/rfq/leg-quote.projector.ts: which status a leg should have given the statuses
-- of its quotes, and which event the projector fires to bring it there.
pub mod Target
pub mod Walk
use logistics.Common.{
  Bool, true, false, ◌&&◌, ◌||◌, not, Option, none, some, List, [], ◌∷◌, Eq, ◌==◌, filter, all, any,
  includes, if◌then◌else◌,
}
use logistics.Status.Vocabulary.{LegStatus, LegEvent, QuoteStatus, leg_status_eq, quote_status_eq}

-- LEG_ROLLUP_RESOLVED: the quote states that count as settled
abbrev pub leg_rollup_resolved : List QuoteStatus
leg_rollup_resolved =
    QuoteStatus.quoted ∷ QuoteStatus.expired ∷ QuoteStatus.closed ∷ QuoteStatus.pending_approval
    ∷ QuoteStatus.approved ∷ []

abbrev pub is_distributed : QuoteStatus → Bool
is_distributed s = not (s == QuoteStatus.select)

-- the tests on the distributed quotes
abbrev pub target_of : List QuoteStatus → Option LegStatus
target_of [] = none
target_of (q ∷ qs) =
    if all (includes leg_rollup_resolved) (q ∷ qs)
    then some LegStatus.fully_quoted
    else if any (λ s. s == QuoteStatus.quoted) (q ∷ qs)
    then some LegStatus.partially_quoted
    else none

unfoldable pub rollup_leg_target : List QuoteStatus → Option LegStatus
rollup_leg_target quote_statuses = target_of (filter is_distributed quote_statuses)

-- ROLLUP_FROZEN: statuses that the approval flow owns
abbrev pub rollup_frozen : List LegStatus
rollup_frozen = LegStatus.pending_approval ∷ LegStatus.approved ∷ []

-- `target !== null && target !== leg.status`, and the event fired then
abbrev pub forward_event : LegStatus → Option LegStatus → Option LegEvent
forward_event status none = none
forward_event status (some target) =
    if target == status
    then none
    else if target == LegStatus.fully_quoted
    then some LegEvent.quote_full
    else if status == LegStatus.rfq_sent
    then some LegEvent.quote_partial
    else none

-- `target ?? (quotes.length > 0 ? RFQ_SENT : null)`
abbrev pub back_target : Option LegStatus → List QuoteStatus → Option LegStatus
back_target (some target) distributed = some target
back_target none [] = none
back_target none (q ∷ qs) = some LegStatus.rfq_sent

-- the event that walks the leg back
abbrev pub back_event : LegStatus → Option LegStatus → Option LegEvent
back_event status none = none
back_event status (some target) =
    if target == status
    then none
    else if target == LegStatus.partially_quoted
    then some LegEvent.requote_partial
    else if target == LegStatus.rfq_sent
    then some LegEvent.requote_outstanding
    else none

-- a re-quote can only fall from the two quoted states
abbrev pub backward_event : Bool → LegStatus → Option LegStatus → List QuoteStatus → Option LegEvent
backward_event requote_triggered status target distributed =
    if not requote_triggered
    then none
    else if not (status == LegStatus.fully_quoted) && not (status == LegStatus.partially_quoted)
    then none
    else back_event status (back_target target distributed)

-- the first event, or else the second
abbrev pub or_else : Option LegEvent → Option LegEvent → Option LegEvent
or_else (some e) other = some e
or_else none other = other

-- `recomputeLeg`: the event that it fires on a leg with this status, given the statuses of the
-- leg's quotes and whether a quote has just entered REQUOTED.
unfoldable pub recompute_leg : Bool → LegStatus → List QuoteStatus → Option LegEvent
recompute_leg requote_triggered status quotes =
    let distributed = filter is_distributed quotes in
    let target = rollup_leg_target distributed in
    if includes rollup_frozen status
    then none
    else or_else (forward_event status target)
        (backward_event requote_triggered status target distributed)
