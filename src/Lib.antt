-- ===== src/Lib.antt =====
-- Logistics: the life of a freight query, from its legs and their quotes to the status of the
-- query, and the changes that are made while forwarders are quoting.
--
-- The parts and how they interact. A leg, a quote and a query each have a status. The status of a
-- leg and of a quote moves by events along the edges of a machine; several modules contribute edges
-- to one machine when the program starts (StatusRegistry), and StatusService.fire takes an edge: it
-- reads the current status, finds the edge, asks its guard, writes a row of the transition log and
-- the status column in one transaction, and then emits an event. A quote's event makes
-- LegQuoteProjector bring the leg along; a leg's event makes QueryStatusProjector recompute the
-- query. Every edit of a query's data goes through ChangeMediator: it is classified by its impact,
-- its scope is resolved to legs, and if one of these carries a live quote the edit becomes a change
-- order, which invalidates prices, refreshes pending requests and reopens legs by the same events.
-- A forwarder's quote is drafted, totalled and checked by the quote engine before it may be
-- submitted. A leg's choice is sent for approval, and is approved or rejected by someone else than
-- its sender (AwardService), which moves the quote and the leg by the same events; a request for a
-- new price and a change order take the decision back. A route's points are laid out by their depth
-- in the graph of its legs, and the route is validated before the query is created (validateRoute).
-- An RFQ has timers, and the one at its deadline closes the quotes that were not answered.
--
-- Which file models which part (paths from the repository's root):
--   Common, and the modules under it: Boolean tests, lists, maps, sorting, shared lemmas.
--   Findings: packages/shared/src/findings.ts; Findings/Dedupe: the repeated findings.
--   Status/Vocabulary, Status/Machine: packages/shared/src/status.ts (the statuses, the events,
--     findTransition).
--   Status/Registry: apps/api/src/modules/status/status.registry.ts; its child Order states what
--     the order of the modules' calls does and does not change.
--   Status/Machines: apps/api/src/modules/status/leg.machine.ts, rfq/quote.machine.ts,
--     rfq/rfq.module.ts, award/award.module.ts. Deterministic ties the assembled machines leg_app
--     and quote_app to the registry at boot, Graph says what their edges allow.
--   Status/Service: apps/api/src/modules/status/status.service.ts and state-store.ts; History
--     follows sequences of events.
--   Status/Rollup: rollupLegTarget, and apps/api/src/modules/rfq/leg-quote.projector.ts; Target
--     and Walk state what it does.
--   Status/Query: deriveQueryStatus, and apps/api/src/modules/status/query-status.projector.ts.
--   Changes/Impact: packages/shared/src/change.ts,
--     apps/api/src/modules/changes/impact.registry.ts.
--   Changes/Store, Changes/Scope: the rows, impact.classifier.ts, scope.resolver.ts,
--     live-quotes.ts, and the look-ups of apps/api/src/modules/routing/routing.service.ts.
--   Changes/Fire, Changes/Order, Changes/Mediator: the status events of a cascade,
--     change-order.strategy.ts, free-path.strategy.ts and change-mediator.ts. The refresh finds a leg
--     as loadLegForRfq of apps/api/src/modules/rfq/leg-context.ts does, by its id and its query.
--     Order/Radius says which rows a change order deals with.
--   Quote/Draft, Quote/Totals, Quote/Rules, Quote/Gate: packages/shared/src/quote.ts and
--     quote-engine.ts; Gate/Priced says when a draft counts as begun, Gate/Rows
--     what the gate reads off its rows.
--   Award: apps/api/src/modules/award/award.service.ts, with the query lock: approve and reject;
--     Award/Send: sendForApproval; Award/Reversal: award/negotiation.service.ts and
--     award-change-order.listener.ts; Award/Reopen: reopenComparison, with the write of
--     query-status.projector.ts. Their children state what each operation needs and does.
--   Rfq/Timers: apps/api/src/modules/comms/scheduled-event.service.ts (schedule, cancel);
--     Rfq/Expiry: its runDue, and apps/api/src/modules/rfq/rfq-schedule.listener.ts (onExpiry);
--     Rfq/Selection and Rfq/Window: setFfSelection and resetDeadlineAndRearm of rfq.service.ts.
--     Their children state what a selection, a sweep, a run and a new window leave.
--   Route/Layering: packages/shared/src/route-layering.ts (computeLongestPathDepth).
--   Route/Graph, Route/Chain, Route/Rules, Route/Validate: packages/shared/src/route.ts
--     (validateRoute), and the types of points of points.ts. Chain has the rules of one row of cargo
--     and the walk along its legs, Rules the others; their children say what a route without
--     findings is.
--   Quote/Charges: packages/shared/src/charge-config.ts. Quote/Recommend: recommend.ts.
--
-- How state and errors are modelled. A handler is a function from the rows it reads to the rows it
-- leaves, or to the error that it throws. A transaction that fails leaves its input; an error that
-- is thrown after a commit carries the committed rows with it (Changes/Fire: Run). A Map is a list
-- of entries in insertion order (Common/Dict). Events that a call awaits are part of the step.
-- Loops run over a list by recursion; the relaxation passes of Route/Layering recur on the source's
-- own cap. The walk of Route/Chain has as fuel the number of edges and two, and the source's own
-- bound on the steps stops it before.
--
-- What the model takes as a parameter: the platform's numbers (Number) and dates (Clock), the order
-- of the numbers (IsStrictWeak, which holds of all numbers but NaN), what a leg freezes onto a
-- quote (the type of frozen views), the caller's edit of the rows, the route validator, what a send
-- for approval reads of the comparison, of the RFQs' deadlines and of the time, and the id that the
-- database gives to a new quote. What the theorems need of these is a hypothesis where it is used.
--
-- Not modelled: interleaving of concurrent requests, for which the status service takes no lock;
-- the notification of forwarders and the pricing summary of a change order; the distribution of
-- legs to forwarders, the rotation of portal tokens, the messages of a deadline, the forwarder
-- portal, quotations and the comparison, which call the parts above; the grid of a route; row
-- editing, authentication, mail and the web application.
pub mod Common
pub mod Findings
pub mod Status
pub mod Quote
pub mod Rfq
pub mod Route
pub mod Award
pub mod Changes
