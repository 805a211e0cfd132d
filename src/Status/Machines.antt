-- ===== src/Status/Machines.antt =====
-- The machines that the modules register and the edges that they contribute:
-- apps/api/src/modules/status/leg.machine.ts, rfq/quote.machine.ts, rfq/rfq.module.ts and
-- award/award.module.ts, with the context of apps/api/src/modules/status/status.types.ts.
pub mod Deterministic
pub mod Graph
use logistics.Common.{
  Bool, true, false, Option, none, some, List, [], ◌∷◌, ◌++◌, String, if◌then◌else◌,
}
use logistics.Findings.{Finding, blocking}
use logistics.Status.Vocabulary.{LegStatus, LegEvent, QuoteStatus, QuoteEvent}
use logistics.Status.Machine.{
  Transition, TransitionKind, forward, reopen, Machine, GuardResult, allow, block,
}
use logistics.Status.Registry.{Setup, register_call, contribute_call}

-- The fields that the program reads; `route_valid` and `findings` feed the guard of a leg's edge.
pub record FireContext : Type 0 where
  pub actor_id : Option String
  pub tenant_id : Option String
  pub query_id : Option String
  pub reason : Option String
  pub route_valid : Option Bool
  pub findings : Option (List Finding)

module _ {S E : Type 0} where
  abbrev pub edge : List S → E → S → TransitionKind → Transition S E FireContext
  edge from event to kind = record {
    from = from;
    event = event;
    to = to;
    guard = none;
    kind = kind;
  }

abbrev pub default_finding : Finding
default_finding = record {
  rule = "C1";
  severity = blocking;
  scope = record { type_ = "leg"; id = none };
  message = "Leg is incomplete or its route is not valid";
}

-- `ctx.findings && ctx.findings.length > 0 ? ctx.findings : [...]`
abbrev pub findings_or_default : Option (List Finding) → List Finding
findings_or_default none = default_finding ∷ []
findings_or_default (some []) = default_finding ∷ []
findings_or_default (some (f ∷ fs)) = f ∷ fs

-- `ctx.routeValid === true`
abbrev pub is_true : Option Bool → Bool
is_true (some true) = true
is_true _ = false

abbrev pub route_guard : FireContext → GuardResult
route_guard ctx =
    if is_true ctx.route_valid then allow else block (findings_or_default ctx.findings)

-- `legTransitions`: the forward edge is guarded by the route's validity.
abbrev pub leg_transitions : List (Transition LegStatus LegEvent FireContext)
leg_transitions =
    record {
      from = LegStatus.draft ∷ [];
      event = LegEvent.validate_pass;
      to = LegStatus.ready_for_rfq;
      guard = some route_guard;
      kind = forward;
    }
    ∷ edge (LegStatus.ready_for_rfq ∷ []) LegEvent.reopen LegStatus.draft reopen
    ∷ []

abbrev pub leg_machine : Machine LegStatus LegEvent FireContext
leg_machine = record { key = "leg"; initial = LegStatus.draft; transitions = leg_transitions }

-- `quoteTransitions`
abbrev pub quote_transitions : List (Transition QuoteStatus QuoteEvent FireContext)
quote_transitions =
    edge (QuoteStatus.select ∷ []) QuoteEvent.send QuoteStatus.rfq_sent forward
    ∷ edge (QuoteStatus.rfq_sent ∷ []) QuoteEvent.submit QuoteStatus.quoted forward
    ∷ edge (QuoteStatus.rfq_sent ∷ []) QuoteEvent.expire QuoteStatus.expired forward
    ∷ edge (QuoteStatus.quoted ∷ []) QuoteEvent.invalidate QuoteStatus.invalid reopen
    ∷ []

abbrev pub quote_machine : Machine QuoteStatus QuoteEvent FireContext
quote_machine = record {
  key = "quote";
  initial = QuoteStatus.select;
  transitions = quote_transitions;
}

-- what RfqModule contributes to `leg`
abbrev pub rfq_leg_transitions : List (Transition LegStatus LegEvent FireContext)
rfq_leg_transitions =
    edge (LegStatus.ready_for_rfq ∷ []) LegEvent.send_rfq LegStatus.rfq_sent forward
    ∷ edge (LegStatus.rfq_sent ∷ []) LegEvent.quote_partial LegStatus.partially_quoted forward
    ∷ edge (LegStatus.rfq_sent ∷ []) LegEvent.quote_full LegStatus.fully_quoted forward
    ∷ edge (LegStatus.partially_quoted ∷ []) LegEvent.quote_full LegStatus.fully_quoted forward
    ∷ edge (LegStatus.rfq_sent ∷ []) LegEvent.reopen LegStatus.ready_for_rfq reopen
    ∷ edge (LegStatus.partially_quoted ∷ []) LegEvent.reopen LegStatus.ready_for_rfq reopen
    ∷ edge (LegStatus.fully_quoted ∷ []) LegEvent.reopen LegStatus.ready_for_rfq reopen
    ∷ []

-- what RfqModule contributes to `quote`
abbrev pub rfq_quote_transitions : List (Transition QuoteStatus QuoteEvent FireContext)
rfq_quote_transitions =
    edge (QuoteStatus.invalid ∷ []) QuoteEvent.send QuoteStatus.rfq_sent forward ∷ []

-- what AwardModule contributes to `quote`
abbrev pub award_quote_transitions : List (Transition QuoteStatus QuoteEvent FireContext)
award_quote_transitions =
    edge (QuoteStatus.quoted ∷ []) QuoteEvent.send_for_approval QuoteStatus.pending_approval forward
    ∷ edge (QuoteStatus.expired ∷ []) QuoteEvent.send_for_approval QuoteStatus.pending_approval
        forward
    ∷ edge (QuoteStatus.pending_approval ∷ []) QuoteEvent.approve QuoteStatus.approved forward
    ∷ edge (QuoteStatus.pending_approval ∷ []) QuoteEvent.return QuoteStatus.quoted reopen
    ∷ edge (QuoteStatus.approved ∷ []) QuoteEvent.unapprove QuoteStatus.quoted reopen
    ∷ edge (QuoteStatus.pending_approval ∷ QuoteStatus.approved ∷ []) QuoteEvent.return_expired
        QuoteStatus.expired reopen
    ∷ edge (QuoteStatus.quoted ∷ []) QuoteEvent.request_requote QuoteStatus.requoted reopen
    ∷ edge (QuoteStatus.pending_approval ∷ []) QuoteEvent.request_requote QuoteStatus.requoted
        reopen
    ∷ edge (QuoteStatus.approved ∷ []) QuoteEvent.request_requote QuoteStatus.requoted reopen
    ∷ edge (QuoteStatus.expired ∷ []) QuoteEvent.request_requote QuoteStatus.requoted reopen
    ∷ edge (QuoteStatus.requoted ∷ []) QuoteEvent.submit QuoteStatus.quoted forward
    ∷ edge (QuoteStatus.requoted ∷ []) QuoteEvent.expire QuoteStatus.expired forward
    ∷ edge (QuoteStatus.pending_approval ∷ []) QuoteEvent.invalidate QuoteStatus.invalid reopen
    ∷ edge (QuoteStatus.approved ∷ []) QuoteEvent.invalidate QuoteStatus.invalid reopen
    ∷ edge (QuoteStatus.expired ∷ []) QuoteEvent.invalidate QuoteStatus.invalid reopen
    ∷ []

-- what AwardModule contributes to `leg`
abbrev pub award_leg_transitions : List (Transition LegStatus LegEvent FireContext)
award_leg_transitions =
    edge (LegStatus.fully_quoted ∷ []) LegEvent.send_for_approval LegStatus.pending_approval forward
    ∷ edge (LegStatus.partially_quoted ∷ []) LegEvent.send_for_approval LegStatus.pending_approval
        forward
    ∷ edge (LegStatus.pending_approval ∷ []) LegEvent.approve LegStatus.approved forward
    ∷ edge (LegStatus.pending_approval ∷ []) LegEvent.return_full LegStatus.fully_quoted reopen
    ∷ edge (LegStatus.pending_approval ∷ []) LegEvent.return_partial LegStatus.partially_quoted
        reopen
    ∷ edge (LegStatus.approved ∷ []) LegEvent.return_full LegStatus.fully_quoted reopen
    ∷ edge (LegStatus.approved ∷ []) LegEvent.return_partial LegStatus.partially_quoted reopen
    ∷ edge (LegStatus.approved ∷ []) LegEvent.reopen_award LegStatus.fully_quoted reopen
    ∷ edge (LegStatus.approved ∷ []) LegEvent.reopen LegStatus.ready_for_rfq reopen
    ∷ edge (LegStatus.pending_approval ∷ []) LegEvent.reopen LegStatus.ready_for_rfq reopen
    ∷ edge (LegStatus.fully_quoted ∷ []) LegEvent.requote_partial LegStatus.partially_quoted reopen
    ∷ edge (LegStatus.fully_quoted ∷ LegStatus.partially_quoted ∷ []) LegEvent.requote_outstanding
        LegStatus.rfq_sent reopen
    ∷ []

-- The machines that `get` answers once the modules are initialised; `Registry.Order.get-run` says
-- that the order of the two contributions only changes the order of the edges.
abbrev pub leg_app : Machine LegStatus LegEvent FireContext
leg_app = record leg_machine {
  transitions = leg_transitions ++ (rfq_leg_transitions ++ award_leg_transitions);
}

abbrev pub quote_app : Machine QuoteStatus QuoteEvent FireContext
quote_app = record quote_machine {
  transitions = quote_transitions ++ (rfq_quote_transitions ++ award_quote_transitions);
}
