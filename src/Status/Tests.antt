-- ===== src/Status/Tests.antt =====
-- Runs of the status component at concrete inputs, and its theorems applied at them.
use logistics.Common.{
  ◌≤◌, ◌≡◌, refl, ◌≢◌, ◌↔◌, ◌⊎◌, inl, inr, true, false, none, some, List, [], ◌∷◌, ◌++◌, String,
  arith, eq_iff, All, In, if◌then◌else◌, any, ◌==◌,
}
use logistics.Common.Dict
use logistics.Status.Vocabulary.{
  LegStatus, LegEvent, QuoteStatus, QuoteEvent, QueryStatus, leg_rank, leg_status_eq, leg_event_eq,
  quote_status_eq, quote_event_eq,
}
use logistics.Status.Machine.{Reach, Transition, reopen, find_transition, next_state, here}
use logistics.Status.Registry.{Setup, register_call, contribute_call, new, get, run}
use logistics.Status.Registry.Order.{contributed, with_transitions, get-run}
use logistics.Status.Machines.{
  FireContext, edge, leg_machine, quote_machine, rfq_leg_transitions, award_leg_transitions,
  rfq_quote_transitions, award_quote_transitions, leg_app, quote_app,
}
use logistics.Status.Machines.Deterministic.{leg_boot, quote_boot}
use logistics.Status.Machines.Graph.{
  leg_approved_iff, quote_approved_iff, quote_pending_approval_iff,
}
use logistics.Status.Service.{Table, StatusChangedEvent, dispatching_state_store, row_of, fire_on}
use logistics.Status.Service.History.{
  current, logged_state, Agrees, HoldsReached, fire_all, fire_all-Agrees, fire_all-HoldsReached,
}
use logistics.Status.Rollup.{rollup_leg_target, recompute_leg}
use logistics.Status.Rollup.Target.{IsQuiet, rollup_leg_target_iff}
use logistics.Status.Rollup.Walk.{
  apply_event, recompute_leg-forward, recompute_leg-requoted, recompute_leg_settles,
}
use logistics.Status.Query.{
  QueryMilestones, least_advanced, derive_query_status, QueryView, recompute,
}
use logistics.Status.Query.Gate.{
  reached_rank, IsSilent, derive_query_status_gate, recompute-no_response,
}

-- RfqModule initialises before LegsModule, and AwardModule last.
abbrev rfq_first : List (Setup LegStatus LegEvent FireContext)
rfq_first = contribute_call "leg" rfq_leg_transitions ∷ []

abbrev award_last : List (Setup LegStatus LegEvent FireContext)
award_last = contribute_call "leg" award_leg_transitions ∷ []

get-run_example :
    get "leg" (run (rfq_first ++ register_call leg_machine ∷ award_last) new)
    ≡ some (with_transitions leg_machine (contributed "leg" (rfq_first ++ award_last)))
get-run_example = get-run rfq_first award_last leg_machine refl refl

leg_boot_example :
    (m : _) × (get "leg" (run (rfq_first ++ register_call leg_machine ∷ award_last) new) ≡ some m)
    × ((s : LegStatus) (e : LegEvent) → find_transition m s e ≡ find_transition leg_app s e)
leg_boot_example = leg_boot rfq_first award_last refl refl ((λ t h. h), (λ t h. h))

abbrev quote_modules : List (Setup QuoteStatus QuoteEvent FireContext)
quote_modules =
    contribute_call "quote" rfq_quote_transitions
    ∷ contribute_call "quote" award_quote_transitions
    ∷ []

quote_boot_example :
    (m : _) × (get "quote" (run (register_call quote_machine ∷ quote_modules) new) ≡ some m)
    × ((s : QuoteStatus) (e : QuoteEvent) → find_transition m s e ≡ find_transition quote_app s e)
quote_boot_example = quote_boot [] quote_modules refl refl ((λ t h. h), (λ t h. h))

leg_approved_iff_example :
    (next_state leg_app LegStatus.fully_quoted LegEvent.approve ≡ some LegStatus.approved) ↔ (
      (LegStatus.fully_quoted ≡ LegStatus.pending_approval) × (LegEvent.approve ≡ LegEvent.approve))
leg_approved_iff_example = leg_approved_iff LegStatus.fully_quoted LegEvent.approve

abbrev reopened : Transition LegStatus LegEvent FireContext
reopened = edge (LegStatus.approved ∷ []) LegEvent.reopen LegStatus.ready_for_rfq reopen

quote_approved_iff_example :
    (next_state quote_app QuoteStatus.quoted QuoteEvent.approve ≡ some QuoteStatus.approved) ↔ (
      (QuoteStatus.quoted ≡ QuoteStatus.pending_approval)
      × (QuoteEvent.approve ≡ QuoteEvent.approve))
quote_approved_iff_example = quote_approved_iff QuoteStatus.quoted QuoteEvent.approve

quote_pending_approval_iff_example :
    (next_state quote_app QuoteStatus.expired QuoteEvent.send_for_approval
      ≡ some QuoteStatus.pending_approval)
    ↔ ((QuoteEvent.send_for_approval ≡ QuoteEvent.send_for_approval)
        × ((QuoteStatus.expired ≡ QuoteStatus.quoted)
            ⊎ (QuoteStatus.expired ≡ QuoteStatus.expired)))
quote_pending_approval_iff_example =
    quote_pending_approval_iff QuoteStatus.expired QuoteEvent.send_for_approval

abbrev ctx : FireContext
ctx = record {
  actor_id = some "u1";
  tenant_id = none;
  query_id = some "q1";
  reason = none;
  route_valid = some true;
  findings = none;
}

abbrev drafts : Table LegStatus LegEvent
drafts = record {
  column = record { entries = ("leg-a", LegStatus.draft) ∷ ("leg-b", LegStatus.draft) ∷ [] };
  log = [];
}

-- an event that fires, one that no edge allows, and one that fires after it
abbrev calls : List (String × LegEvent × FireContext)
calls =
    ("leg-a", LegEvent.validate_pass, ctx)
    ∷ ("leg-b", LegEvent.approve, ctx)
    ∷ ("leg-a", LegEvent.send_rfq, ctx)
    ∷ []

fire_all_run :
    Dict.get "leg-a" (fire_all leg_app "leg" refl calls drafts).column ≡ some LegStatus.rfq_sent
unfolding fire_all fire_on find_transition Dict.get Dict.set
fire_all_run = refl

abbrev after_first : Table LegStatus LegEvent
after_first = record {
  column = record {
    entries = ("leg-a", LegStatus.ready_for_rfq) ∷ ("leg-b", LegStatus.draft) ∷ [];
  };
  log =
      row_of dispatching_state_store "leg" "leg-a" LegEvent.validate_pass ctx LegStatus.draft
        LegStatus.ready_for_rfq
      ∷ [];
}

abbrev first_event : StatusChangedEvent LegStatus LegEvent
first_event = record {
  entity = "leg";
  entity_id = "leg-a";
  from = LegStatus.draft;
  to = LegStatus.ready_for_rfq;
  event = LegEvent.validate_pass;
  actor_id = some "u1";
  query_id = some "q1";
}

-- both rows are at the initial state, and the log is empty
drafts-initial :
    (id : String)
    → Dict.get id drafts.column ≢ none
    → Dict.get id drafts.column ≡ some LegStatus.draft
unfolding Dict.get
drafts-initial id h = ground (arith, eq_iff "leg-a" id, eq_iff "leg-b" id)

drafts-Agrees : Agrees leg_app "leg" refl drafts
drafts-Agrees id h = ground (arith, drafts-initial id h)

drafts-HoldsReached : HoldsReached leg_app "leg" refl drafts
drafts-HoldsReached id h = rw (drafts-initial id h) here

leg-a_present : Dict.get "leg-a" (fire_all leg_app "leg" refl calls drafts).column ≢ none
leg-a_present gone = ground (arith, fire_all_run, gone)

fire_all-Agrees_example :
    logged_state leg_app "leg" refl "leg-a" (fire_all leg_app "leg" refl calls drafts)
    ≡ current leg_app "leg" refl "leg-a" (fire_all leg_app "leg" refl calls drafts)
fire_all-Agrees_example =
    fire_all-Agrees leg_app "leg" refl calls drafts drafts-Agrees "leg-a" leg-a_present

fire_all-HoldsReached_example :
    Reach leg_app LegStatus.draft
      (current leg_app "leg" refl "leg-a" (fire_all leg_app "leg" refl calls drafts))
fire_all-HoldsReached_example =
    fire_all-HoldsReached leg_app "leg" refl calls drafts drafts-HoldsReached "leg-a" leg-a_present

-- one forwarder has answered, one has been asked again, and one was never asked
abbrev quotes : List QuoteStatus
quotes = QuoteStatus.quoted ∷ QuoteStatus.requoted ∷ QuoteStatus.select ∷ []

rollup_run : rollup_leg_target quotes ≡ some LegStatus.partially_quoted
unfolding rollup_leg_target
rollup_run = refl

rollup_leg_target_iff_example :
    ((rollup_leg_target quotes ≡ some LegStatus.fully_quoted)
      ↔ ((¬ All (λ q. q ≡ QuoteStatus.select) quotes) × All IsQuiet quotes))
    × ((rollup_leg_target quotes ≡ some LegStatus.partially_quoted)
        ↔ (In QuoteStatus.quoted quotes × ¬ All IsQuiet quotes))
    × ((t : LegStatus)
        → rollup_leg_target quotes ≡ some t
        → (t ≡ LegStatus.fully_quoted) ⊎ (t ≡ LegStatus.partially_quoted))
rollup_leg_target_iff_example = rollup_leg_target_iff quotes

recompute_leg-forward_example :
    leg_rank LegStatus.rfq_sent
    ≤ leg_rank (apply_event LegStatus.rfq_sent (recompute_leg false LegStatus.rfq_sent quotes))
recompute_leg-forward_example = recompute_leg-forward LegStatus.rfq_sent quotes

recompute_leg-requoted_example :
    apply_event LegStatus.fully_quoted (recompute_leg true LegStatus.fully_quoted quotes) ≡ (
      if any (λ q. q == QuoteStatus.quoted) quotes
      then LegStatus.partially_quoted
      else LegStatus.rfq_sent)
recompute_leg-requoted_example =
    recompute_leg-requoted LegStatus.fully_quoted quotes (inr (inr refl)) (inr (inl refl))

recompute_leg_settles_example :
    recompute_leg false
      (apply_event LegStatus.fully_quoted (recompute_leg true LegStatus.fully_quoted quotes))
      quotes
    ≡ none
recompute_leg_settles_example =
    recompute_leg_settles true LegStatus.fully_quoted quotes (inr (inr refl))

abbrev no_milestones : QueryMilestones
no_milestones = record {
  created = false;
  rfq_ready = true;
  no_response = false;
  awaiting_client_decision = false;
  quoting_client = false;
  won = false;
  lost = false;
  closed = false;
}

abbrev legs : List LegStatus
legs = LegStatus.fully_quoted ∷ LegStatus.rfq_sent ∷ LegStatus.approved ∷ []

derive_run : derive_query_status legs no_milestones ≡ QueryStatus.rfq_sent
unfolding derive_query_status least_advanced
derive_run = refl

derive_query_status_gate_example :
    All (λ s. reached_rank (derive_query_status legs no_milestones) ≤ leg_rank s) legs
derive_query_status_gate_example =
    derive_query_status_gate legs no_milestones (refl, refl, refl, refl, refl)

abbrev legs_again : List LegStatus
legs_again =
    LegStatus.approved ∷ LegStatus.fully_quoted ∷ LegStatus.rfq_sent ∷ LegStatus.approved ∷ []

-- both forwarders of a one-leg query let the deadline pass
abbrev unanswered : QueryView
unanswered = record {
  rfq_ready_at = some "2026-07-01";
  award_snapshot = none;
  leg_statuses = LegStatus.fully_quoted ∷ [];
  quote_statuses = QuoteStatus.expired ∷ QuoteStatus.expired ∷ [];
  issued = 0;
}

recompute-no_response_example : (recompute unanswered ≡ QueryStatus.no_response) ↔ (
    (unanswered.award_snapshot ≡ none)
    × (unanswered.issued ≡ 0)
    × In LegStatus.fully_quoted unanswered.leg_statuses
    × All (λ s. 4 ≤ leg_rank s) unanswered.leg_statuses
    × (¬ All (λ s. s ≡ QuoteStatus.select) unanswered.quote_statuses)
    × All IsSilent unanswered.quote_statuses)
recompute-no_response_example = recompute-no_response unanswered
