-- ===== src/Status/Machines/Graph.antt =====
-- What the edges of the assembled machines say of the life of a leg and of a quote.
use logistics.Common.{◌≤◌, ◌<◌, ◌≡◌, ◌↔◌, ◌⊎◌, ◌≢◌, ◌∙◌, ap, some, arith}
use logistics.Status.Vocabulary.{
  LegStatus, LegEvent, QuoteStatus, QuoteEvent, leg_rank, leg_status_eq, leg_event_eq,
  quote_status_eq, quote_event_eq,
}
use logistics.Status.Machine.{
  Transition, forward, reopen, find_transition, next_state, Reach, here, next,
}
use logistics.Status.Machines.{FireContext, leg_app, quote_app}

-- A leg is approved only by the `approve` event, out of a pending approval.
pub leg_approved_iff :
    (s : LegStatus) (e : LegEvent)
    → (next_state leg_app s e ≡ some LegStatus.approved)
      ↔ ((s ≡ LegStatus.pending_approval) × (e ≡ LegEvent.approve))
unfolding next_state find_transition
leg_approved_iff s e = ground arith

-- A forward edge of a leg raises its rank, and a reopening edge lowers it.
pub leg_kind :
    (s : LegStatus) (e : LegEvent) {t : Transition LegStatus LegEvent FireContext}
    → find_transition leg_app s e ≡ some t
    → ((t.kind ≡ forward) × (leg_rank s < leg_rank t.to))
      ⊎ ((t.kind ≡ reopen) × (leg_rank t.to < leg_rank s))
unfolding find_transition
leg_kind s e h = ground arith

leg_rank_step :
    (s : LegStatus) (e : LegEvent) {t : LegStatus}
    → next_state leg_app s e ≡ some t
    → leg_rank t ≤ 6
unfolding next_state find_transition
leg_rank_step s e h = ground arith

-- From DRAFT a leg never gets beyond APPROVED: AWARDED, IN_TRANSIT, DELIVERED and CLOSED are not
-- reached.
pub leg-Reach : {s : LegStatus} → Reach leg_app LegStatus.draft s → leg_rank s ≤ 6
leg-Reach here = omega arith
leg-Reach (next {t} e r h) = leg_rank_step t e h

-- A quote is approved only by the `approve` event, out of a pending approval.
pub quote_approved_iff :
    (s : QuoteStatus) (e : QuoteEvent)
    → (next_state quote_app s e ≡ some QuoteStatus.approved)
      ↔ ((s ≡ QuoteStatus.pending_approval) × (e ≡ QuoteEvent.approve))
unfolding next_state find_transition
quote_approved_iff s e = ground arith

-- A quote comes under review only by `send_for_approval`, out of QUOTED or EXPIRED.
pub quote_pending_approval_iff :
    (s : QuoteStatus) (e : QuoteEvent)
    → (next_state quote_app s e ≡ some QuoteStatus.pending_approval) ↔ (
        (e ≡ QuoteEvent.send_for_approval) × ((s ≡ QuoteStatus.quoted) ⊎ (s ≡ QuoteStatus.expired)))
unfolding next_state find_transition
quote_pending_approval_iff s e = ground arith

quote_step-ne-closed :
    (s : QuoteStatus) (e : QuoteEvent) → next_state quote_app s e ≢ some QuoteStatus.closed
unfolding next_state find_transition
quote_step-ne-closed s e = ground arith

-- No run of events closes a quote.
pub quote-Reach : {s : QuoteStatus} → Reach quote_app QuoteStatus.select s → s ≢ QuoteStatus.closed
quote-Reach here = λ h. cc
quote-Reach (next {t} e r h) = λ c. quote_step-ne-closed t e (h ∙ ap some c)
