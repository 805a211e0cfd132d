-- ===== src/Status/Vocabulary.antt =====
-- The status vocabularies of packages/shared/src/status.ts: the states and events of a leg and of a
-- quote, and the states of a query. Each enumeration is compared as the source's string constants
-- are, by `===`; `leg_rank` is the source's LEG_RANK, and the other codes only number the values.
use logistics.Common.{ℕ, zero, suc, ◌≡◌, refl, Option, none, some, Eq, code_beq, code_beq_iff}

-- LegStatus
pub data LegStatus : Type 0 where
  draft ready_for_rfq rfq_sent partially_quoted fully_quoted pending_approval approved awarded
        in_transit delivered closed :
      LegStatus

abbrev pub leg_rank : LegStatus → ℕ
leg_rank LegStatus.draft = 0
leg_rank LegStatus.ready_for_rfq = 1
leg_rank LegStatus.rfq_sent = 2
leg_rank LegStatus.partially_quoted = 3
leg_rank LegStatus.fully_quoted = 4
leg_rank LegStatus.pending_approval = 5
leg_rank LegStatus.approved = 6
leg_rank LegStatus.awarded = 7
leg_rank LegStatus.in_transit = 8
leg_rank LegStatus.delivered = 9
leg_rank LegStatus.closed = 10

pub leg_status_of : ℕ → Option LegStatus
leg_status_of zero = some LegStatus.draft
leg_status_of (suc zero) = some LegStatus.ready_for_rfq
leg_status_of (suc (suc zero)) = some LegStatus.rfq_sent
leg_status_of (suc (suc (suc zero))) = some LegStatus.partially_quoted
leg_status_of (suc (suc (suc (suc zero)))) = some LegStatus.fully_quoted
leg_status_of (suc (suc (suc (suc (suc zero))))) = some LegStatus.pending_approval
leg_status_of (suc (suc (suc (suc (suc (suc zero)))))) = some LegStatus.approved
leg_status_of (suc (suc (suc (suc (suc (suc (suc zero))))))) = some LegStatus.awarded
leg_status_of (suc (suc (suc (suc (suc (suc (suc (suc zero)))))))) = some LegStatus.in_transit
leg_status_of (suc (suc (suc (suc (suc (suc (suc (suc (suc zero))))))))) = some LegStatus.delivered
leg_status_of (suc (suc (suc (suc (suc (suc (suc (suc (suc (suc zero)))))))))) =
    some LegStatus.closed
leg_status_of (suc (suc (suc (suc (suc (suc (suc (suc (suc (suc (suc n))))))))))) = none

pub leg_status_of-code : (s : LegStatus) → leg_status_of (leg_rank s) ≡ some s
unfolding leg_status_of
leg_status_of-code LegStatus.draft = refl
leg_status_of-code LegStatus.ready_for_rfq = refl
leg_status_of-code LegStatus.rfq_sent = refl
leg_status_of-code LegStatus.partially_quoted = refl
leg_status_of-code LegStatus.fully_quoted = refl
leg_status_of-code LegStatus.pending_approval = refl
leg_status_of-code LegStatus.approved = refl
leg_status_of-code LegStatus.awarded = refl
leg_status_of-code LegStatus.in_transit = refl
leg_status_of-code LegStatus.delivered = refl
leg_status_of-code LegStatus.closed = refl

instance abbrev pub leg_status_eq : Eq LegStatus
leg_status_eq = record {
  same = code_beq leg_rank;
  same_iff = code_beq_iff leg_rank leg_status_of leg_status_of-code;
}

-- LegEvent
pub data LegEvent : Type 0 where
  validate_pass reopen send_rfq quote_partial quote_full send_for_approval approve return_full
        return_partial reopen_award requote_partial requote_outstanding :
      LegEvent

abbrev pub leg_event_code : LegEvent → ℕ
leg_event_code LegEvent.validate_pass = 0
leg_event_code LegEvent.reopen = 1
leg_event_code LegEvent.send_rfq = 2
leg_event_code LegEvent.quote_partial = 3
leg_event_code LegEvent.quote_full = 4
leg_event_code LegEvent.send_for_approval = 5
leg_event_code LegEvent.approve = 6
leg_event_code LegEvent.return_full = 7
leg_event_code LegEvent.return_partial = 8
leg_event_code LegEvent.reopen_award = 9
leg_event_code LegEvent.requote_partial = 10
leg_event_code LegEvent.requote_outstanding = 11

pub leg_event_of : ℕ → Option LegEvent
leg_event_of zero = some LegEvent.validate_pass
leg_event_of (suc zero) = some LegEvent.reopen
leg_event_of (suc (suc zero)) = some LegEvent.send_rfq
leg_event_of (suc (suc (suc zero))) = some LegEvent.quote_partial
leg_event_of (suc (suc (suc (suc zero)))) = some LegEvent.quote_full
leg_event_of (suc (suc (suc (suc (suc zero))))) = some LegEvent.send_for_approval
leg_event_of (suc (suc (suc (suc (suc (suc zero)))))) = some LegEvent.approve
leg_event_of (suc (suc (suc (suc (suc (suc (suc zero))))))) = some LegEvent.return_full
leg_event_of (suc (suc (suc (suc (suc (suc (suc (suc zero)))))))) = some LegEvent.return_partial
leg_event_of (suc (suc (suc (suc (suc (suc (suc (suc (suc zero))))))))) = some LegEvent.reopen_award
leg_event_of (suc (suc (suc (suc (suc (suc (suc (suc (suc (suc zero)))))))))) =
    some LegEvent.requote_partial
leg_event_of (suc (suc (suc (suc (suc (suc (suc (suc (suc (suc (suc zero))))))))))) =
    some LegEvent.requote_outstanding
leg_event_of (suc (suc (suc (suc (suc (suc (suc (suc (suc (suc (suc (suc n)))))))))))) = none

pub leg_event_of-code : (s : LegEvent) → leg_event_of (leg_event_code s) ≡ some s
unfolding leg_event_of
leg_event_of-code LegEvent.validate_pass = refl
leg_event_of-code LegEvent.reopen = refl
leg_event_of-code LegEvent.send_rfq = refl
leg_event_of-code LegEvent.quote_partial = refl
leg_event_of-code LegEvent.quote_full = refl
leg_event_of-code LegEvent.send_for_approval = refl
leg_event_of-code LegEvent.approve = refl
leg_event_of-code LegEvent.return_full = refl
leg_event_of-code LegEvent.return_partial = refl
leg_event_of-code LegEvent.reopen_award = refl
leg_event_of-code LegEvent.requote_partial = refl
leg_event_of-code LegEvent.requote_outstanding = refl

instance abbrev pub leg_event_eq : Eq LegEvent
leg_event_eq = record {
  same = code_beq leg_event_code;
  same_iff = code_beq_iff leg_event_code leg_event_of leg_event_of-code;
}

-- QuoteStatus
pub data QuoteStatus : Type 0 where
  select rfq_sent quoted expired invalid requoted pending_approval closed approved : QuoteStatus

abbrev pub quote_status_code : QuoteStatus → ℕ
quote_status_code QuoteStatus.select = 0
quote_status_code QuoteStatus.rfq_sent = 1
quote_status_code QuoteStatus.quoted = 2
quote_status_code QuoteStatus.expired = 3
quote_status_code QuoteStatus.invalid = 4
quote_status_code QuoteStatus.requoted = 5
quote_status_code QuoteStatus.pending_approval = 6
quote_status_code QuoteStatus.closed = 7
quote_status_code QuoteStatus.approved = 8

pub quote_status_of : ℕ → Option QuoteStatus
quote_status_of zero = some QuoteStatus.select
quote_status_of (suc zero) = some QuoteStatus.rfq_sent
quote_status_of (suc (suc zero)) = some QuoteStatus.quoted
quote_status_of (suc (suc (suc zero))) = some QuoteStatus.expired
quote_status_of (suc (suc (suc (suc zero)))) = some QuoteStatus.invalid
quote_status_of (suc (suc (suc (suc (suc zero))))) = some QuoteStatus.requoted
quote_status_of (suc (suc (suc (suc (suc (suc zero)))))) = some QuoteStatus.pending_approval
quote_status_of (suc (suc (suc (suc (suc (suc (suc zero))))))) = some QuoteStatus.closed
quote_status_of (suc (suc (suc (suc (suc (suc (suc (suc zero)))))))) = some QuoteStatus.approved
quote_status_of (suc (suc (suc (suc (suc (suc (suc (suc (suc n))))))))) = none

pub quote_status_of-code : (s : QuoteStatus) → quote_status_of (quote_status_code s) ≡ some s
unfolding quote_status_of
quote_status_of-code QuoteStatus.select = refl
quote_status_of-code QuoteStatus.rfq_sent = refl
quote_status_of-code QuoteStatus.quoted = refl
quote_status_of-code QuoteStatus.expired = refl
quote_status_of-code QuoteStatus.invalid = refl
quote_status_of-code QuoteStatus.requoted = refl
quote_status_of-code QuoteStatus.pending_approval = refl
quote_status_of-code QuoteStatus.closed = refl
quote_status_of-code QuoteStatus.approved = refl

instance abbrev pub quote_status_eq : Eq QuoteStatus
quote_status_eq = record {
  same = code_beq quote_status_code;
  same_iff = code_beq_iff quote_status_code quote_status_of quote_status_of-code;
}

-- QuoteEvent
pub data QuoteEvent : Type 0 where
  send submit expire invalidate send_for_approval approve return unapprove return_expired
        request_requote :
      QuoteEvent

abbrev pub quote_event_code : QuoteEvent → ℕ
quote_event_code QuoteEvent.send = 0
quote_event_code QuoteEvent.submit = 1
quote_event_code QuoteEvent.expire = 2
quote_event_code QuoteEvent.invalidate = 3
quote_event_code QuoteEvent.send_for_approval = 4
quote_event_code QuoteEvent.approve = 5
quote_event_code QuoteEvent.return = 6
quote_event_code QuoteEvent.unapprove = 7
quote_event_code QuoteEvent.return_expired = 8
quote_event_code QuoteEvent.request_requote = 9

pub quote_event_of : ℕ → Option QuoteEvent
quote_event_of zero = some QuoteEvent.send
quote_event_of (suc zero) = some QuoteEvent.submit
quote_event_of (suc (suc zero)) = some QuoteEvent.expire
quote_event_of (suc (suc (suc zero))) = some QuoteEvent.invalidate
quote_event_of (suc (suc (suc (suc zero)))) = some QuoteEvent.send_for_approval
quote_event_of (suc (suc (suc (suc (suc zero))))) = some QuoteEvent.approve
quote_event_of (suc (suc (suc (suc (suc (suc zero)))))) = some QuoteEvent.return
quote_event_of (suc (suc (suc (suc (suc (suc (suc zero))))))) = some QuoteEvent.unapprove
quote_event_of (suc (suc (suc (suc (suc (suc (suc (suc zero)))))))) = some QuoteEvent.return_expired
quote_event_of (suc (suc (suc (suc (suc (suc (suc (suc (suc zero))))))))) =
    some QuoteEvent.request_requote
quote_event_of (suc (suc (suc (suc (suc (suc (suc (suc (suc (suc n)))))))))) = none

pub quote_event_of-code : (s : QuoteEvent) → quote_event_of (quote_event_code s) ≡ some s
unfolding quote_event_of
quote_event_of-code QuoteEvent.send = refl
quote_event_of-code QuoteEvent.submit = refl
quote_event_of-code QuoteEvent.expire = refl
quote_event_of-code QuoteEvent.invalidate = refl
quote_event_of-code QuoteEvent.send_for_approval = refl
quote_event_of-code QuoteEvent.approve = refl
quote_event_of-code QuoteEvent.return = refl
quote_event_of-code QuoteEvent.unapprove = refl
quote_event_of-code QuoteEvent.return_expired = refl
quote_event_of-code QuoteEvent.request_requote = refl

instance abbrev pub quote_event_eq : Eq QuoteEvent
quote_event_eq = record {
  same = code_beq quote_event_code;
  same_iff = code_beq_iff quote_event_code quote_event_of quote_event_of-code;
}

-- QueryStatus, which is derived and never set by hand
pub data QueryStatus : Type 0 where
  draft created rfq_ready rfq_sent quoted quoting_client no_response awaiting_client_decision won
        lost closed :
      QueryStatus
