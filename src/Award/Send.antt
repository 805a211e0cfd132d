-- ===== src/Award/Send.antt =====
-- apps/api/src/modules/award/award.service.ts: `sendForApproval`, the maker's half of the award
-- workflow. What it reads of the comparison, the deadlines of the RFQs and the time are arguments.
mod Tests
pub mod Guards
pub mod Sendable
pub mod Handover
pub mod Stuck
use logistics.Common.{
  ℕ, Bool, true, false, ◌&&◌, ◌||◌, not, Option, none, some, List, [], ◌∷◌, map, String, ◌==◌,
  string_eq, find?, filter, all, includes, is_nil, is_some, if◌then◌else◌, leb,
}
use logistics.Common.Dict
use logistics.Status.Vocabulary.{
  LegStatus, LegEvent, QuoteStatus, QuoteEvent, leg_status_eq, quote_status_eq,
}
use logistics.Changes.Store.{LegRow, Db}
use logistics.Changes.Fire.{Run, done, thrown, ◌>>=◌, fire_leg, fire_quote}
use logistics.Award.{
  LegAwardDecision, draft, pending_approval, approved, AwardDb, AwardFault, query_locked,
  leg_not_found, not_an_offer, not_sendable, already_sent, requote_in_flight, not_fully_quoted,
  override_reason_required, Checked, fault, passed, is_locked, lock_row,
}

pub record SendForApprovalInput : Type 0 where
  pub quote_id : String
  pub variant : Option String
  pub override_reason : Option String
  pub proceed_without_waiting : Bool
  pub proceed_reason : Option String

pub record Offer : Type 0 where
  pub quote_id : String
  pub variant : Option String
  pub priced : Bool

pub record Recommendation : Type 0 where
  pub quote_id : String
  pub variant : Option String

-- a leg of the comparison
pub record ComparisonLeg : Type 0 where
  pub leg_id : String
  pub offers : List Offer
  pub recommendation : Option Recommendation

-- `===` on texts that may be null
abbrev pub same_text : Option String → Option String → Bool
same_text none none = true
same_text none (some b) = false
same_text (some a) none = false
same_text (some a) (some b) = a == b

-- `!!text`
abbrev pub is_text : Option String → Bool
is_text none = false
is_text (some s) = not (s == "")

abbrev pub outstanding_quote_statuses : List QuoteStatus
outstanding_quote_statuses = QuoteStatus.rfq_sent ∷ QuoteStatus.requoted ∷ QuoteStatus.invalid ∷ []

abbrev pub sendable_statuses : List QuoteStatus
sendable_statuses = QuoteStatus.quoted ∷ QuoteStatus.expired ∷ []

abbrev pub a3_send_permission_deadline : String
a3_send_permission_deadline = "All outstanding RFQ windows had closed at send time"

-- the id and the status of a quote of the leg
abbrev pub LegQuote : Type 0
LegQuote = String × QuoteStatus

-- the offer that the request names, and the leg's recommendation
abbrev pub named_offer :
    SendForApprovalInput → Option ComparisonLeg → Checked (Option Recommendation)
named_offer input none = fault leg_not_found
named_offer input (some leg) =
    if is_some (
      find? (λ o. o.quote_id == input.quote_id && same_text o.variant input.variant && o.priced)
        leg.offers)
    then passed leg.recommendation
    else fault not_an_offer

abbrev pub is_sendable : Option LegQuote → Bool
is_sendable none = false
is_sendable (some q) = includes sendable_statuses q.1

abbrev pub is_past_draft : Option LegAwardDecision → Bool
is_past_draft none = false
is_past_draft (some d) = elim d.status [ pending_approval ↦ true | approved ↦ true | _ ↦ false ]

abbrev pub in_flight_requotes : List LegQuote → List LegQuote
in_flight_requotes quotes = filter (λ q. q.1 == QuoteStatus.requoted) quotes

-- the send proceeds, with a reason, past the re-quotes that are in flight
abbrev pub proceed_override : SendForApprovalInput → List LegQuote → Bool
proceed_override input quotes =
    not (is_nil (in_flight_requotes quotes))
    && input.proceed_without_waiting
    && is_text input.proceed_reason

abbrev pub still_waited_on : Bool → List LegQuote → List LegQuote
still_waited_on override quotes =
    let outstanding = filter (λ q. includes outstanding_quote_statuses q.1) quotes in
    if override then filter (λ q. not (q.1 == QuoteStatus.requoted)) outstanding else outstanding

-- the window of the quote's RFQ has closed; a quote with no RFQ has none
abbrev pub is_closed : ℕ → Option ℕ → Bool
is_closed now none = false
is_closed now (some deadline) = leb deadline now

module _ (now : ℕ) (deadline : String → Option ℕ) where
  abbrev pub deadline_passed : List LegQuote → Bool
  deadline_passed waited = not (is_nil waited) && all (λ q. is_closed now (deadline q.0)) waited

  -- A3: the leg is fully quoted, or there is nothing to wait for
  abbrev pub may_send : LegStatus → Bool → List LegQuote → Bool
  may_send status override quotes =
      let waited = still_waited_on override quotes in
      status == LegStatus.fully_quoted || deadline_passed waited || (override && is_nil waited)

-- persistSelection
abbrev pub selection_on :
    SendForApprovalInput → Option Recommendation → LegAwardDecision → LegAwardDecision
selection_on input rec d = record d {
  shortlisted_quote_id = some input.quote_id;
  shortlisted_variant = input.variant;
  recommended_quote_id = elim rec [ none ↦ none | some r ↦ some r.quote_id ];
  recommended_variant = elim rec [ none ↦ none | some r ↦ r.variant ];
  override_reason = input.override_reason;
  status = draft;
}

abbrev pub blank_decision : LegAwardDecision
blank_decision = record {
  status = draft;
  shortlisted_quote_id = none;
  shortlisted_variant = none;
  recommended_quote_id = none;
  recommended_variant = none;
  override_reason = none;
  sent_by_user_id = none;
  decided_by_user_id = none;
  rejection_reason = none;
}

abbrev pub persist_selection :
    SendForApprovalInput → Option Recommendation → Option LegAwardDecision → LegAwardDecision
persist_selection input rec none = selection_on input rec blank_decision
persist_selection input rec (some d) = selection_on input rec d

abbrev pub matches_recommendation : LegAwardDecision → Bool
matches_recommendation d =
    same_text d.shortlisted_quote_id d.recommended_quote_id
    && same_text d.shortlisted_variant d.recommended_variant

-- `a ?? b`
abbrev pub or_text : Option String → Option String → Option String
or_text none b = b
or_text (some a) b = some a

-- which arm of A3 lets the send through
abbrev pub send_permission : SendForApprovalInput → LegStatus → Bool → Option String
send_permission input status override =
    if status == LegStatus.fully_quoted
    then none
    else if override && is_text input.proceed_reason
    then input.proceed_reason
    else some a3_send_permission_deadline

-- The request is refused and nothing is send_write; or the decision is committed and returned, and the
-- two status events run on the rows that it left.
pub data Sending (M : Type 0) : Type 0 where
  not_sent : AwardFault → Sending M
  sent : LegAwardDecision → Run (AwardDb M) → Sending M

module _ {M : Type 0} where
  abbrev pub leg_quotes : String → AwardDb M → List LegQuote
  leg_quotes leg_id db =
      map (λ e. (e.0, e.1.status))
        (filter (λ e. e.1.leg_id == leg_id && not (e.1.status == QuoteStatus.select))
          db.rows.quotes.entries)

  abbrev pub with_rows : AwardDb M → Run (Db M) → AwardDb M → Run (AwardDb M)
  with_rows logged (done rows) db = done (record logged { rows = rows })
  with_rows logged (thrown e rows) db = thrown e (record db { rows = rows })

  abbrev pub log_quote_send : String → AwardDb M → AwardDb M
  log_quote_send quote_id db = elim (Dict.get quote_id db.rows.quotes) [
    | none ↦ db
    | some q ↦ record db {
      quote_sends = record { quote_id = quote_id; from = q.status } ∷ db.quote_sends;
    }
  ]

  abbrev pub log_leg_send : String → Option String → AwardDb M → AwardDb M
  log_leg_send leg_id reason db = elim (Dict.get leg_id db.rows.legs) [
    | none ↦ db
    | some l ↦ record db {
      leg_sends = record { leg_id = leg_id; from = l.status; reason = reason } ∷ db.leg_sends;
    }
  ]

  -- the two `status.fire` calls, each with the row that it puts on the transition log
  unfoldable pub fire_quote_send : String → AwardDb M → Run (AwardDb M)
  fire_quote_send quote_id db =
      with_rows (log_quote_send quote_id db)
        (fire_quote quote_id QuoteEvent.send_for_approval db.rows) db

  unfoldable pub fire_leg_send : String → Option String → AwardDb M → Run (AwardDb M)
  fire_leg_send leg_id reason db =
      with_rows (log_leg_send leg_id reason db) (fire_leg leg_id LegEvent.send_for_approval db.rows)
        db

  abbrev pub send_write :
      String → String → SendForApprovalInput → LegAwardDecision → AwardDb M → AwardDb M
  send_write leg_id user input d db = record db {
    decisions = Dict.set leg_id d db.decisions;
    events =
        record {
          leg_id = leg_id;
          type_ = "SEND_FOR_APPROVAL";
          quote_id = some input.quote_id;
          reason = or_text input.proceed_reason d.override_reason;
          actor_id = some user;
        }
        ∷ db.events;
  }

  abbrev pub send_selected :
      String
      → String
      → SendForApprovalInput
      → LegStatus
      → Bool
      → LegAwardDecision
      → AwardDb M
      → Sending M
  send_selected leg_id user input status override d db =
      if not (matches_recommendation d) && not (is_text d.override_reason)
      then not_sent override_reason_required
      else let d' = record d { status = pending_approval; sent_by_user_id = some user } in
        sent d' (
          fire_quote_send input.quote_id (send_write leg_id user input d' db)
          >>= fire_leg_send leg_id (send_permission input status override))

  -- the transaction, once the leg is locked
  unfoldable pub send_locked :
      ℕ
      → (String → Option ℕ)
      → String
      → String
      → SendForApprovalInput
      → Option Recommendation
      → LegRow M
      → AwardDb M
      → Sending M
  send_locked now deadline leg_id user input rec row db =
      let quotes = leg_quotes leg_id db in
      let override = proceed_override input quotes in
      let existing = Dict.get leg_id db.decisions in
      if not (is_sendable (find? (λ q. q.0 == input.quote_id) quotes))
      then not_sent not_sendable
      else if is_past_draft existing
      then not_sent already_sent
      else if not (is_nil (in_flight_requotes quotes)) && not override
      then not_sent requote_in_flight
      else if not (may_send now deadline row.status override quotes)
      then not_sent not_fully_quoted
      else send_selected leg_id user input row.status override
          (persist_selection input rec existing) db

  unfoldable pub send_for_approval :
      ℕ
      → (String → Option ℕ)
      → List ComparisonLeg
      → String
      → String
      → SendForApprovalInput
      → String
      → AwardDb M
      → Sending M
  send_for_approval now deadline comparison query_id leg_id input user db =
      if is_locked query_id db
      then not_sent query_locked
      else elim (named_offer input (find? (λ l. l.leg_id == leg_id) comparison)) [
        | fault f ↦ not_sent f
        | passed rec ↦ elim (lock_row query_id leg_id db) [
          | fault f ↦ not_sent f
          | passed row ↦ send_locked now deadline leg_id user input rec row db
        ]
      ]
