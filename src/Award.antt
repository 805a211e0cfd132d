-- ===== src/Award.antt =====
-- apps/api/src/modules/award/award.service.ts: the checker's half of the award workflow. A leg's
-- decision is approved by someone else than its sender, or rejected, in one transaction each; the
-- status events of the quote and of the leg follow the commit. The maker's half is in Award/Send.
pub mod Send
pub mod Reversal
pub mod Reopen
pub mod Quoted
pub mod Approve
pub mod Reject
mod Tests
use mathlib.Core.Option
use logistics.Common.{
  Bool, true, false, ◌&&◌, ◌||◌, not, Option, none, some, List, [], ◌∷◌, String, ◌==◌, string_eq,
  find?, includes, if◌then◌else◌, is_some,
}
use logistics.Common.Dict
use logistics.Common.Dict.{Dict}
use logistics.Status.Vocabulary.{
  LegStatus, LegEvent, QuoteStatus, QuoteEvent, leg_status_eq, quote_status_eq,
}
use logistics.Status.Rollup.{rollup_leg_target}
use logistics.Changes.Store.{LegRow, QuoteRow, Db}
use logistics.Changes.Scope.{is_uuid}
use logistics.Changes.Fire.{Run, done, ◌>>=◌, quotes_of_leg, fire_leg, fire_quote}

pub data AwardDecisionStatus : Type 0 where
  draft pending_approval approved rejected : AwardDecisionStatus

pub record LegAwardDecision : Type 0 where
  pub status : AwardDecisionStatus
  pub shortlisted_quote_id : Option String
  pub shortlisted_variant : Option String
  pub recommended_quote_id : Option String
  pub recommended_variant : Option String
  pub override_reason : Option String
  pub sent_by_user_id : Option String
  pub decided_by_user_id : Option String
  pub rejection_reason : Option String

-- the rows of the transition log that a send for approval has left, the latest first
pub record LegSend : Type 0 where
  pub leg_id : String
  pub from : LegStatus
  pub reason : Option String

pub record QuoteSend : Type 0 where
  pub quote_id : String
  pub from : QuoteStatus

pub record AwardDecisionEvent : Type 0 where
  pub leg_id : String
  pub type_ : String
  pub quote_id : Option String
  pub reason : Option String
  pub actor_id : Option String

-- `snapshots` holds the queries whose award is frozen, which locks them.
pub record AwardDb (M : Type 0) : Type 0 where
  pub rows : Db M
  pub snapshots : Dict String
  pub decisions : Dict LegAwardDecision
  pub leg_sends : List LegSend
  pub quote_sends : List QuoteSend
  pub events : List AwardDecisionEvent

pub data AwardFault : Type 0 where
  query_locked invalid_identifier leg_not_found no_decision not_pending_approval self_approval
        nothing_to_reject not_fully_quoted no_shortlisted_offer quote_unavailable not_an_offer
        not_sendable already_sent requote_in_flight override_reason_required quote_not_found
        decision_pending decision_approved not_requotable no_rfq :
      AwardFault

-- A request is refused and nothing is written, or it is committed: then the decision's rows stand as
-- they are and the status events run on the others.
pub data Award (M : Type 0) : Type 0 where
  refused : AwardFault → Award M
  committed : AwardDb M → Run (Db M) → Award M

pub data Checked (A : Type 0) : Type 0 where
  fault : AwardFault → Checked A
  passed : A → Checked A

abbrev pub sent_by : Option String → String → Bool
sent_by none user = false
sent_by (some u) user = u == user

-- requireDecidable, of a decision that was read
abbrev pub require_decidable : Option LegAwardDecision → String → Checked LegAwardDecision
require_decidable none user = fault no_decision
require_decidable (some d) user = elim d.status [
  | pending_approval ↦ if sent_by d.sent_by_user_id user then fault self_approval else passed d
  | _ ↦ fault not_pending_approval
]

-- requireRejectable
abbrev pub require_rejectable : Option LegAwardDecision → String → Checked LegAwardDecision
require_rejectable none user = fault no_decision
require_rejectable (some d) user = elim d.status [
  | pending_approval ↦ if sent_by d.sent_by_user_id user then fault self_approval else passed d
  | approved ↦ passed d
  | _ ↦ fault nothing_to_reject
]

-- LEG_REVERSIBLE_FROM and QUOTE_REVERSIBLE_FROM
abbrev pub leg_reversible_from : List LegStatus
leg_reversible_from = LegStatus.pending_approval ∷ LegStatus.approved ∷ []

abbrev pub quote_reversible_from : List QuoteStatus
quote_reversible_from = QuoteStatus.pending_approval ∷ QuoteStatus.approved ∷ []

abbrev pub is_from_fully_quoted : Option LegSend → Bool
is_from_fully_quoted none = false
is_from_fully_quoted (some s) = s.from == LegStatus.fully_quoted

abbrev pub permission_of : Option LegSend → Option String
permission_of none = none
permission_of (some s) = s.reason

abbrev pub is_full_target : Option LegStatus → Bool
is_full_target none = false
is_full_target (some t) = t == LegStatus.fully_quoted

module _ {M : Type 0} where
  -- the row, if it is one of the query's
  abbrev pub own_leg : String → Option (LegRow M) → Checked (LegRow M)
  own_leg query_id none = fault leg_not_found
  own_leg query_id (some row) = if row.query_id == query_id then passed row else fault leg_not_found

  -- QueryLockService.assertUnlocked
  abbrev pub is_locked : String → AwardDb M → Bool
  is_locked query_id db = is_some (Dict.get query_id db.snapshots)

  -- lockLeg: the row that is locked, or the error
  abbrev pub lock_row : String → String → AwardDb M → Checked (LegRow M)
  lock_row query_id leg_id db =
      if not (is_uuid leg_id) || not (is_uuid query_id)
      then fault invalid_identifier
      else own_leg query_id (Dict.get leg_id db.rows.legs)

  -- how approve and reject begin: assertUnlocked, then lockLeg
  unfoldable pub lock_leg : String → String → AwardDb M → Checked (LegRow M)
  lock_leg query_id leg_id db =
      if is_locked query_id db then fault query_locked else lock_row query_id leg_id db

  -- latestSendForApproval
  abbrev pub latest_send : String → AwardDb M → Option LegSend
  latest_send leg_id db = find? (λ s. s.leg_id == leg_id) db.leg_sends

  -- isFullyQuotedForDecision
  unfoldable pub is_fully_quoted_for_decision : String → AwardDb M → Bool
  is_fully_quoted_for_decision leg_id db =
      is_from_fully_quoted (latest_send leg_id db)
      || is_full_target (rollup_leg_target (quotes_of_leg leg_id db.rows))

  -- wasExpiredWhenSentForApproval
  abbrev pub was_expired_when_sent : String → AwardDb M → Bool
  was_expired_when_sent quote_id db = elim (find? (λ s. s.quote_id == quote_id) db.quote_sends) [
    | none ↦ false
    | some s ↦ s.from == QuoteStatus.expired
  ]

  abbrev pub decide : String → LegAwardDecision → AwardDecisionEvent → AwardDb M → AwardDb M
  decide leg_id d event db = record db {
    decisions = Dict.set leg_id d db.decisions;
    events = event ∷ db.events;
  }

  abbrev pub is_pending : Option (QuoteRow M) → Bool
  is_pending none = false
  is_pending (some q) = q.status == QuoteStatus.pending_approval

  abbrev pub approval : String → String → String → LegAwardDecision → AwardDb M → AwardDb M
  approval leg_id quote_id user d db =
      decide leg_id (record d { status = approved; decided_by_user_id = some user })
        (record {
          leg_id = leg_id;
          type_ = "APPROVE";
          quote_id = some quote_id;
          reason = none;
          actor_id = some user;
        })
        db

  -- the guards on the leg's quotes, the send's permission and the shortlisted quote
  abbrev pub approve_decidable : String → String → LegAwardDecision → AwardDb M → Award M
  approve_decidable leg_id user d db =
      if not (is_fully_quoted_for_decision leg_id db)
        && not (is_some (permission_of (latest_send leg_id db)))
      then refused not_fully_quoted
      else elim d.shortlisted_quote_id [
        | none ↦ refused no_shortlisted_offer
        | some quote_id ↦
            if is_pending (Dict.get quote_id db.rows.quotes)
            then committed (approval leg_id quote_id user d db) (
                fire_quote quote_id QuoteEvent.approve db.rows >>= fire_leg leg_id LegEvent.approve)
            else refused quote_unavailable
      ]

  unfoldable pub approve : String → String → String → AwardDb M → Award M
  approve query_id leg_id user db = elim (lock_leg query_id leg_id db) [
    | fault f ↦ refused f
    | passed row ↦ elim (require_decidable (Dict.get leg_id db.decisions) user) [
      | fault f ↦ refused f
      | passed d ↦ approve_decidable leg_id user d db
    ]
  ]

  -- the event that takes the shortlisted quote back, where it is under review or approved
  abbrev pub return_event : String → QuoteStatus → AwardDb M → Option QuoteEvent
  return_event quote_id status db =
      if not (includes quote_reversible_from status)
      then none
      else if was_expired_when_sent quote_id db
      then some QuoteEvent.return_expired
      else if status == QuoteStatus.approved
      then some QuoteEvent.unapprove
      else some QuoteEvent.return

  -- the quote and the event that is fired on it, if any
  abbrev pub quote_return : Option String → AwardDb M → Option (String × QuoteEvent)
  quote_return none db = none
  quote_return (some quote_id) db = elim (Dict.get quote_id db.rows.quotes) [
    | none ↦ none
    | some q ↦ Option.map (λ e. (quote_id, e)) (return_event quote_id q.status db)
  ]

  abbrev pub rejection : String → String → String → LegAwardDecision → AwardDb M → AwardDb M
  rejection leg_id reason user d db =
      decide leg_id
        (record d {
          status = draft;
          sent_by_user_id = none;
          rejection_reason = some reason;
          decided_by_user_id = some user;
        })
        (record {
          leg_id = leg_id;
          type_ = "REJECT";
          quote_id = none;
          reason = some reason;
          actor_id = some user;
        })
        db

  abbrev pub fire_return : Option (String × QuoteEvent) → Db M → Run (Db M)
  fire_return none rows = done rows
  fire_return (some (quote_id, event)) rows = fire_quote quote_id event rows

  abbrev pub fire_leg_return : Bool → Bool → String → Db M → Run (Db M)
  fire_leg_return false full leg_id rows = done rows
  fire_leg_return true full leg_id rows =
      fire_leg leg_id (if full then LegEvent.return_full else LegEvent.return_partial) rows

  unfoldable pub reject : String → String → String → String → AwardDb M → Award M
  reject query_id leg_id reason user db = elim (lock_leg query_id leg_id db) [
    | fault f ↦ refused f
    | passed row ↦ elim (require_rejectable (Dict.get leg_id db.decisions) user) [
      | fault f ↦ refused f
      | passed d ↦ committed (rejection leg_id reason user d db) (
          fire_return (quote_return d.shortlisted_quote_id db) db.rows
          >>= fire_leg_return (includes leg_reversible_from row.status)
              (is_fully_quoted_for_decision leg_id db) leg_id)
    ]
  ]
