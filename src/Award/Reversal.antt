-- ===== src/Award/Reversal.antt =====
-- What takes a decision back from outside its own workflow: `requestRequote` of
-- apps/api/src/modules/award/negotiation.service.ts, and `onLegReopened` of
-- apps/api/src/modules/award/award-change-order.listener.ts.
mod Tests
pub mod Waits
pub mod Requote
pub mod Voids
use logistics.Common.{
  Bool, true, false, ◌&&◌, not, Option, none, some, List, [], ◌∷◌, String, ◌==◌, string_eq,
  includes, is_some, if◌then◌else◌,
}
use logistics.Common.Dict
use logistics.Status.Vocabulary.{
  LegStatus, LegEvent, QuoteStatus, QuoteEvent, leg_status_eq, quote_status_eq,
}
use logistics.Changes.Store.{LegRow, QuoteRow, Db}
use logistics.Changes.Scope.{unique}
use logistics.Changes.Fire.{Run, done, thrown, ◌>>=◌, fire_leg, fire_quote, project_leg}
use logistics.Award.{
  LegAwardDecision, draft, pending_approval, approved, AwardDecisionEvent, AwardDb, AwardFault,
  query_locked, is_locked, quote_not_found, decision_pending, decision_approved, not_requotable,
  no_rfq,
}

-- REQUOTABLE_STATUSES
abbrev pub requotable_statuses : List QuoteStatus
requotable_statuses = QuoteStatus.quoted ∷ QuoteStatus.approved ∷ QuoteStatus.expired ∷ []

-- the clean slate that both leave of a decision
abbrev pub reset : LegAwardDecision → LegAwardDecision
reset d = record d {
  status = draft;
  shortlisted_quote_id = none;
  shortlisted_variant = none;
  sent_by_user_id = none;
  decided_by_user_id = none;
  rejection_reason = none;
}

-- The request is refused with nothing written, or its writes run.
pub data Requoting (M : Type 0) : Type 0 where
  not_asked : AwardFault → Requoting M
  asked : Run (AwardDb M) → Requoting M

-- the status of the decision that stands in the way
abbrev pub in_the_way : Option LegAwardDecision → Option AwardFault
in_the_way none = none
in_the_way (some d) = elim d.status [
  | pending_approval ↦ some decision_pending
  | approved ↦ some decision_approved
  | _ ↦ none
]

module _ {M : Type 0} where
  -- the quote by its id, the query and the leg
  abbrev pub own_quote : String → String → Option (QuoteRow M) → Option (QuoteRow M)
  own_quote query_id leg_id none = none
  own_quote query_id leg_id (some q) =
      if q.query_id == query_id && q.leg_id == leg_id then some q else none

  -- LegQuoteProjector.recomputeAfterRequote: what it throws is logged and dropped.
  abbrev pub recompute_after_requote : String → Db M → Run (Db M)
  recompute_after_requote leg_id db = done (project_leg true leg_id db)

  abbrev pub reopen_award : Bool → String → Db M → Run (Db M)
  reopen_award false leg_id db = done db
  reopen_award true leg_id db =
      fire_leg leg_id LegEvent.reopen_award db >>= recompute_after_requote leg_id

  abbrev pub clear_snapshot : String → AwardDb M → AwardDb M
  clear_snapshot query_id db =
      if is_locked query_id db
      then record db { snapshots = Dict.delete query_id db.snapshots }
      else db

  -- the write on a decision, if there is one
  abbrev pub reset_decision : String → AwardDb M → AwardDb M
  reset_decision leg_id db = elim (Dict.get leg_id db.decisions) [
    | none ↦ db
    | some d ↦ record db { decisions = Dict.set leg_id (reset d) db.decisions }
  ]

  abbrev pub log_event : AwardDecisionEvent → AwardDb M → AwardDb M
  log_event e db = record db { events = e ∷ db.events }

  -- the transaction of a re-quote
  abbrev pub requote_transaction :
      String → String → String → String → String → AwardDb M → AwardDb M
  requote_transaction query_id leg_id quote_id comment user db = clear_snapshot query_id (
      log_event
        (record {
          leg_id = leg_id;
          type_ = "REQUEST_REQUOTE";
          quote_id = some quote_id;
          reason = some comment;
          actor_id = some user;
        })
        (reset_decision leg_id db))

  abbrev pub and_then : Run (Db M) → (Db M → AwardDb M) → AwardDb M → Run (AwardDb M)
  and_then (done rows) f db = done (f rows)
  and_then (thrown e rows) f db = thrown e (record db { rows = rows })

  abbrev pub ask : String → String → String → String → String → Bool → AwardDb M → Run (AwardDb M)
  ask query_id leg_id quote_id comment user was_approved db =
      and_then
        (fire_quote quote_id QuoteEvent.request_requote db.rows
          >>= reopen_award was_approved leg_id)
        (λ rows.
          requote_transaction query_id leg_id quote_id comment user (record db { rows = rows }))
        db

  abbrev pub leg_approved : Option (LegRow M) → Bool
  leg_approved none = false
  leg_approved (some l) = l.status == LegStatus.approved

  abbrev pub request_of_quote :
      String → String → String → String → String → QuoteRow M → AwardDb M → Requoting M
  request_of_quote query_id leg_id quote_id comment user q db =
      elim (in_the_way (Dict.get leg_id db.decisions)) [
        | some f ↦ not_asked f
        | none ↦
            if not (includes requotable_statuses q.status)
            then not_asked not_requotable
            else if not (is_some q.rfq_id)
            then not_asked no_rfq
            else asked (
                ask query_id leg_id quote_id comment user
                  (leg_approved (Dict.get leg_id db.rows.legs)) db)
      ]

  unfoldable pub request_requote :
      String → String → String → String → String → AwardDb M → Requoting M
  request_requote query_id leg_id quote_id comment user db =
      if is_locked query_id db
      then not_asked query_locked
      else elim (own_quote query_id leg_id (Dict.get quote_id db.rows.quotes)) [
        | none ↦ not_asked quote_not_found
        | some q ↦ request_of_quote query_id leg_id quote_id comment user q db
      ]

  abbrev pub void : String → String → String → AwardDb M → AwardDb M
  void query_id reason leg_id db = elim (Dict.get leg_id db.decisions) [
    | none ↦ db
    | some d ↦
        log_event
          (record {
            leg_id = leg_id;
            type_ = "REOPEN";
            quote_id = none;
            reason = some reason;
            actor_id = none;
          })
          (record db { decisions = Dict.set leg_id (reset d) db.decisions })
  ]

  unfoldable pub void_all : String → String → List String → AwardDb M → AwardDb M
  void_all query_id reason [] db = db
  void_all query_id reason (leg_id ∷ leg_ids) db =
      void_all query_id reason leg_ids (void query_id reason leg_id db)

  -- the legs that the event names for each forwarder, each once
  unfoldable pub on_leg_reopened : String → String → List String → AwardDb M → AwardDb M
  unfolding void_all
  on_leg_reopened query_id reason leg_ids db =
      clear_snapshot query_id (void_all query_id reason (unique leg_ids) db)
