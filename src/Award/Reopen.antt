-- ===== src/Award/Reopen.antt =====
-- apps/api/src/modules/award/award.service.ts, `reopenComparison`, with the projector's `recompute` that ends
-- its transaction: what was quoted to the client is taken back, and the approvals of the legs stay.
pub mod Reopened
mod Tests
use logistics.Common.{
  ℕ, Bool, true, false, ◌&&◌, ◌||◌, not, Option, none, some, List, [], ◌∷◌, map, String, ◌==◌,
  string_eq, length, filter, is_some, if◌then◌else◌,
}
use logistics.Common.Dict
use logistics.Common.Dict.{Dict}
use logistics.Status.Vocabulary.{QueryStatus, LegStatus, QuoteStatus}
use logistics.Status.Query.{QueryView}
use logistics.Status.Query
use logistics.Changes.Store.{LegRow, QuoteRow, Db}
use logistics.Award.{AwardDb, AwardDecisionEvent, is_locked}

pub data QuotationStatus : Type 0 where
  draft issued superseded : QuotationStatus

pub record QuotationRow : Type 0 where
  pub id : String
  pub query_id : String
  pub status : QuotationStatus

pub record QueryRow : Type 0 where
  pub rfq_ready_at : Option String
  pub status : QueryStatus

-- the rows of the award workflow, with the queries and their quotations to the client
pub record ComparisonDb (M : Type 0) : Type 0 where
  pub award : AwardDb M
  pub queries : Dict QueryRow
  pub quotations : List QuotationRow

pub data ReopenFault : Type 0 where
  query_not_found not_quoted : ReopenFault

pub data Reopening (M : Type 0) : Type 0 where
  refused : ReopenFault → Reopening M
  reopened : ComparisonDb M → Reopening M

abbrev pub is_issued : QuotationStatus → Bool
is_issued issued = true
is_issued _ = false

abbrev pub is_draft : QuotationStatus → Bool
is_draft draft = true
is_draft _ = false

-- the two writes on the quotations of the query
abbrev pub supersede : String → QuotationRow → QuotationRow
supersede query_id q =
    if q.query_id == query_id && is_issued q.status then record q { status = superseded } else q

abbrev pub take_back : String → List QuotationRow → List QuotationRow
take_back query_id qs =
    filter (λ q. not (q.query_id == query_id && is_draft q.status)) (map (supersede query_id) qs)

abbrev pub reopen_event : String → String → String → AwardDecisionEvent
reopen_event reason user leg_id = record {
  leg_id = leg_id;
  type_ = "REOPEN";
  quote_id = none;
  reason = some reason;
  actor_id = some user;
}

module _ {M : Type 0} where
  abbrev pub query_legs : String → AwardDb M → List String
  query_legs query_id db =
      map (λ e. e.0) (filter (λ e. e.1.query_id == query_id) db.rows.legs.entries)

  unfoldable pub log_reopens : String → String → List String → AwardDb M → AwardDb M
  log_reopens reason user [] db = db
  log_reopens reason user (leg_id ∷ leg_ids) db =
      log_reopens reason user leg_ids
        (record db { events = reopen_event reason user leg_id ∷ db.events })

  -- what `recompute` reads
  abbrev pub view_of : String → QueryRow → ComparisonDb M → QueryView
  view_of query_id row db = record {
    rfq_ready_at = row.rfq_ready_at;
    award_snapshot = Dict.get query_id db.award.snapshots;
    leg_statuses =
        map (λ e. e.1.status) (filter (λ e. e.1.query_id == query_id) db.award.rows.legs.entries);
    quote_statuses =
        map (λ e. e.1.status) (filter (λ e. e.1.query_id == query_id) db.award.rows.quotes.entries);
    issued = length (filter (λ q. q.query_id == query_id && is_issued q.status) db.quotations);
  }

  -- QueryStatusProjector.recompute, with its write
  abbrev pub project_query : String → ComparisonDb M → ComparisonDb M
  project_query query_id db = elim (Dict.get query_id db.queries) [
    | none ↦ db
    | some row ↦ record db {
      queries =
          Dict.set query_id (record row { status = Query.recompute (view_of query_id row db) })
            db.queries;
    }
  ]

  -- the writes of the transaction
  abbrev pub reopen_writes : String → String → String → ComparisonDb M → ComparisonDb M
  reopen_writes query_id reason user db = record db {
    award =
        log_reopens reason user (query_legs query_id db.award)
          (record (db.award) { snapshots = Dict.delete query_id db.award.snapshots });
    quotations = take_back query_id db.quotations;
  }

  unfoldable pub reopen_comparison : String → String → String → ComparisonDb M → Reopening M
  reopen_comparison query_id reason user db =
      if not (is_some (Dict.get query_id db.queries))
      then refused query_not_found
      else if not (is_locked query_id db.award)
      then refused not_quoted
      else reopened (project_query query_id (reopen_writes query_id reason user db))
