-- ===== src/Changes/Order.antt =====
-- apps/api/src/modules/changes/change-order.strategy.ts: the preview of a change order, and its
-- application with the cascade of status events.
pub mod Partition
pub mod Radius
pub mod Refresh
pub mod Cascade
pub mod Confirmed
use mathlib.Core.Option
use logistics.Common.{
  ◌⊎◌, inl, inr, Bool, ◌&&◌, not, true, false, Option, none, some, List, [], ◌∷◌, map, String, ◌==◌,
  string_eq, filter, includes, if◌then◌else◌,
}
use logistics.Common.Dict
use logistics.Findings.{Finding, FindingScope}
use logistics.Status.Vocabulary.{QuoteStatus, quote_status_eq}
use logistics.Changes.Impact.{ImpactClass, ImpactPath, change_order}
use logistics.Changes.Store.{LegRow, QuoteRow, QuoteRef, ChangeLogRow, Db}
use logistics.Changes.Scope.{ChangeRequest, invalidated, unique, ref_of, find_live_quotes, leg_ids}
use logistics.Changes.Fire.{Run, done, thrown, ◌>>=◌, missing_row, invalidate_all, reopen_all}

-- what the preview shows of a quote
pub record PreviewQuote : Type 0 where
  pub quote_id : String
  pub freight_forwarder_id : String

abbrev pub preview_quotes : List QuoteRef → List PreviewQuote
preview_quotes quotes =
    map (λ q. record { quote_id = q.quote_id; freight_forwarder_id = q.freight_forwarder_id })
      quotes

pub record ChangeOrderPreview : Type 0 where
  pub affected_legs : List String
  pub invalidating_quotes : List PreviewQuote
  pub refreshing_quotes : List PreviewQuote
  pub impact_class : ImpactClass

pub record ImpactDecision : Type 0 where
  pub impact_class : ImpactClass
  pub scope : List FindingScope
  pub path : ImpactPath

-- `preview` is there exactly when confirmation is needed.
pub record ChangeResult : Type 0 where
  pub path : ImpactPath
  pub impact_class : ImpactClass
  pub scope : List FindingScope
  pub findings : List Finding
  pub preview : Option ChangeOrderPreview

-- invalidatedByChangeOrder
unfoldable pub invalidated_by_change_order : QuoteStatus → Bool
invalidated_by_change_order status = includes invalidated status

abbrev pub log_row :
    ChangeRequest
    → ImpactClass
    → String
    → List String
    → List QuoteRef
    → List QuoteRef
    → ChangeLogRow
log_row req c reason affected_legs invalidating refreshing = record {
  query_id = req.query_id;
  entity = req.entity;
  entity_id = req.id;
  actor_id = req.actor_id;
  impact_class = c;
  reason = reason;
  affected_legs = affected_legs;
  invalidated_quotes = map (λ q. q.quote_id) invalidating;
  refreshed_quotes = map (λ q. q.quote_id) refreshing;
}

unfoldable pub invalidating_of : List QuoteRef → List QuoteRef
invalidating_of quotes = filter (λ q. invalidated_by_change_order q.status) quotes

unfoldable pub refreshing_of : List QuoteRef → List QuoteRef
refreshing_of quotes = filter (λ q. not (invalidated_by_change_order q.status)) quotes

unfoldable pub legs_with_live_quotes : List QuoteRef → List String
legs_with_live_quotes quotes = unique (map (λ q. q.leg_id) quotes)

abbrev pub change_order_result : ImpactDecision → Option ChangeOrderPreview → ChangeResult
change_order_result decision preview = record {
  path = change_order;
  impact_class = decision.impact_class;
  scope = decision.scope;
  findings = [];
  preview = preview;
}

-- `run` of the change-order strategy: an absent or empty reason asks for a preview.
abbrev pub reason_of : Option String → Option String
reason_of none = none
reason_of (some r) = if r == "" then none else some r

module _ {M : Type 0} where
  -- The refresh of one leg's pending quotes: the leg's view of the edited rows is frozen again, and
  -- the forwarder's saved draft is cleared.
  abbrev pub refresh_row : String → List String → M → String × QuoteRow M → String × QuoteRow M
  refresh_row leg_id refreshing_ids view (id, row) =
      if row.leg_id == leg_id && includes refreshing_ids id
      then (id, record row { snapshot = some view; draft = false })
      else (id, row)

  -- `none` where the leg is gone or belongs to another query: the transaction fails.
  abbrev pub refresh_leg : String → String → List String → Db M → Option (Db M)
  refresh_leg query_id leg_id refreshing_ids db = elim (Dict.get leg_id db.legs) [
    | none ↦ none
    | some leg ↦
        if leg.query_id == query_id
        then some (record db {
          quotes = record {
            entries = map (refresh_row leg_id refreshing_ids leg.frozen_view) db.quotes.entries;
          };
        })
        else none
  ]

  unfoldable pub refresh_all : String → List String → List String → Db M → Option (Db M)
  refresh_all query_id [] refreshing_ids db = some db
  refresh_all query_id (l ∷ ls) refreshing_ids db =
      elim (refresh_leg query_id l refreshing_ids db) [
        | none ↦ none
        | some db' ↦ refresh_all query_id ls refreshing_ids db'
      ]

  -- The first transaction: the caller's edit, the refresh, and the record of the change. It looks the
  -- query up by the request's query id, and fails where the request has none.
  unfoldable pub first_transaction :
      (Db M → Db M)
      → Option String
      → List String
      → List String
      → ChangeLogRow
      → Db M
      → Option (Db M)
  first_transaction uow none affected_legs refreshing_ids row db = none
  first_transaction uow (some query_id) affected_legs refreshing_ids row db =
      Option.map {A = Db M} (λ db'. record db' { change_log = row ∷ db'.change_log })
        (refresh_all query_id affected_legs refreshing_ids (uow db))

  -- The status events, once the first transaction is committed; `none` is its roll-back.
  abbrev pub after_commit : List QuoteRef → List String → Db M → Option (Db M) → Run (Db M)
  after_commit invalidating affected_legs db none = thrown missing_row db
  after_commit invalidating affected_legs db (some db') =
      invalidate_all (map (λ q. q.quote_id) invalidating) db' >>= reopen_all affected_legs

  -- `apply`: the edit, then the cascade
  unfoldable pub apply :
      ChangeRequest
      → ImpactClass
      → String
      → (Db M → Db M)
      → List String
      → List QuoteRef
      → List QuoteRef
      → Db M
      → Run (Db M)
  apply req c reason uow affected_legs invalidating refreshing db =
      after_commit invalidating affected_legs db (
        first_transaction uow req.query_id affected_legs (map (λ q. q.quote_id) refreshing)
          (log_row req c reason affected_legs invalidating refreshing) db)

  -- the live quotes of the scope's legs
  unfoldable pub live_refs : List FindingScope → Db M → List QuoteRef
  live_refs scope db = map ref_of (find_live_quotes (leg_ids scope) db)

  unfoldable pub run_change_order :
      ChangeRequest → ImpactDecision → (Db M → Db M) → Db M → Run (Db M) × ChangeResult
  run_change_order req decision uow db =
      let quotes = live_refs decision.scope db in
      elim (reason_of req.reason) [
        | none ↦ (
          done db,
          change_order_result decision (
              some (record {
                affected_legs = legs_with_live_quotes quotes;
                invalidating_quotes = preview_quotes (invalidating_of quotes);
                refreshing_quotes = preview_quotes (refreshing_of quotes);
                impact_class = decision.impact_class;
              })),
        )
        | some reason ↦ (
          apply req decision.impact_class reason uow (legs_with_live_quotes quotes)
              (invalidating_of quotes) (refreshing_of quotes) db,
          change_order_result decision none,
        )
      ]
