-- ===== src/Award/Reopen/Tests.antt =====
-- Runs of the reopening of a comparison, and its theorem applied at them.
use logistics.Common.{
  ◌≡◌, ◌≢◌, ◌↔◌, refl, false, none, some, [], ◌∷◌, List, String, In, All, map, ◌==◌, string_eq,
}
use logistics.Common.Dict
use logistics.Status.Vocabulary.{LegStatus, QueryStatus}
use logistics.Status.Query.{derive_query_status, least_advanced}
use logistics.Status.Query
use logistics.Award.{is_locked}
use logistics.Award.Reopen.{
  QuotationRow, QuotationStatus, draft, issued, superseded, QueryRow, ComparisonDb, Reopening,
  refused, reopened, not_quoted, query_legs, reopen_event, log_reopens, reopen_comparison,
}
use logistics.Award.Reopen.Reopened.{is_with_client, reopen_comparison-live}

abbrev quotation : String → String → QuotationStatus → QuotationRow
quotation id query_id status = record { id = id; query_id = query_id; status = status }

abbrev query_row : QueryRow
query_row = record {
  rfq_ready_at = some "2026-07-01";
  status = QueryStatus.awaiting_client_decision;
}

-- a query with one approved leg, whose second quotation was issued and whose third is drafted
abbrev db : ComparisonDb String
db = record {
  award = record {
    rows = record {
      legs = record {
        entries =
            (
              "leg",
              record {
                query_id = "query";
                origin_point_id = none;
                destination_point_id = none;
                status = LegStatus.approved;
                frozen_view = "view";
              },
            )
            ∷ [];
      };
      quotes = record { entries = [] };
      packages = [];
      leg_packages = [];
      change_log = [];
    };
    snapshots = record { entries = ("query", "award") ∷ [] };
    decisions = record { entries = [] };
    leg_sends = [];
    quote_sends = [];
    events = [];
  };
  queries = record { entries = ("query", query_row) ∷ [] };
  quotations =
      quotation "v1" "query" superseded
      ∷ quotation "v2" "query" issued
      ∷ quotation "v3" "query" draft
      ∷ quotation "w1" "other" issued
      ∷ [];
}

abbrev kept : Reopening String → List String
kept (refused f) = []
kept (reopened after) = map (λ q. q.id) after.quotations

abbrev projected : Reopening String → List QueryStatus
projected (refused f) = []
projected (reopened after) = map (λ e. e.1.status) after.queries.entries

reopened_run :
    let run = reopen_comparison "query" "price fell" "lead" db in
    (kept run ≡ "v1" ∷ "v2" ∷ "w1" ∷ []) × (projected run ≡ QueryStatus.quoted ∷ [])
unfolding reopen_comparison log_reopens Query.recompute Query.no_response derive_query_status
    least_advanced Dict.get Dict.set Dict.delete
reopened_run = (refl, refl)

-- It is taken back once.
open_run :
    reopen_comparison "query" "again" "lead"
      (record db { award = record (db.award) { snapshots = record { entries = [] } } })
    ≡ refused not_quoted
unfolding reopen_comparison Dict.get
open_run = refl

reopen_comparison-live_example :
    (after : ComparisonDb String) × (status : QueryStatus) × (reopen_comparison "query" "price fell"
        "lead" db
      ≡ reopened after)
    × (is_locked "query" after.award ≡ false)
    × (after.award.rows ≡ db.award.rows)
    × (after.award.decisions ≡ db.award.decisions)
    × All
        (λ l. In (reopen_event "price fell" "lead" l) after.award.events)
        (query_legs "query" db.award)
    × All (λ q. is_with_client "query" q ≡ false) after.quotations
    × ((q : QuotationRow)
        → (In q after.quotations × ((q.query_id == "query") ≡ false))
          ↔ (In q db.quotations × ((q.query_id == "query") ≡ false)))
    × (Dict.get "query" after.queries ≡ some (record query_row { status = status }))
    × (status ≢ QueryStatus.quoting_client)
    × (status ≢ QueryStatus.awaiting_client_decision)
unfolding Dict.get
reopen_comparison-live_example =
    reopen_comparison-live "query" "price fell" "lead" db query_row refl refl
