-- ===== src/Changes/Tests.antt =====
-- Runs of the change component at concrete inputs, and its theorems applied at them.
use logistics.Common.{
  ◌≡◌, refl, sym, subst, ap, ◌≢◌, ◌↔◌, ◌⊎◌, inl, inr, true, false, Option, none, some, List, [],
  ◌∷◌, String, arith, eq_iff, In, string_eq,
}
use logistics.Common.Dict
use logistics.Findings.{FindingScope}
use logistics.Status.Vocabulary.{
  LegStatus, LegEvent, QuoteStatus, QuoteEvent, quote_status_eq, quote_event_eq,
}
use logistics.Status.Machine.{next_state, find_transition}
use logistics.Status.Machines.{quote_app}
use logistics.Changes.Impact.{
  internal, rfq_defining, change_order, ImpactRegistry, declare, class_of, highest_impact_field,
  field,
}
use logistics.Changes.Store.{LegRow, QuoteRow, QuoteRef, Db}
use logistics.Changes.Scope.{
  ChangeRequest, classified, classify, is_uuid, leg_ids, find_live_quotes, downstream_work, unique,
  legs_of,
}
use logistics.Changes.Scope.Live.{IsLive, InScope, downstream_work_iff}
use logistics.Changes.Fire.{
  done, thrown, illegal_leg, missing_row, set_leg_status, fire_leg, reopen_all, invalidate_all,
  fire_quote, project_leg, quotes_of_leg,
}
use logistics.Status.Rollup.{recompute_leg, rollup_leg_target}
use logistics.Changes.Fire.Events.{IsOut, fire_leg-reopen_cases}
use logistics.Changes.Order.{
  PreviewQuote, ChangeOrderPreview, ImpactDecision, live_refs, invalidating_of, refreshing_of,
  legs_with_live_quotes, log_row, run_change_order, apply, first_transaction, refresh_all,
  invalidated_by_change_order,
}
use logistics.Changes.Order.Partition.{change_order_split}
use logistics.Changes.Order.Radius.{IsDoomed, IsPending, IsTouched}
use logistics.Changes.Order.Cascade.{IsReopenable}
use logistics.Changes.Order.Confirmed.{IsCarriedOut, run_change_order-Cascaded}
use logistics.Changes.Mediator.{mediate}
use logistics.Changes.Mediator.Safety.{shown, mediate-unconfirmed}

abbrev leg_a : String
leg_a = "0f8fad5b-d9cb-469f-a165-70867728950e"

abbrev leg_row : LegStatus → String → LegRow String
leg_row status view = record {
  query_id = "q";
  origin_point_id = some "p1";
  destination_point_id = none;
  status = status;
  frozen_view = view;
}

abbrev quote_row : QuoteStatus → QuoteRow String
quote_row status = record {
  query_id = "query";
  rfq_id = some "rfq";
  freight_forwarder_id = "ff";
  leg_id = leg_a;
  status = status;
  submitted = true;
  draft = true;
  snapshot = some "old";
}

-- a leg with a priced quote and a pending one
abbrev db : Db String
db = record {
  legs = record { entries = (leg_a, leg_row LegStatus.partially_quoted "old") ∷ [] };
  quotes = record {
    entries =
        ("priced", quote_row QuoteStatus.quoted) ∷ ("pending", quote_row QuoteStatus.rfq_sent) ∷ [];
  };
  packages = [];
  leg_packages = [];
  change_log = [];
}

-- the edit of the leg's mode, say
abbrev edit : Db String → Db String
edit d = record d {
  legs = record { entries = (leg_a, leg_row LegStatus.partially_quoted "new") ∷ [] };
}

abbrev scope : List FindingScope
scope = record { type_ = "leg"; id = some leg_a } ∷ []

abbrev request : Option String → ChangeRequest
request reason = record {
  entity = "leg";
  id = leg_a;
  field = some "mode";
  action = none;
  query_id = some "q";
  actor_id = some "u";
  reason = reason;
}

abbrev decision : ImpactDecision
decision = record { impact_class = rfq_defining; scope = scope; path = change_order }

abbrev registry : ImpactRegistry
registry =
    declare "leg" (record { entries = ("notes", internal) ∷ ("mode", rfq_defining) ∷ [] })
      (record { maps = Dict.empty })

abbrev live : List QuoteRef
live = live_refs scope db

abbrev pending_ref : QuoteRef
pending_ref = record {
  quote_id = "pending";
  freight_forwarder_id = "ff";
  leg_id = leg_a;
  status = QuoteStatus.rfq_sent;
}

run_change_order_run :
    (run_change_order (request (some "mode changed")) decision edit db).0
    ≡ done (record {
      legs = record { entries = (leg_a, leg_row LegStatus.ready_for_rfq "new") ∷ [] };
      quotes = record {
        entries =
            ("priced", record (quote_row QuoteStatus.invalid) { snapshot = some "old" })
            ∷ (
              "pending",
              record (quote_row QuoteStatus.rfq_sent) { snapshot = some "new"; draft = false },
            )
            ∷ [];
      };
      packages = [];
      leg_packages = [];
      change_log =
          log_row
            (request (some "mode changed"))
            rfq_defining
            "mode changed"
            (leg_a ∷ [])
            (invalidating_of live)
            (refreshing_of live)
          ∷ [];
    })
unfolding run_change_order apply first_transaction refresh_all live_refs find_live_quotes leg_ids
    legs_with_live_quotes unique invalidating_of refreshing_of invalidated_by_change_order
    invalidate_all reopen_all fire_leg fire_quote project_leg quotes_of_leg recompute_leg
    rollup_leg_target next_state find_transition Dict.get Dict.set
run_change_order_run = refl

on_leg_a :
    (e : String × QuoteRow String) → In e db.quotes.entries → IsReopenable "q" (edit db) e.1.leg_id
unfolding next_state find_transition Dict.get
on_leg_a e m =
    let at : e.1.leg_id ≡ leg_a = elim m [
      | inl same ↦ ap (λ (x : String × QuoteRow String). x.1.leg_id) same
      | inr (inl same) ↦ ap (λ (x : String × QuoteRow String). x.1.leg_id) same
      | inr (inr none_there) ↦ absurd none_there
    ] in
    subst (IsReopenable "q" (edit db)) (sym at)
      (leg_row LegStatus.partially_quoted "new", refl, refl, refl)

run_change_order-Cascaded_example :
    (db' : Db String) × ((run_change_order (request (some "mode changed")) decision edit db).0
      ≡ done db')
    × IsCarriedOut (request (some "mode changed")) decision "mode changed" db (edit db) db'
unfolding next_state find_transition Dict.get Dict.keys
run_change_order-Cascaded_example =
    run_change_order-Cascaded (request (some "mode changed")) decision "q" "mode changed" edit db
      refl refl ((λ h. ground (arith, eq_iff "priced" "pending")), ((λ h. h), tt))
      (λ id row found. (row, found, refl, refl)) (λ e touched. on_leg_a e touched.0.0)

-- a leg of another query fails the transaction, and so does a request without a query
stray_run :
    (run_change_order
      (record (request (some "mode changed")) { query_id = some "other" })
      decision
      edit
      db).0
    ≡ thrown missing_row db
unfolding run_change_order apply first_transaction refresh_all live_refs find_live_quotes leg_ids
    legs_with_live_quotes unique refreshing_of invalidated_by_change_order Dict.get
stray_run = refl

unnamed_run :
    (run_change_order
      (record (request (some "mode changed")) { query_id = none })
      decision
      edit
      db).0
    ≡ thrown missing_row db
unfolding run_change_order apply first_transaction
unnamed_run = refl

change_order_split_example :
    (In (pending_ref) (invalidating_of live)
      × (¬ In pending_ref (refreshing_of live))
      × (next_state quote_app QuoteStatus.rfq_sent QuoteEvent.invalidate
          ≡ some QuoteStatus.invalid))
    ⊎ (In pending_ref (refreshing_of live)
        × (¬ In pending_ref (invalidating_of live))
        × (QuoteStatus.rfq_sent ≡ QuoteStatus.rfq_sent))
unfolding live_refs find_live_quotes leg_ids
change_order_split_example = change_order_split scope db pending_ref (inr (inl refl))

downstream_work_iff_example :
    (downstream_work scope db ≡ true)
    ↔ ((e : String × QuoteRow String) × InScope scope db e × IsLive e.1)
unfolding leg_ids is_uuid
downstream_work_iff_example = downstream_work_iff scope db (refl, tt)

fire_leg-reopen_cases_example :
    (IsOut LegStatus.partially_quoted
      → fire_leg leg_a LegEvent.reopen db
        ≡ done (
            set_leg_status leg_a
              (leg_row LegStatus.partially_quoted "old")
              LegStatus.ready_for_rfq
              db))
    × (LegStatus.partially_quoted ≡ LegStatus.ready_for_rfq
        → fire_leg leg_a LegEvent.reopen db
          ≡ done
              (set_leg_status leg_a (leg_row LegStatus.partially_quoted "old") LegStatus.draft db))
    × (¬ IsOut LegStatus.partially_quoted
        → LegStatus.partially_quoted ≢ LegStatus.ready_for_rfq
        → fire_leg leg_a LegEvent.reopen db
          ≡ thrown (illegal_leg LegStatus.partially_quoted LegEvent.reopen) db)
unfolding Dict.get
fire_leg-reopen_cases_example =
    fire_leg-reopen_cases leg_a db (leg_row LegStatus.partially_quoted "old") refl

registry_run : classify registry (request none) db ≡ classified rfq_defining scope
unfolding classify class_of legs_of declare Dict.get Dict.set
registry_run = refl

mediate-unconfirmed_example :
    (preview : ChangeOrderPreview) × (mediate registry (λ d. []) (request none) edit db
      ≡ inr (
        done db,
        record {
          path = change_order;
          impact_class = rfq_defining;
          scope = scope;
          findings = [];
          preview = some preview;
        },
      ))
    × (preview.impact_class ≡ rfq_defining)
    × ((p : PreviewQuote)
        → In p preview.invalidating_quotes
          ↔ ((e : String × QuoteRow String) × IsDoomed scope db e × (p ≡ shown e)))
    × ((p : PreviewQuote)
        → In p preview.refreshing_quotes
          ↔ ((e : String × QuoteRow String) × IsPending scope db e × (p ≡ shown e)))
    × ((l : String)
        → In l preview.affected_legs
          ↔ ((e : String × QuoteRow String) × IsTouched scope db e × (l ≡ e.1.leg_id)))
unfolding leg_ids is_uuid
mediate-unconfirmed_example =
    mediate-unconfirmed registry (λ d. []) (request none) edit db rfq_defining scope registry_run
      (ground arith) (refl, tt)
      (
        ("priced", quote_row QuoteStatus.quoted),
        (inl refl, (record { type_ = "leg"; id = some leg_a }, inl refl, refl, refl)),
        inr (inl refl),
      )
      refl

highest_run : highest_impact_field registry "leg" ("notes" ∷ "mode" ∷ []) ≡ field "mode"
unfolding highest_impact_field class_of declare Dict.get Dict.set
highest_run = refl
