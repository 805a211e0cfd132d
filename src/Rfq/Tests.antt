-- ===== src/Rfq/Tests.antt =====
-- Runs of the selection, of the sweep and of the timers, and their theorems applied at them.
use mathlib.Core.Option
use logistics.Common.{
  ℕ, ◌+◌, ◌*◌, ◌≡◌, ◌≢◌, ◌↔◌, ◌∙◌, refl, inl, inr, sym, ap, subst, false, true, false, Bool, none,
  some, [], ◌∷◌, List, String, In, All, IsDistinct, includes, includes_iff, map, arith, ◌==◌,
  string_eq, if◌then◌else◌,
}
use logistics.Common.Dict
use logistics.Common.Dict.{Dict}
use logistics.Status.Vocabulary.{LegStatus, QuoteStatus}
use logistics.Status.Machine.{next_state, find_transition}
use logistics.Status.Rollup.{rollup_leg_target, recompute_leg}
use logistics.Changes.Store.{QuoteRow}
use logistics.Changes.Fire.{fire_quote, fire_leg, project_leg, quotes_of_leg}
use logistics.Rfq.Timers.{
  ScheduledEvent, Tier, hours_before, at_deadline, fresh_event, hour, schedule, cancel, arm, rearm,
}
use logistics.Rfq.Timers.Rearmed.{Rearmed}
use logistics.Rfq.Expiry.{Rfq, RfqDb, on_expiry, run_due, run_events, is_due, expire, expire_all}
use logistics.Rfq.Expiry.Closed.{IsSwept}
use logistics.Rfq.Expiry.Sweep.{IsAhead, IsSilenced, on_expiry-close}
use logistics.Rfq.Expiry.Once.{run_due-run_due}
use logistics.Changes.Scope.{unique, unique_from}
use logistics.Award.{AwardDb}
use logistics.Rfq.Selection.{
  refused, selected, unknown_or_inactive, frozen, delete_all, create_all, set_ff_selection,
}
use logistics.Rfq.Selection.Wanted.{OneEach, is_selected_on}
use logistics.Rfq.Selection.Chosen.{set_ff_selection-frozen}
use logistics.Rfq.Selection.After.{IsFresh}
use logistics.Rfq.Window.{reset_deadline_and_rearm, reset_deadline_and_rearm-Rearmed}

abbrev quote : QuoteStatus → Bool → QuoteRow String
quote status submitted = record {
  query_id = "query";
  rfq_id = some "rfq";
  freight_forwarder_id = "ff";
  leg_id = "leg";
  status = status;
  submitted = submitted;
  draft = true;
  snapshot = none;
}

-- an RFQ with a quote that was given, one that was asked again and one that was never answered
abbrev db : RfqDb String
db = record {
  rows = record {
    legs = record {
      entries =
          (
            "leg",
            record {
              query_id = "query";
              origin_point_id = none;
              destination_point_id = none;
              status = LegStatus.partially_quoted;
              frozen_view = "view";
            },
          )
          ∷ [];
    };
    quotes = record {
      entries =
          ("given", quote QuoteStatus.quoted true)
          ∷ ("again", quote QuoteStatus.requoted true)
          ∷ ("silent", quote QuoteStatus.rfq_sent false)
          ∷ [];
    };
    packages = [];
    leg_packages = [];
    change_log = [];
  };
  rfqs = record {
    entries =
        (
          "rfq",
          record { query_id = "query"; freight_forwarder_id = "ff"; submission_deadline = 90 },
        )
        ∷ [];
  };
  timers =
      fresh_event "RFQ" "rfq" "rfq.expiry" at_deadline 90
      ∷ fresh_event "RFQ" "rfq" "rfq.reminder" (hours_before 1) 95
      ∷ [];
}

-- The sweep runs first and calls the reminder off, so that one event is fired. The leg is fully quoted by
-- the answer that is left.
run_due_run :
    let (fired, after) = run_due 100 db in
    (fired ≡ 1)
    × (map {B = String × QuoteStatus × Bool}
          (λ e. (e.0, e.1.status, e.1.draft))
          after.rows.quotes.entries
        ≡ ("given", QuoteStatus.quoted, true)
          ∷ ("again", QuoteStatus.expired, true)
          ∷ ("silent", QuoteStatus.expired, false)
          ∷ [])
    × (map {B = LegStatus} (λ e. e.1.status) after.rows.legs.entries ≡ LegStatus.fully_quoted ∷ [])
unfolding run_due run_events on_expiry expire expire_all cancel Dict.get Dict.set fire_quote
    fire_leg project_leg quotes_of_leg next_state find_transition rollup_leg_target recompute_leg
run_due_run = (refl, refl, refl)

not_includes : (xs : List String) (x : String) → includes xs x ≡ false → In x xs → ⊥
not_includes xs x h m = ground (arith, (includes_iff xs x).1 m, h)

keys-IsDistinct : IsDistinct (Dict.keys db.rows.quotes)
unfolding Dict.keys
keys-IsDistinct = (
  not_includes ("again" ∷ "silent" ∷ []) "given" refl,
  (not_includes ("silent" ∷ []) "again" refl, (not_includes [] "silent" refl, tt)),
)

rfq_there : Dict.get "rfq" db.rfqs ≢ none
unfolding Dict.get
rfq_there = ground arith

on_expiry-close_example :
    let after = on_expiry 100 "rfq" db in
    ((k : String) → IsSwept "rfq" (Dict.get k db.rows.quotes) (Dict.get k after.rows.quotes))
    × ((l : String) → IsAhead (Dict.get l db.rows.legs) (Dict.get l after.rows.legs))
    × All (IsSilenced "rfq") after.timers
on_expiry-close_example = on_expiry-close 100 "rfq" db rfq_there keys-IsDistinct

run_due-run_due_example :
    let after = (run_due 100 db).1 in
    All (λ e. is_due 100 e ≡ false) after.timers × (run_due 100 after ≡ (0, after))
run_due-run_due_example = run_due-run_due 100 db

rearm_run :
    Option.map {B = List (Tier × ℕ)}
      (λ r. map (λ e. (e.tier, e.due_at)) r.1.timers)
      (reset_deadline_and_rearm 100 2 (1 ∷ 24 ∷ []) "rfq" db)
    ≡ some ((hours_before 1, 100 + hour) ∷ (at_deadline, 100 + 2 * hour) ∷ [])
unfolding reset_deadline_and_rearm rearm arm schedule Dict.get Dict.set
rearm_run = refl

reset_deadline_and_rearm-Rearmed_example :
    let deadline = 100 + 2 * hour in
    (after : RfqDb String) × (reset_deadline_and_rearm 100 2 (1 ∷ 24 ∷ []) "rfq" db
      ≡ some (deadline, after))
    × (after.rows ≡ db.rows)
    × ((k : String)
        → Dict.get k after.rfqs ≡ (
            if "rfq" == k
            then Option.map {A = Rfq}
                (λ r. record r { submission_deadline = deadline })
                (Dict.get k db.rfqs)
            else Dict.get k db.rfqs))
    × ((e : ScheduledEvent)
        → In e after.timers ↔ Rearmed 100 "rfq" deadline (1 ∷ 24 ∷ []) db.timers e)
    × In (fresh_event "RFQ" "rfq" "rfq.expiry" at_deadline deadline) after.timers
reset_deadline_and_rearm-Rearmed_example =
    reset_deadline_and_rearm-Rearmed 100 2 (1 ∷ 24 ∷ []) "rfq" db (omega arith) rfq_there

abbrev quote_of : String → QuoteStatus → QuoteRow String
quote_of ff status = record (quote status false) { freight_forwarder_id = ff }

-- a leg that was sent to one forwarder, and two others are chosen for
abbrev chosen_db : AwardDb String
chosen_db = record {
  rows = record (db.rows) {
    quotes = record {
      entries =
          ("q-1", quote_of "ann" QuoteStatus.select)
          ∷ ("q-2", quote_of "bob" QuoteStatus.rfq_sent)
          ∷ ("q-3", quote_of "cem" QuoteStatus.select)
          ∷ [];
    };
  };
  snapshots = record { entries = [] };
  decisions = record { entries = [] };
  leg_sends = [];
  quote_sends = [];
  events = [];
}

abbrev statuses : Dict String
statuses = record {
  entries = ("ann", "ACTIVE") ∷ ("bob", "ACTIVE") ∷ ("dee", "ACTIVE") ∷ ("eve", "INACTIVE") ∷ [];
}

abbrev own_name : String → String
own_name ff = ff

set_ff_selection_run :
    (elim (set_ff_selection own_name statuses "query" "leg"
      ("dee" ∷ "ann" ∷ "bob" ∷ "dee" ∷ [])
      chosen_db) [ refused f ↦ [] | selected ffs after ↦ ffs ])
    ≡ "ann" ∷ "dee" ∷ []
unfolding set_ff_selection delete_all create_all unique unique_from Dict.get Dict.set Dict.delete
set_ff_selection_run = refl

inactive_run :
    set_ff_selection own_name statuses "query" "leg" ("eve" ∷ []) chosen_db
    ≡ refused unknown_or_inactive
unfolding set_ff_selection unique unique_from Dict.get
inactive_run = refl

chosen_keys-IsDistinct : IsDistinct (Dict.keys chosen_db.rows.quotes)
unfolding Dict.keys
chosen_keys-IsDistinct = (
  not_includes ("q-2" ∷ "q-3" ∷ []) "q-1" refl,
  (not_includes ("q-3" ∷ []) "q-2" refl, (not_includes [] "q-3" refl, tt)),
)

chosen-IsFresh : IsFresh own_name ("dee" ∷ "ann" ∷ "bob" ∷ []) chosen_db.rows.quotes
unfolding Dict.get
chosen-IsFresh = record {
  new = λ ff m. elim m [
    | inl dee ↦ subst (λ x. Dict.get x chosen_db.rows.quotes ≡ none) (sym dee) refl
    | inr m' ↦ elim m' [
      | inl ann ↦ subst (λ x. Dict.get x chosen_db.rows.quotes ≡ none) (sym ann) refl
      | inr m'' ↦ elim m'' [
        | inl bob ↦ subst (λ x. Dict.get x chosen_db.rows.quotes ≡ none) (sym bob) refl
        | inr no_more ↦ absurd no_more
      ]
    ]
  ];
  own = λ a b e. e;
}

-- the quote of each forwarder
abbrev entry_of : String → String × QuoteRow String
entry_of ff =
    if ff == "ann"
    then ("q-1", quote_of "ann" QuoteStatus.select)
    else if ff == "bob"
    then ("q-2", quote_of "bob" QuoteStatus.rfq_sent)
    else ("q-3", quote_of "cem" QuoteStatus.select)

chosen-entry_of :
    (e : String × QuoteRow String)
    → In e chosen_db.rows.quotes.entries
    → e ≡ entry_of e.1.freight_forwarder_id
chosen-entry_of e m = elim m [
  | inl ann ↦ subst (λ x. x ≡ entry_of x.1.freight_forwarder_id) (sym ann) refl
  | inr m' ↦ elim m' [
    | inl bob ↦ subst (λ x. x ≡ entry_of x.1.freight_forwarder_id) (sym bob) refl
    | inr m'' ↦ elim m'' [
      | inl cem ↦ subst (λ x. x ≡ entry_of x.1.freight_forwarder_id) (sym cem) refl
      | inr no_more ↦ absurd no_more
    ]
  ]
]

chosen-OneEach : OneEach chosen_db.rows.quotes
chosen-OneEach a b ma mb leg ff = chosen-entry_of a ma ∙ ap entry_of ff ∙ sym (chosen-entry_of b mb)

set_ff_selection-frozen_example :
    let ff_ids : List String = "dee" ∷ "ann" ∷ "bob" ∷ [] in
    (ffs : List String) × (after : AwardDb String) × (set_ff_selection own_name statuses "query"
        "leg" ff_ids chosen_db
      ≡ selected ffs after)
    × ((ff : String) → In ff ffs ↔ (In ff ff_ids × ¬ In ff (frozen "leg" chosen_db.rows)))
    × ((e : String × QuoteRow String)
        → (In e after.rows.quotes.entries × (is_selected_on "leg" e ≡ false))
          ↔ (In e chosen_db.rows.quotes.entries × (is_selected_on "leg" e ≡ false)))
    × OneEach after.rows.quotes
unfolding Dict.get
set_ff_selection-frozen_example =
    set_ff_selection-frozen own_name statuses "query" "leg" ("dee" ∷ "ann" ∷ "bob" ∷ []) chosen_db
      refl refl (refl, (refl, (refl, tt))) chosen-IsFresh chosen_keys-IsDistinct chosen-OneEach
