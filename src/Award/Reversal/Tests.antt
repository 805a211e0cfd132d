-- ===== src/Award/Reversal/Tests.antt =====
-- Runs of a re-quote and of the change-order listener, and their theorems applied at them.
use logistics.Common.{
  ℕ, ◌≡◌, ◌≢◌, refl, true, false, Option, none, some, [], ◌∷◌, List, String, inl, inr, In,
}
use logistics.Common.Dict
use logistics.Status.Vocabulary.{LegStatus, QuoteStatus}
use logistics.Changes.Store.{LegRow}
use logistics.Changes.Fire.{Run, done, quotes_of_leg}
use logistics.Changes.Fire.Events.{QuoteIs, LegIs}
use logistics.Award.{
  LegAwardDecision, draft, pending_approval, AwardDb, decision_pending, is_locked,
}
use logistics.Award.Send.{SendForApprovalInput, ComparisonLeg, sent, send_for_approval}
use logistics.Award.Reversal.{ask, asked, not_asked, request_requote, on_leg_reopened}
use logistics.Award.Reversal.Waits.{waiting_status}
use logistics.Award.Reversal.Requote.{request_requote_waits}
use logistics.Award.Reversal.Voids.{IsVoided, on_leg_reopened-decisions}

abbrev leg_row : LegRow String
leg_row = record {
  query_id = "query";
  origin_point_id = none;
  destination_point_id = none;
  status = LegStatus.fully_quoted;
  frozen_view = "view";
}

abbrev decision : LegAwardDecision
decision = record {
  status = draft;
  shortlisted_quote_id = some "quote";
  shortlisted_variant = none;
  recommended_quote_id = some "quote";
  recommended_variant = none;
  override_reason = none;
  sent_by_user_id = none;
  decided_by_user_id = some "checker";
  rejection_reason = some "too dear";
}

-- a leg with one quote
abbrev db : LegAwardDecision → AwardDb String
db d = record {
  rows = record {
    legs = record { entries = ("leg", leg_row) ∷ [] };
    quotes = record {
      entries =
          (
            "quote",
            record {
              query_id = "query";
              rfq_id = some "rfq";
              freight_forwarder_id = "ff";
              leg_id = "leg";
              status = QuoteStatus.quoted;
              submitted = true;
              draft = true;
              snapshot = none;
            },
          )
          ∷ [];
    };
    packages = [];
    leg_packages = [];
    change_log = [];
  };
  snapshots = record { entries = [] };
  decisions = record { entries = ("leg", d) ∷ [] };
  leg_sends = [];
  quote_sends = [];
  events = [];
}

asked_run :
    request_requote "query" "leg" "quote" "sharper" "exec" (db decision)
    ≡ asked (ask "query" "leg" "quote" "sharper" "exec" false (db decision))
unfolding request_requote Dict.get
asked_run = refl

reviewed_run :
    request_requote "query" "leg" "quote" "sharper" "exec"
      (db (record decision { status = pending_approval }))
    ≡ not_asked decision_pending
unfolding request_requote Dict.get
reviewed_run = refl

request_requote_waits_example :
    (after : AwardDb String) × (ask "query" "leg" "quote" "sharper" "exec" false (db decision)
      ≡ done after)
    × QuoteIs (λ s. s ≡ QuoteStatus.requoted) "quote" after.rows
    × LegIs (λ s. s ≡ waiting_status (quotes_of_leg "leg" after.rows)) "leg" after.rows
    × ((d : LegAwardDecision)
        → Dict.get "leg" after.decisions ≡ some d
        → (d.status ≡ draft) × (d.shortlisted_quote_id ≡ none))
    × ((now : ℕ) (deadline : String → Option ℕ) (comparison : List ComparisonLeg)
          (input : SendForApprovalInput) (sender : String) (d : LegAwardDecision)
          (run' : Run (AwardDb String))
        → input.proceed_without_waiting ≡ false
        → send_for_approval now deadline comparison "query" "leg" input sender after ≢ sent d run')
unfolding Dict.get
request_requote_waits_example =
    request_requote_waits "query" "leg" "quote" "sharper" "exec" (db decision)
      (ask "query" "leg" "quote" "sharper" "exec" false (db decision)) leg_row refl
      (inl (inr (inr refl))) asked_run

on_leg_reopened-decisions_example :
    let after = on_leg_reopened "query" "mode changed" ("leg" ∷ "leg" ∷ []) (db decision) in
    ((k : String)
      → (In k ("leg" ∷ "leg" ∷ [])
          → IsVoided (Dict.get k (db decision).decisions) (Dict.get k after.decisions))
        × (¬ In k ("leg" ∷ "leg" ∷ [])
            → Dict.get k after.decisions ≡ Dict.get k (db decision).decisions))
    × (is_locked "query" after ≡ false)
    × (after.rows ≡ (db decision).rows)
on_leg_reopened-decisions_example =
    on_leg_reopened-decisions "query" "mode changed" ("leg" ∷ "leg" ∷ []) (db decision)
