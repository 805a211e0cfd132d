-- ===== src/Award/Send/Tests.antt =====
-- Runs of the maker's half of the award workflow, and its theorems applied at them.
use logistics.Common.{
  ◌≡◌, ◌≢◌, refl, true, false, none, some, [], ◌∷◌, List, String, IsDistinct, inl, inr, eq_iff,
  arith,
}
use logistics.Common.Dict
use logistics.Status.Vocabulary.{LegStatus, LegEvent, QuoteStatus}
use logistics.Status.Rollup.{rollup_leg_target}
use logistics.Changes.Store.{LegRow, QuoteRow, Db}
use logistics.Changes.Scope.{is_uuid}
use logistics.Changes.Fire.{Run, done, thrown, illegal_leg, ◌>>=◌, quotes_of_leg}
use logistics.Changes.Fire.Events.{QuoteIs, LegIs}
use logistics.Award.{
  LegAwardDecision, pending_approval, AwardDb, committed, refused, not_fully_quoted,
  requote_in_flight, approve,
}
use logistics.Award.Send.{
  SendForApprovalInput, ComparisonLeg, send_write, fire_quote_send, fire_leg_send,
  a3_send_permission_deadline, sent, not_sent, send_locked, send_for_approval,
}
use logistics.Award.Send.Guards.{sent_decision}
use logistics.Award.Send.Sendable.{Sendable, send_for_approval-Sendable}
use logistics.Award.Send.Handover.{send_for_approval-approve}
use logistics.Award.Send.Stuck.{send_for_approval-stuck}

abbrev query : String
query = "11111111-1111-4111-8111-111111111111"

abbrev leg : String
leg = "22222222-2222-4222-8222-222222222222"

abbrev leg_row : LegStatus → LegRow String
leg_row status = record {
  query_id = query;
  origin_point_id = none;
  destination_point_id = none;
  status = status;
  frozen_view = "view";
}

abbrev quote : QuoteStatus → QuoteRow String
quote status = record {
  query_id = query;
  rfq_id = some "rfq";
  freight_forwarder_id = "ff";
  leg_id = leg;
  status = status;
  submitted = true;
  draft = false;
  snapshot = none;
}

-- a leg with the offer "quote" and another quote that is outstanding
abbrev db : LegStatus → QuoteStatus → QuoteStatus → AwardDb String
db status offer other = record {
  rows = record {
    legs = record { entries = (leg, leg_row status) ∷ [] };
    quotes = record { entries = ("quote", quote offer) ∷ ("other", quote other) ∷ [] };
    packages = [];
    leg_packages = [];
    change_log = [];
  };
  snapshots = record { entries = [] };
  decisions = record { entries = [] };
  leg_sends = [];
  quote_sends = [];
  events = [];
}

abbrev input : SendForApprovalInput
input = record {
  quote_id = "quote";
  variant = none;
  override_reason = none;
  proceed_without_waiting = false;
  proceed_reason = none;
}

abbrev comparison : List ComparisonLeg
comparison =
    record {
      leg_id = leg;
      offers = record { quote_id = "quote"; variant = none; priced = true } ∷ [];
      recommendation = some (record { quote_id = "quote"; variant = none });
    }
    ∷ []

abbrev decision : LegAwardDecision
decision = sent_decision "maker" input (some (record { quote_id = "quote"; variant = none })) none

abbrev send_run : AwardDb String → Run (AwardDb String)
send_run start =
    fire_quote_send "quote" (send_write leg "maker" input decision start)
    >>= fire_leg_send leg (some a3_send_permission_deadline)

-- the offer is live, and the other forwarder's window has closed
abbrev open_ : AwardDb String
open_ = db LegStatus.partially_quoted QuoteStatus.quoted QuoteStatus.rfq_sent

open_sent :
    send_for_approval 5 (λ _. some 4) comparison query leg input "maker" open_
    ≡ sent decision (send_run open_)
unfolding send_for_approval send_locked is_uuid Dict.get
open_sent = refl

-- the window of the other forwarder is still open
open_waits :
    send_for_approval 3 (λ _. some 4) comparison query leg input "maker" open_
    ≡ not_sent not_fully_quoted
unfolding send_for_approval send_locked is_uuid Dict.get
open_waits = refl

requoted_waits :
    send_for_approval 5
      (λ _. some 4)
      comparison
      query
      leg
      input
      "maker"
      (db LegStatus.partially_quoted QuoteStatus.quoted QuoteStatus.requoted)
    ≡ not_sent requote_in_flight
unfolding send_for_approval send_locked is_uuid Dict.get
requoted_waits = refl

distinct_texts : (◌≡◌ {A = String} "quote" "other") → ⊥
distinct_texts e = let same = (eq_iff "quote" "other").1 e in absurd (ground (arith, same))

open-IsDistinct : IsDistinct (Dict.keys open_.rows.quotes)
unfolding Dict.keys
open-IsDistinct =
    (λ m. elim m [ inl e ↦ absurd (distinct_texts e) | inr n ↦ absurd n ], (λ m. absurd m, tt))

send_for_approval-Sendable_example :
    Sendable 5 (λ _. some 4) query leg input open_ decision
    × (decision.status ≡ pending_approval)
    × (decision.shortlisted_quote_id ≡ some "quote")
    × (decision.sent_by_user_id ≡ some "maker")
unfolding Dict.keys
send_for_approval-Sendable_example =
    send_for_approval-Sendable 5 (λ _. some 4) comparison query leg input "maker" open_ decision
      (send_run open_) open-IsDistinct open_sent

send_for_approval-approve_example :
    (after : AwardDb String) × (send_run open_ ≡ done after)
    × QuoteIs (λ s. s ≡ QuoteStatus.pending_approval) "quote" after.rows
    × LegIs (λ s. s ≡ LegStatus.pending_approval) leg after.rows
    × (Dict.get leg after.decisions ≡ some decision)
    × ((checker : String)
        → checker ≢ "maker"
        → (db' : AwardDb String) × (run' : Run (Db String)) × (approve query leg checker after
            ≡ committed db' run'))
unfolding Dict.keys Dict.get
send_for_approval-approve_example =
    send_for_approval-approve 5 (λ _. some 4) comparison query leg input "maker" open_ decision
      (send_run open_) open-IsDistinct (leg_row LegStatus.partially_quoted, refl, inl refl)
      open_sent

-- the offer expired after a re-quote that took the leg back to RFQ_SENT
abbrev fallen : AwardDb String
fallen = db LegStatus.rfq_sent QuoteStatus.expired QuoteStatus.invalid

fallen_sent :
    send_for_approval 5 (λ _. some 4) comparison query leg input "maker" fallen
    ≡ sent decision (send_run fallen)
unfolding send_for_approval send_locked is_uuid Dict.get
fallen_sent = refl

send_for_approval-stuck_example :
    (after : AwardDb String) × (send_run fallen
      ≡ thrown (illegal_leg LegStatus.rfq_sent LegEvent.send_for_approval) after)
    × (Dict.get leg after.decisions ≡ some decision)
    × (decision.status ≡ pending_approval)
    × QuoteIs (λ s. s ≡ QuoteStatus.pending_approval) "quote" after.rows
    × LegIs (λ s. s ≡ LegStatus.rfq_sent) leg after.rows
    × ((checker : String)
        → checker ≢ "maker"
        → approve query leg checker after ≡ refused not_fully_quoted)
unfolding Dict.keys Dict.get Dict.set rollup_leg_target quotes_of_leg
send_for_approval-stuck_example =
    send_for_approval-stuck 5 (λ _. some 4) comparison query leg input "maker" fallen decision
      (send_run fallen) (leg_row LegStatus.rfq_sent) (quote QuoteStatus.expired) open-IsDistinct
      refl refl refl refl refl fallen_sent
