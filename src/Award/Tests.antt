-- ===== src/Award/Tests.antt =====
-- Runs of the award workflow at concrete inputs, and its theorems applied at them.
use logistics.Common.{◌≡◌, refl, true, false, none, some, [], ◌∷◌, String}
use logistics.Common.Dict
use logistics.Status.Vocabulary.{LegStatus, LegEvent, QuoteStatus, QuoteEvent}
use logistics.Status.Rollup.{rollup_leg_target}
use logistics.Changes.Store.{LegRow, Db}
use logistics.Changes.Scope.{is_uuid}
use logistics.Changes.Fire.{Run, done, ◌>>=◌, fire_leg, fire_quote, quotes_of_leg}
use logistics.Changes.Fire.Events.{QuoteIs, LegIs}
use logistics.Award.{
  LegAwardDecision, draft, pending_approval, approved, AwardDb, refused, committed, self_approval,
  lock_leg, approval, rejection, is_fully_quoted_for_decision, fire_leg_return, approve, reject,
}
use logistics.Award.Approve.{Approvable, approve-Approvable}
use logistics.Award.Reject.{IsReviewed, leg_target, reject_completes}

abbrev query : String
query = "11111111-1111-4111-8111-111111111111"

abbrev leg : String
leg = "22222222-2222-4222-8222-222222222222"

abbrev decision : LegAwardDecision
decision = record {
  status = pending_approval;
  shortlisted_quote_id = some "quote";
  shortlisted_variant = none;
  recommended_quote_id = some "quote";
  recommended_variant = none;
  override_reason = none;
  sent_by_user_id = some "maker";
  decided_by_user_id = none;
  rejection_reason = none;
}

-- a leg under review, whose send was permitted with a reason
abbrev db : AwardDb String
db = record {
  rows = record {
    legs = record {
      entries =
          (
            leg,
            record {
              query_id = query;
              origin_point_id = none;
              destination_point_id = none;
              status = LegStatus.pending_approval;
              frozen_view = "view";
            },
          )
          ∷ [];
    };
    quotes = record {
      entries =
          (
            "quote",
            record {
              query_id = query;
              rfq_id = some "rfq";
              freight_forwarder_id = "ff";
              leg_id = leg;
              status = QuoteStatus.pending_approval;
              submitted = true;
              draft = false;
              snapshot = none;
            },
          )
          ∷ [];
    };
    packages = [];
    leg_packages = [];
    change_log = [];
  };
  snapshots = record { entries = [] };
  decisions = record { entries = (leg, decision) ∷ [] };
  leg_sends =
      record { leg_id = leg; from = LegStatus.partially_quoted; reason = some "no answer" } ∷ [];
  quote_sends = record { quote_id = "quote"; from = QuoteStatus.expired } ∷ [];
  events = [];
}

own_run : approve query leg "maker" db ≡ refused self_approval
unfolding approve lock_leg is_uuid Dict.get
own_run = refl

abbrev approval_run : Run (Db String)
approval_run = fire_quote "quote" QuoteEvent.approve db.rows >>= fire_leg leg LegEvent.approve

approve_run :
    approve query leg "checker" db
    ≡ committed (approval leg "quote" "checker" decision db) approval_run
unfolding approve lock_leg is_uuid is_fully_quoted_for_decision rollup_leg_target quotes_of_leg
    Dict.get
approve_run = refl

approve-Approvable_example :
    (a : Approvable query leg "checker" db) × (Dict.get leg
        (approval leg "quote" "checker" decision db).decisions
      ≡ some (record a.decision { status = approved; decided_by_user_id = some "checker" }))
    × (LegIs (λ s. s ≡ LegStatus.pending_approval) leg db.rows
        → (rows : Db String) × (approval_run ≡ done rows)
          × QuoteIs (λ s. s ≡ QuoteStatus.approved) a.quote_id rows
          × LegIs (λ s. s ≡ LegStatus.approved) leg rows)
unfolding Dict.get
approve-Approvable_example =
    approve-Approvable query leg "checker" db (approval leg "quote" "checker" decision db)
      approval_run approve_run

-- the quote had expired when it was sent
abbrev rejection_run : Run (Db String)
rejection_run =
    fire_quote "quote" QuoteEvent.return_expired db.rows
    >>= fire_leg_return true (is_fully_quoted_for_decision leg db) leg

reject_run :
    reject query leg "too dear" "checker" db
    ≡ committed (rejection leg "too dear" "checker" decision db) rejection_run
unfolding reject lock_leg is_uuid Dict.get
reject_run = refl

reject_completes_example :
    (row : LegRow String) × (Dict.get leg db.rows.legs ≡ some row)
    × ((rows : Db String) × (rejection_run ≡ done rows)
        × (IsReviewed row.status
            → LegIs (λ s. s ≡ leg_target (is_fully_quoted_for_decision leg db)) leg rows))
    × ((d : LegAwardDecision) × (Dict.get leg
            (rejection leg "too dear" "checker" decision db).decisions
          ≡ some d)
        × (d.status ≡ draft)
        × (d.rejection_reason ≡ some "too dear")
        × (d.sent_by_user_id ≡ none))
reject_completes_example =
    reject_completes query leg "too dear" "checker" db
      (rejection leg "too dear" "checker" decision db) rejection_run reject_run
