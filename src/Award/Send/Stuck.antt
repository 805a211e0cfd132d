-- ===== src/Award/Send/Stuck.antt =====
-- A send that is committed on a leg that is still RFQ_SENT fails in the leg's status event.
use logistics.Common.{
  ℕ, ◌≡◌, refl, sym, subst, ap, ◌∙◌, ◌≢◌, ◌⊎◌, false, Option, none, some, List, String, arith,
  IsDistinct, string_eq, eq_iff,
}
use logistics.Common.Dict
use logistics.Status.Vocabulary.{LegStatus, LegEvent, QuoteStatus, leg_status_eq, leg_event_eq}
use logistics.Status.Machine.{next_state, find_transition}
use logistics.Status.Machines.{leg_app}
use logistics.Status.Rollup.{recompute_leg, rollup_leg_target}
use logistics.Status.Rollup.Walk.{filter_same}
use logistics.Changes.Store.{LegRow, QuoteRow, Db}
use logistics.Changes.Fire.{
  Run, thrown, illegal_leg, ◌>>=◌, set_quote_status, project_leg, quotes_of_leg, fire_leg,
}
use logistics.Changes.Fire.Events.{QuoteIs, LegIs}
use logistics.Award.{
  LegAwardDecision, pending_approval, AwardDb, refused, not_fully_quoted, passed, lock_leg,
  require_decidable, approve, is_fully_quoted_for_decision, latest_send,
}
use logistics.Award.Send.{
  SendForApprovalInput, ComparisonLeg, send_write, fire_leg_send, send_permission, proceed_override,
  leg_quotes, sent, send_for_approval,
}
use logistics.Award.Send.Guards.{send_for_approval-Passed}
use logistics.Award.Send.Sendable.{named_row, lock_row-passed, send_for_approval-Sendable}
use logistics.Award.Send.Handover.{after_quote, fire_quote_send-done, lock_leg-passed_of}

no_edge : next_state leg_app LegStatus.rfq_sent LegEvent.send_for_approval ≡ none
unfolding next_state find_transition
no_edge = refl

stays_sent :
    (qs : List QuoteStatus)
    → rollup_leg_target qs ≡ none
    → recompute_leg false LegStatus.rfq_sent qs ≡ none
unfolding recompute_leg
stays_sent qs h = ground (arith, filter_same qs)

module _ {M : Type 0} where
  project_leg_same :
      (id : String) (db : Db M) (row : LegRow M)
      → Dict.get id db.legs ≡ some row
      → row.status ≡ LegStatus.rfq_sent
      → rollup_leg_target (quotes_of_leg id db) ≡ none
      → project_leg false id db ≡ db
  unfolding project_leg
  project_leg_same id db row found at h =
      let still : recompute_leg false row.status (quotes_of_leg id db) ≡ none =
        rw at (stays_sent (quotes_of_leg id db) h) in
      ground (arith, found, still)

  fire_leg_send-thrown :
      (id : String) (l : LegRow M) (reason : Option String) (db : AwardDb M)
      → Dict.get id db.rows.legs ≡ some l
      → l.status ≡ LegStatus.rfq_sent
      → fire_leg_send id reason db
        ≡ thrown (illegal_leg LegStatus.rfq_sent LegEvent.send_for_approval) db
  unfolding fire_leg_send fire_leg
  fire_leg_send-thrown id l reason db found at = ground (arith, found, no_edge)

  approve-refused :
      (query_id leg_id user checker : String) (db : AwardDb M) (l : LegRow M) (d : LegAwardDecision)
      → lock_leg query_id leg_id db ≡ passed l
      → Dict.get leg_id db.decisions ≡ some d
      → d.status ≡ pending_approval
      → d.sent_by_user_id ≡ some user
      → checker ≢ user
      → latest_send leg_id db ≡ none
      → rollup_leg_target (quotes_of_leg leg_id db.rows) ≡ none
      → approve query_id leg_id checker db ≡ refused not_fully_quoted
  unfolding approve is_fully_quoted_for_decision
  approve-refused query_id leg_id user checker db l d locked found pending by other unsent target =
      let can : require_decidable (Dict.get leg_id db.decisions) checker ≡ passed d =
        ground (arith, found, eq_iff user checker) in
      rw (approve, locked, can) (ground (arith, unsent, target))

  -- Where quote ids are unique, the leg is RFQ_SENT, it was never sent for approval before, and its
  -- quotes give no target once the named one is under review: a send that is committed ends with an
  -- illegal transition of the leg. The decision and the quote are left under review, the leg is still
  -- RFQ_SENT, and every approval by another user is refused as not fully quoted.
  pub send_for_approval-stuck :
      (now : ℕ) (deadline : String → Option ℕ) (comparison : List ComparisonLeg)
      (query_id leg_id : String) (input : SendForApprovalInput) (user : String) (db : AwardDb M)
      (d : LegAwardDecision) (run : Run (AwardDb M)) (row : LegRow M) (quote : QuoteRow M)
      → IsDistinct (Dict.keys db.rows.quotes)
      → Dict.get leg_id db.rows.legs ≡ some row
      → row.status ≡ LegStatus.rfq_sent
      → latest_send leg_id db ≡ none
      → Dict.get input.quote_id db.rows.quotes ≡ some quote
      → rollup_leg_target (
          quotes_of_leg leg_id
            (set_quote_status input.quote_id quote QuoteStatus.pending_approval db.rows))
        ≡ none
      → send_for_approval now deadline comparison query_id leg_id input user db ≡ sent d run
      → (after : AwardDb M) × (run
          ≡ thrown (illegal_leg LegStatus.rfq_sent LegEvent.send_for_approval) after)
        × (Dict.get leg_id after.decisions ≡ some d)
        × (d.status ≡ pending_approval)
        × QuoteIs (λ s. s ≡ QuoteStatus.pending_approval) input.quote_id after.rows
        × LegIs (λ s. s ≡ LegStatus.rfq_sent) leg_id after.rows
        × ((checker : String)
            → checker ≢ user
            → approve query_id leg_id checker after ≡ refused not_fully_quoted)
  send_for_approval-stuck now deadline comparison query_id leg_id input user db d run row quote
        distinct found at unsent named target h =
      let p =
        send_for_approval-Passed now deadline comparison query_id leg_id input user db d run h in
      let (_, pending, _, by) =
        send_for_approval-Sendable now deadline comparison query_id leg_id input user db d run
          distinct h in
      let (q, named', on_leg, live') = named_row leg_id input.quote_id db distinct p.sendable in
      let same : q ≡ quote = ground (arith, named', named) in
      let mine : quote.leg_id ≡ leg_id =
        subst (λ (x : QuoteRow M). x.leg_id ≡ leg_id) same on_leg in
      let live =
        subst
          (λ (x : QuoteRow M). (x.status ≡ QuoteStatus.quoted) ⊎ (x.status ≡ QuoteStatus.expired))
          same live' in
      let rows0 = set_quote_status input.quote_id quote QuoteStatus.pending_approval db.rows in
      let kept : project_leg false quote.leg_id rows0 ≡ rows0 =
        subst (λ k. project_leg false k rows0 ≡ rows0) (sym mine)
          (project_leg_same leg_id rows0 row found at target) in
      let after = record (after_quote input.quote_id quote (send_write leg_id user input d db)) {
        rows = rows0;
      } in
      let reached : after_quote input.quote_id quote (send_write leg_id user input d db) ≡ after =
        ap
          (λ (x : Db M).
            record (after_quote input.quote_id quote (send_write leg_id user input d db)) {
              rows = x;
            })
          kept in
      let reason =
        send_permission input p.row.status (proceed_override input (leg_quotes leg_id db)) in
      let there = lock_row-passed query_id leg_id db p.row p.locked_row in
      let one : p.row ≡ row = ground (arith, there, found) in
      let decided = Dict.get-set_same leg_id d db.decisions in
      (
        after,
        p.ran
            ∙ ap (λ x. x >>= fire_leg_send leg_id reason)
                (fire_quote_send-done input.quote_id quote (send_write leg_id user input d db) named
                  live)
            ∙ ap (fire_leg_send leg_id reason) reached
            ∙ fire_leg_send-thrown leg_id row reason after found at,
        decided,
        pending,
        (
          record quote { status = QuoteStatus.pending_approval },
          Dict.get-set_same input.quote_id _ db.rows.quotes,
          refl,
        ),
        (row, found, at),
        λ checker other.
            approve-refused query_id leg_id user checker after row d
              (lock_leg-passed_of query_id leg_id db after p.row row p.unlocked p.locked_row found
                (ap (λ (x : LegRow M). x.query_id) (sym one)))
              decided pending by other unsent target,
      )
