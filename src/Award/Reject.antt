-- ===== src/Award/Reject.antt =====
-- A rejection is always possible: once it is committed, the events that follow run to their end.
use logistics.Common.{
  ◌≡◌, refl, sym, ap, ◌∙◌, ◌⊎◌, inl, inr, Bool, true, false, Option, none, some, String, arith,
  Bool-cases, Option-cases, ◌==◌, string_eq, if◌then◌else◌, includes,
}
use logistics.Common.Dict
use logistics.Status.Vocabulary.{
  LegStatus, LegEvent, QuoteStatus, QuoteEvent, leg_status_eq, leg_event_eq, quote_status_eq,
  quote_event_eq,
}
use logistics.Status.Machine.{next_state, find_transition}
use logistics.Status.Machines.{leg_app, quote_app}
use logistics.Status.Rollup.{recompute_leg}
use logistics.Changes.Store.{LegRow, QuoteRow, Db}
use logistics.Changes.Fire.{Run, done, ◌>>=◌, set_leg_status, set_quote_status, project_leg}
use logistics.Changes.Fire.Events.{LegIs, IsKept, project_leg-LegIs}
use logistics.Award.{
  LegAwardDecision, draft, AwardDb, committed, lock_leg, is_fully_quoted_for_decision,
  require_rejectable, leg_reversible_from, return_event, quote_return, fire_return, fire_leg_return,
  reject,
}
use logistics.Award.Approve.{fire_quote-next, fire_leg-next, Checked-cases, lock_leg-passed}

-- under review or approved
abbrev pub IsReviewed : LegStatus → Type 0
IsReviewed s = (s ≡ LegStatus.pending_approval) ⊎ (s ≡ LegStatus.approved)

-- Such a leg stays where it is whatever its quotes do.
IsKept-at : (s₀ : LegStatus) → IsReviewed s₀ → IsKept (λ s. s ≡ s₀)
unfolding recompute_leg
IsKept-at s₀ reviewed s t e qs h r n = ground arith

-- where a leg goes back to
abbrev pub leg_target : Bool → LegStatus
leg_target full = if full then LegStatus.fully_quoted else LegStatus.partially_quoted

leg_edges :
    (s : LegStatus) (full : Bool)
    → IsReviewed s
    → next_state leg_app s (if full then LegEvent.return_full else LegEvent.return_partial)
      ≡ some (leg_target full)
unfolding next_state find_transition
leg_edges s full h = ground arith

reversible_iff : (s : LegStatus) → includes leg_reversible_from s ≡ true → IsReviewed s
reversible_iff s h = ground arith

not_reviewed : (s : LegStatus) → IsReviewed s → includes leg_reversible_from s ≡ false → ⊥
not_reviewed s r n = ground arith

module _ {M : Type 0} where
  -- The event that takes a quote back is one that its status allows.
  return_event-next :
      (quote_id : String) (s : QuoteStatus) (e : QuoteEvent) (db : AwardDb M)
      → return_event quote_id s db ≡ some e
      → (next_state quote_app s e ≡ some QuoteStatus.quoted)
        ⊎ (next_state quote_app s e ≡ some QuoteStatus.expired)
  unfolding next_state find_transition
  return_event-next quote_id s e db h = ground arith

  committed-injective :
      {a b : AwardDb M} {r q : Run (Db M)} → committed a r ≡ committed b q → (a ≡ b) × (r ≡ q)
  committed-injective h = (ground arith, ground arith)

  fired :
      (quote_id leg_id : String) (db : AwardDb M) (q : QuoteRow M) (e : QuoteEvent)
      (t : QuoteStatus) (s₀ : LegStatus)
      → Dict.get quote_id db.rows.quotes ≡ some q
      → return_event quote_id q.status db ≡ some e
      → next_state quote_app q.status e ≡ some t
      → (t == QuoteStatus.requoted) ≡ false
      → (db' : Db M) × (fire_return (quote_return (some quote_id) db) db.rows ≡ done db')
        × (IsReviewed s₀ → LegIs (λ s. s ≡ s₀) leg_id db.rows → LegIs (λ s. s ≡ s₀) leg_id db')
  fired quote_id leg_id db q e t s₀ found event edge other =
      let db0 = set_quote_status quote_id q t db.rows in
      let returns : quote_return (some quote_id) db ≡ some (quote_id, e) =
        ground (arith, found, event) in
      (
        project_leg false q.leg_id db0,
        ap (λ o. fire_return o db.rows) returns
            ∙ fire_quote-next quote_id e db.rows q t found edge other,
        λ r here. project_leg-LegIs (λ s. s ≡ s₀) (IsKept-at s₀ r) q.leg_id leg_id db0 here,
      )

  -- the quote's event, if there is one, and where it leaves the leg
  fire_return-LegIs :
      (o : Option String) (leg_id : String) (db : AwardDb M) (s₀ : LegStatus)
      → (db' : Db M) × (fire_return (quote_return o db) db.rows ≡ done db')
        × (IsReviewed s₀ → LegIs (λ s. s ≡ s₀) leg_id db.rows → LegIs (λ s. s ≡ s₀) leg_id db')
  fire_return-LegIs none leg_id db s₀ = (db.rows, refl, λ _ here. here)
  fire_return-LegIs (some quote_id) leg_id db s₀ =
      elim (Option-cases (Dict.get quote_id db.rows.quotes)) [
        | inl n ↦ (db.rows, ground (arith, n), λ _ here. here)
        | inr (q, found) ↦ elim (Option-cases (return_event quote_id q.status db)) [
          | inl n ↦ (db.rows, ground (arith, found, n), λ _ here. here)
          | inr (e, event) ↦ elim (return_event-next quote_id q.status e db event) [
            | inl edge ↦ fired quote_id leg_id db q e QuoteStatus.quoted s₀ found event edge refl
            | inr edge ↦ fired quote_id leg_id db q e QuoteStatus.expired s₀ found event edge refl
          ]
        ]
      ]

  -- The leg is under review or approved, and the run leaves it at the status that its quotes justify.
  return_run :
      (o : Option String) (leg_id : String) (db : AwardDb M) (row : LegRow M) (full : Bool)
      → Dict.get leg_id db.rows.legs ≡ some row
      → (db' : Db M) × ((fire_return (quote_return o db) db.rows
            >>= fire_leg_return (includes leg_reversible_from row.status) full leg_id)
          ≡ done db')
        × (IsReviewed row.status → LegIs (λ s. s ≡ leg_target full) leg_id db')
  return_run o leg_id db row full found =
      let (db1, first, kept) = fire_return-LegIs o leg_id db row.status in
      elim (Bool-cases (includes leg_reversible_from row.status)) [
        | inl can ↦
            let reviewed = reversible_iff row.status can in
            let (l, there, at) = kept reviewed (row, found, refl) in
            let event = if full then LegEvent.return_full else LegEvent.return_partial in
            (
              set_leg_status leg_id l (leg_target full) db1,
              rw (first, can)
                  (fire_leg-next leg_id event db1 l (leg_target full) there
                    (ap (λ s. next_state leg_app s event) at ∙ leg_edges row.status full reviewed)),
              λ _. (
                record l { status = leg_target full },
                Dict.get-set_same leg_id _ db1.legs,
                refl,
              ),
            )
        | inr cannot ↦
            (db1, rw (first, cannot) refl, λ r. absurd (not_reviewed row.status r cannot))
      ]

  -- A rejection that is committed never fails in the events that follow. The leg, if it was under review
  -- or approved, is FULLY_QUOTED or PARTIALLY_QUOTED as its send or its quotes justify, and the decision
  -- is a draft again that keeps the reason.
  pub reject_completes :
      (query_id leg_id reason user : String) (db after : AwardDb M) (run : Run (Db M))
      → reject query_id leg_id reason user db ≡ committed after run
      → (row : LegRow M) × (Dict.get leg_id db.rows.legs ≡ some row)
        × ((rows : Db M) × (run ≡ done rows)
            × (IsReviewed row.status
                → LegIs (λ s. s ≡ leg_target (is_fully_quoted_for_decision leg_id db)) leg_id rows))
        × ((d : LegAwardDecision) × (Dict.get leg_id after.decisions ≡ some d)
            × (d.status ≡ draft)
            × (d.rejection_reason ≡ some reason)
            × (d.sent_by_user_id ≡ none))
  unfolding reject
  reject_completes query_id leg_id reason user db after run h =
      elim (Checked-cases (lock_leg query_id leg_id db)) [
        | inl (f, e) ↦ absurd (ground (arith, e))
        | inr (row, locked) ↦
            elim (Checked-cases (require_rejectable (Dict.get leg_id db.decisions) user)) [
              | inl (f, e) ↦ absurd (ground (arith, e, locked))
              | inr (d, ok) ↦
                  let found = (lock_leg-passed query_id leg_id db row locked).1 in
                  let full = is_fully_quoted_for_decision leg_id db in
                  let (rows, ran, leg) =
                    return_run d.shortlisted_quote_id leg_id db row full found in
                  let (wrote, follows) = committed-injective (rw (reject, locked, ok) at h) in
                  (
                    row,
                    found,
                    (rows, sym follows ∙ ran, leg),
                    (
                      _,
                      ap (λ (x : AwardDb M). Dict.get leg_id x.decisions) (sym wrote)
                          ∙ Dict.get-set_same leg_id _ db.decisions,
                      refl,
                      refl,
                      refl,
                    ),
                  )
            ]
      ]
