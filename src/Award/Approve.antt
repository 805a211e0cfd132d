-- ===== src/Award/Approve.antt =====
-- What an approval needs, and what it does.
use logistics.Common.{
  ◌≡◌, refl, subst, ap, ◌∙◌, ◌≢◌, ◌⊎◌, inl, inr, false, Option, none, some, String, arith,
  Bool-cases, Option-cases, ◌==◌, string_eq, eq_iff,
}
use logistics.Common.Dict
use logistics.Status.Vocabulary.{
  LegStatus, LegEvent, QuoteStatus, QuoteEvent, leg_status_eq, leg_event_eq, quote_status_eq,
  quote_event_eq,
}
use logistics.Status.Machine.{next_state, find_transition}
use logistics.Status.Machines.{leg_app, quote_app}
use logistics.Status.Rollup.{recompute_leg}
use logistics.Changes.Store.{LegRow, QuoteRow, Db}
use logistics.Changes.Fire.{
  Run, done, ◌>>=◌, set_leg_status, set_quote_status, fire_leg, fire_quote, project_leg,
}
use logistics.Changes.Fire.Events.{QuoteIs, LegIs, IsKept, project_leg-LegIs, project_leg-quotes}
use logistics.Award.Quoted.{IsQuoted, is_fully_quoted_for_decision-IsQuoted}
use logistics.Award.{
  LegAwardDecision, pending_approval, approved, AwardDb, committed, Checked, AwardFault, fault,
  passed, lock_leg, require_decidable, sent_by, approve_decidable, approval, approve,
}

sent_by_other : (o : Option String) (user : String) → sent_by o user ≡ false → o ≢ some user
sent_by_other none user h = ground arith
sent_by_other (some u) user h = ground (arith, eq_iff u user)

pub Checked-cases :
    {A : Type 0} (c : Checked A) → ((f : AwardFault) × (c ≡ fault f)) ⊎ ((a : A) × (c ≡ passed a))
Checked-cases (fault f) = inl (f, refl)
Checked-cases (passed a) = inr (a, refl)

require_decidable-passed :
    (o : Option LegAwardDecision) (user : String) (d : LegAwardDecision)
    → require_decidable o user ≡ passed d
    → (o ≡ some d) × (d.status ≡ pending_approval) × (sent_by d.sent_by_user_id user ≡ false)
require_decidable-passed none user d h = absurd (ground arith)
require_decidable-passed (some e) user d h = elim (Bool-cases (sent_by e.sent_by_user_id user)) [
  | inl own ↦ absurd (ground (arith, own))
  | inr other ↦
      let same : e ≡ d = ground (arith, other) in
      (
        ap some same,
        ground (arith, other),
        subst (λ x. sent_by x.sent_by_user_id user ≡ false) same other,
      )
]

-- A leg under review stays under review whatever its quotes do.
IsKept-pending : IsKept (λ s. s ≡ LegStatus.pending_approval)
unfolding recompute_leg
IsKept-pending s t e qs h r n = ground arith

approve_edges :
    (next_state quote_app QuoteStatus.pending_approval QuoteEvent.approve
      ≡ some QuoteStatus.approved)
    × (next_state leg_app LegStatus.pending_approval LegEvent.approve ≡ some LegStatus.approved)
unfolding next_state find_transition
approve_edges = (refl, refl)

module _ {M : Type 0} where
  -- `status.fire("quote", …)` on an edge that exists and does not lead to a re-quote
  pub fire_quote-next :
      (id : String) (event : QuoteEvent) (db : Db M) (row : QuoteRow M) (t : QuoteStatus)
      → Dict.get id db.quotes ≡ some row
      → next_state quote_app row.status event ≡ some t
      → (t == QuoteStatus.requoted) ≡ false
      → fire_quote id event db ≡ done (project_leg false row.leg_id (set_quote_status id row t db))
  unfolding fire_quote
  fire_quote-next id event db row t found edge other = rw (fire_quote, found, edge, other)

  pub fire_leg-next :
      (id : String) (event : LegEvent) (db : Db M) (row : LegRow M) (t : LegStatus)
      → Dict.get id db.legs ≡ some row
      → next_state leg_app row.status event ≡ some t
      → fire_leg id event db ≡ done (set_leg_status id row t db)
  unfolding fire_leg
  fire_leg-next id event db row t found edge = rw (fire_leg, found, edge)

  -- The two events of an approval bring the quote and the leg to APPROVED.
  approve_run :
      (quote_id leg_id : String) (db : Db M)
      → QuoteIs (λ s. s ≡ QuoteStatus.pending_approval) quote_id db
      → LegIs (λ s. s ≡ LegStatus.pending_approval) leg_id db
      → (db' : Db M) × ((fire_quote quote_id QuoteEvent.approve db
            >>= fire_leg leg_id LegEvent.approve)
          ≡ done db')
        × QuoteIs (λ s. s ≡ QuoteStatus.approved) quote_id db'
        × LegIs (λ s. s ≡ LegStatus.approved) leg_id db'
  approve_run quote_id leg_id db (q, found, qs) leg =
      let db0 = set_quote_status quote_id q QuoteStatus.approved db in
      let db1 = project_leg false q.leg_id db0 in
      let first =
        fire_quote-next quote_id QuoteEvent.approve db q QuoteStatus.approved found
          (ap (λ s. next_state quote_app s QuoteEvent.approve) qs ∙ approve_edges.0) refl in
      let (l, there, ls) =
        project_leg-LegIs (λ s. s ≡ LegStatus.pending_approval) IsKept-pending q.leg_id leg_id db0
          leg in
      let second =
        fire_leg-next leg_id LegEvent.approve db1 l LegStatus.approved there
          (ap (λ s. next_state leg_app s LegEvent.approve) ls ∙ approve_edges.1) in
      (
        set_leg_status leg_id l LegStatus.approved db1,
        ap (λ r. r >>= fire_leg leg_id LegEvent.approve) first ∙ second,
        (
          record q { status = QuoteStatus.approved },
          ap (Dict.get quote_id) (project_leg-quotes false q.leg_id db0)
              ∙ Dict.get-set_same quote_id _ db.quotes,
          refl,
        ),
        (record l { status = LegStatus.approved }, Dict.get-set_same leg_id _ db1.legs, refl),
      )

  -- what an approval that is committed rests on
  pub record Approvable (query_id leg_id user : String) (db : AwardDb M) : Type 0 where
    pub decision : LegAwardDecision
    pub decided : Dict.get leg_id db.decisions ≡ some decision
    pub pending : decision.status ≡ pending_approval
    pub four_eyes : decision.sent_by_user_id ≢ some user
    pub quoted : IsQuoted leg_id db
    pub unlocked : Dict.get query_id db.snapshots ≡ none
    pub quote_id : String
    pub shortlisted : decision.shortlisted_quote_id ≡ some quote_id
    pub under_review : QuoteIs (λ s. s ≡ QuoteStatus.pending_approval) quote_id db.rows

  -- the outcome of the request, and the run that follows it
  record Outcome (query_id leg_id user : String) (db after : AwardDb M) (run : Run (Db M))
      : Type 0 where
    approvable : Approvable query_id leg_id user db
    written : after ≡ approval leg_id approvable.quote_id user approvable.decision db
    fired : run ≡ (
        fire_quote approvable.quote_id QuoteEvent.approve db.rows
        >>= fire_leg leg_id LegEvent.approve)

  decided-Outcome :
      (query_id leg_id user : String) (db after : AwardDb M) (run : Run (Db M))
      (d : LegAwardDecision)
      → Dict.get leg_id db.decisions ≡ some d
      → d.status ≡ pending_approval
      → sent_by d.sent_by_user_id user ≡ false
      → Dict.get query_id db.snapshots ≡ none
      → approve_decidable leg_id user d db ≡ committed after run
      → Outcome query_id leg_id user db after run
  decided-Outcome query_id leg_id user db after run d decided pending other unlocked h =
      elim (Option-cases d.shortlisted_quote_id) [
        | inl n ↦ absurd (ground (arith, n))
        | inr (quote_id, short) ↦ elim (Option-cases (Dict.get quote_id db.rows.quotes)) [
          | inl n ↦ absurd (ground (arith, short, n))
          | inr (q, found) ↦ record {
            approvable = record {
              decision = d;
              decided = decided;
              pending = pending;
              four_eyes = sent_by_other d.sent_by_user_id user other;
              quoted =
                  is_fully_quoted_for_decision-IsQuoted leg_id db (ground (arith, short, found));
              unlocked = unlocked;
              quote_id = quote_id;
              shortlisted = short;
              under_review = (q, found, ground (arith, short, found));
            };
            written = ground (arith, short, found);
            fired = ground (arith, short, found);
          }
        ]
      ]

  pub lock_leg-passed :
      (query_id leg_id : String) (db : AwardDb M) (row : LegRow M)
      → lock_leg query_id leg_id db ≡ passed row
      → (Dict.get query_id db.snapshots ≡ none) × (Dict.get leg_id db.rows.legs ≡ some row)
  unfolding lock_leg
  lock_leg-passed query_id leg_id db row h = elim (Option-cases (Dict.get leg_id db.rows.legs)) [
    | inl n ↦ absurd (ground (arith, n))
    | inr (r, found) ↦ (ground (arith, found), ground (arith, found))
  ]

  -- An approval that is committed passed every guard.
  approve-Outcome :
      (query_id leg_id user : String) (db after : AwardDb M) (run : Run (Db M))
      → approve query_id leg_id user db ≡ committed after run
      → Outcome query_id leg_id user db after run
  unfolding approve
  approve-Outcome query_id leg_id user db after run h =
      elim (Checked-cases (lock_leg query_id leg_id db)) [
        | inl (f, e) ↦ absurd (ground (arith, e))
        | inr (row, locked) ↦
            elim (Checked-cases (require_decidable (Dict.get leg_id db.decisions) user)) [
              | inl (f, e) ↦ absurd (ground (arith, e, locked))
              | inr (d, ok) ↦
                  let (decided, pending, other) =
                    require_decidable-passed (Dict.get leg_id db.decisions) user d ok in
                  decided-Outcome query_id leg_id user db after run d decided pending other
                    (lock_leg-passed query_id leg_id db row locked).0
                    (rw (approve, locked, ok) at h)
            ]
      ]

  -- An approval is committed only if the query is not locked, the decision is pending and was sent by
  -- someone else, the leg's last send was made when it was fully quoted or was permitted with a reason, or
  -- else its quotes are settled (some sent, none outstanding, invalid or being re-quoted), and the shortlisted
  -- quote is under review; the decision is then approved by this user. If the leg is under review
  -- too, the events that follow run to their end: the quote and the leg are both APPROVED.
  pub approve-Approvable :
      (query_id leg_id user : String) (db after : AwardDb M) (run : Run (Db M))
      → approve query_id leg_id user db ≡ committed after run
      → (a : Approvable query_id leg_id user db) × (Dict.get leg_id after.decisions
          ≡ some (record a.decision { status = approved; decided_by_user_id = some user }))
        × (LegIs (λ s. s ≡ LegStatus.pending_approval) leg_id db.rows
            → (rows : Db M) × (run ≡ done rows)
              × QuoteIs (λ s. s ≡ QuoteStatus.approved) a.quote_id rows
              × LegIs (λ s. s ≡ LegStatus.approved) leg_id rows)
  approve-Approvable query_id leg_id user db after run h =
      let o = approve-Outcome query_id leg_id user db after run h in
      let a = o.approvable in
      (
        a,
        ap (λ (x : AwardDb M). Dict.get leg_id x.decisions) o.written
            ∙ Dict.get-set_same leg_id _ db.decisions,
        λ leg.
            let (rows, ran, q, l) = approve_run a.quote_id leg_id db.rows a.under_review leg in
            (rows, o.fired ∙ ran, q, l),
      )
