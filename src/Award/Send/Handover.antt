-- ===== src/Award/Send/Handover.antt =====
-- A send hands over to a checker: its events run to their end, and what it leaves can be approved.
use logistics.Common.{
  ℕ, ◌≡◌, refl, sym, subst, ap, ◌∙◌, ◌≢◌, ◌⊎◌, inl, inr, Bool, true, false, Option, none, some,
  List, ◌∷◌, String, arith, IsDistinct, Bool-cases, Option-cases, ◌==◌, string_eq, eq_iff,
}
use logistics.Common.Dict
use logistics.Status.Vocabulary.{
  LegStatus, LegEvent, QuoteStatus, QuoteEvent, leg_status_eq, leg_event_eq, quote_status_eq,
  quote_event_eq,
}
use logistics.Status.Machine.{next_state, find_transition}
use logistics.Status.Machines.{leg_app, quote_app}
use logistics.Status.Rollup.{recompute_leg}
use logistics.Changes.Store.{LegRow, QuoteRow, Db}
use logistics.Changes.Fire.{
  Run, done, ◌>>=◌, set_leg_status, set_quote_status, project_leg, fire_quote, fire_leg,
}
use logistics.Changes.Fire.Events.{
  QuoteIs, LegIs, IsKept, project_leg-LegIs, project_leg-row, project_leg-quotes,
}
use logistics.Award.{
  LegAwardDecision, pending_approval, AwardDb, committed, passed, is_locked, lock_row, lock_leg,
  require_decidable, approve, is_fully_quoted_for_decision, permission_of, latest_send, approval,
}
use logistics.Award.Approve.{fire_quote-next, fire_leg-next}
use logistics.Award.Send.{
  SendForApprovalInput, ComparisonLeg, log_quote_send, log_leg_send, send_write, fire_quote_send,
  fire_leg_send, send_permission, proceed_override, leg_quotes, sent, send_for_approval,
}
use logistics.Award.Send.Guards.{send_for_approval-Passed}
use logistics.Award.Send.Sendable.{named_row, lock_row-passed, send_for_approval-Sendable}

-- PARTIALLY_QUOTED or FULLY_QUOTED
abbrev pub IsQuoted : LegStatus → Type 0
IsQuoted s = (s ≡ LegStatus.partially_quoted) ⊎ (s ≡ LegStatus.fully_quoted)

-- What the projector does on a quote's event keeps a leg quoted, and a fully quoted one so.
IsKept-IsQuoted : IsKept IsQuoted × IsKept (λ s. s ≡ LegStatus.fully_quoted)
unfolding recompute_leg next_state find_transition
IsKept-IsQuoted = (λ s t e qs h r n. ground arith, λ s t e qs h r n. ground arith)

send_edges :
    (q : QuoteStatus) (l : LegStatus)
    → ((q ≡ QuoteStatus.quoted) ⊎ (q ≡ QuoteStatus.expired)
        → next_state quote_app q QuoteEvent.send_for_approval ≡ some QuoteStatus.pending_approval)
      × (IsQuoted l
          → next_state leg_app l LegEvent.send_for_approval ≡ some LegStatus.pending_approval)
unfolding next_state find_transition
send_edges q l = (λ h. ground arith, λ h. ground arith)

-- a send that was not from a fully quoted leg records why it was permitted
send_permission_cases :
    (input : SendForApprovalInput) (s : LegStatus) (override : Bool)
    → (s ≡ LegStatus.fully_quoted) ⊎ (send_permission input s override ≢ none)
send_permission_cases input s override = elim (Bool-cases (s == LegStatus.fully_quoted)) [
  | inl full ↦ inl (ground (arith, full))
  | inr short ↦ inr (λ n. ground (arith, short, n))
]

module _ {M : Type 0} where
  -- the rows and the log after the quote's event
  abbrev pub after_quote : String → QuoteRow M → AwardDb M → AwardDb M
  after_quote id q db = record db {
    rows = project_leg false q.leg_id (set_quote_status id q QuoteStatus.pending_approval db.rows);
    quote_sends = record { quote_id = id; from = q.status } ∷ db.quote_sends;
  }

  -- and after the leg's
  abbrev pub after_leg : String → LegRow M → Option String → AwardDb M → AwardDb M
  after_leg id l reason db = record db {
    rows = set_leg_status id l LegStatus.pending_approval db.rows;
    leg_sends = record { leg_id = id; from = l.status; reason = reason } ∷ db.leg_sends;
  }

  pub fire_quote_send-done :
      (id : String) (q : QuoteRow M) (db : AwardDb M)
      → Dict.get id db.rows.quotes ≡ some q
      → (q.status ≡ QuoteStatus.quoted) ⊎ (q.status ≡ QuoteStatus.expired)
      → fire_quote_send id db ≡ done (after_quote id q db)
  unfolding fire_quote_send
  fire_quote_send-done id q db found live =
      let fired =
        fire_quote-next id QuoteEvent.send_for_approval db.rows q QuoteStatus.pending_approval found
          ((send_edges q.status LegStatus.draft).0 live) refl in
      rw (fire_quote_send, fired, log_quote_send, found) refl

  fire_leg_send-done :
      (id : String) (l : LegRow M) (reason : Option String) (db : AwardDb M)
      → Dict.get id db.rows.legs ≡ some l
      → IsQuoted l.status
      → fire_leg_send id reason db ≡ done (after_leg id l reason db)
  unfolding fire_leg_send
  fire_leg_send-done id l reason db found quoted =
      let fired =
        fire_leg-next id LegEvent.send_for_approval db.rows l LegStatus.pending_approval found
          ((send_edges QuoteStatus.select l.status).1 quoted) in
      rw (fire_leg_send, fired, log_leg_send, found) refl

  -- the leg's row after the quote's event
  leg_after :
      (k leg_id : String) (db : Db M) (row : LegRow M)
      → Dict.get leg_id db.legs ≡ some row
      → IsQuoted row.status
      → (l : LegRow M) × (Dict.get leg_id (project_leg false k db).legs ≡ some l)
        × (l.query_id ≡ row.query_id)
        × IsQuoted l.status
        × (row.status ≡ LegStatus.fully_quoted → l.status ≡ LegStatus.fully_quoted)
  leg_after k leg_id db row found quoted =
      let (t, at) = project_leg-row k leg_id db row found in
      let same : (r : LegRow M)
          → Dict.get leg_id (project_leg false k db).legs ≡ some r
          → r.status ≡ t =
        λ r e. ground (arith, e, at) in
      let (r, there, q) =
        project_leg-LegIs IsQuoted IsKept-IsQuoted.0 k leg_id db (row, found, quoted) in
      (
        record row { status = t },
        at,
        refl,
        subst IsQuoted (same r there) q,
        λ full.
            let (r', there', f) =
              project_leg-LegIs (λ s. s ≡ LegStatus.fully_quoted) IsKept-IsQuoted.1 k leg_id db
                (row, found, full) in
            sym (same r' there') ∙ f,
      )

  pub lock_leg-passed_of :
      (query_id leg_id : String) (db db' : AwardDb M) (row l : LegRow M)
      → is_locked query_id db' ≡ false
      → lock_row query_id leg_id db ≡ passed row
      → Dict.get leg_id db'.rows.legs ≡ some l
      → l.query_id ≡ row.query_id
      → lock_leg query_id leg_id db' ≡ passed l
  unfolding lock_leg
  lock_leg-passed_of query_id leg_id db db' row l unlocked locked found same =
      let there = lock_row-passed query_id leg_id db row locked in ground (arith, there)

  -- A checker other than the sender can approve the decision.
  approve-committed :
      (query_id leg_id quote_id user checker : String) (db : AwardDb M) (l : LegRow M)
      (d : LegAwardDecision)
      → lock_leg query_id leg_id db ≡ passed l
      → Dict.get leg_id db.decisions ≡ some d
      → d.status ≡ pending_approval
      → d.sent_by_user_id ≡ some user
      → checker ≢ user
      → d.shortlisted_quote_id ≡ some quote_id
      → (is_fully_quoted_for_decision leg_id db ≡ true)
        ⊎ (permission_of (latest_send leg_id db) ≢ none)
      → QuoteIs (λ s. s ≡ QuoteStatus.pending_approval) quote_id db.rows
      → (db' : AwardDb M) × (run : Run (Db M)) × (approve query_id leg_id checker db
          ≡ committed db' run)
  unfolding approve
  approve-committed query_id leg_id quote_id user checker db l d locked found pending by other short
        permitted (q, there, under) =
      let can : require_decidable (Dict.get leg_id db.decisions) checker ≡ passed d =
        ground (arith, found, eq_iff user checker) in
      let after = approval leg_id quote_id checker d db in
      let run =
        fire_quote quote_id QuoteEvent.approve db.rows >>= fire_leg leg_id LegEvent.approve in
      elim (Bool-cases (is_fully_quoted_for_decision leg_id db)) [
        | inl full ↦
            (after, run, rw (approve, locked, can) (ground (arith, full, short, there, under)))
        | inr part ↦ elim (Option-cases (permission_of (latest_send leg_id db))) [
          | inl n ↦ absurd (ground (arith, part, n))
          | inr (reason, e) ↦
              (after, run, rw (approve, locked, can) (ground (arith, part, e, short, there, under)))
        ]
      ]

  -- what the two events leave on the log is what the guard of an approval reads
  permitted :
      (leg_id : String) (input : SendForApprovalInput) (row l : LegRow M) (override : Bool)
      (db : AwardDb M)
      → (row.status ≡ LegStatus.fully_quoted → l.status ≡ LegStatus.fully_quoted)
      → let after = after_leg leg_id l (send_permission input row.status override) db in
        (is_fully_quoted_for_decision leg_id after ≡ true)
        ⊎ (permission_of (latest_send leg_id after) ≢ none)
  unfolding is_fully_quoted_for_decision
  permitted leg_id input row l override db keeps =
      let mine : (leg_id == leg_id) ≡ true = (eq_iff leg_id leg_id).1 refl in
      elim (send_permission_cases input row.status override) [
        | inl full ↦ inl (rw (mine, keeps full) refl)
        | inr given ↦ inr (λ n. given (rw mine at n))
      ]

  -- Where quote ids are unique and the leg is PARTIALLY_QUOTED or FULLY_QUOTED, both status events of
  -- a committed send succeed: the quote and the leg are under review, and the decision that was
  -- returned is on the leg. Any user but the sender can then approve it: the approval is committed,
  -- whatever permitted the send.
  pub send_for_approval-approve :
      (now : ℕ) (deadline : String → Option ℕ) (comparison : List ComparisonLeg)
      (query_id leg_id : String) (input : SendForApprovalInput) (user : String) (db : AwardDb M)
      (d : LegAwardDecision) (run : Run (AwardDb M))
      → IsDistinct (Dict.keys db.rows.quotes)
      → LegIs IsQuoted leg_id db.rows
      → send_for_approval now deadline comparison query_id leg_id input user db ≡ sent d run
      → (after : AwardDb M) × (run ≡ done after)
        × QuoteIs (λ s. s ≡ QuoteStatus.pending_approval) input.quote_id after.rows
        × LegIs (λ s. s ≡ LegStatus.pending_approval) leg_id after.rows
        × (Dict.get leg_id after.decisions ≡ some d)
        × ((checker : String)
            → checker ≢ user
            → (db' : AwardDb M) × (run' : Run (Db M)) × (approve query_id leg_id checker after
                ≡ committed db' run'))
  send_for_approval-approve now deadline comparison query_id leg_id input user db d run distinct
        (r, fr, rq) h =
      let p =
        send_for_approval-Passed now deadline comparison query_id leg_id input user db d run h in
      let (_, pending, short, by) =
        send_for_approval-Sendable now deadline comparison query_id leg_id input user db d run
          distinct h in
      let (q, named, _, live) = named_row leg_id input.quote_id db distinct p.sendable in
      let found = lock_row-passed query_id leg_id db p.row p.locked_row in
      let same : r ≡ p.row = ground (arith, fr, found) in
      let quoted : IsQuoted p.row.status = subst (λ (x : LegRow M). IsQuoted x.status) same rq in
      let db0 = send_write leg_id user input d db in
      let db1 = after_quote input.quote_id q db0 in
      let (l, there, own, at, keeps) =
        leg_after q.leg_id leg_id
          (set_quote_status input.quote_id q QuoteStatus.pending_approval db.rows) p.row found
          quoted in
      let override = proceed_override input (leg_quotes leg_id db) in
      let reason = send_permission input p.row.status override in
      let after = after_leg leg_id l reason db1 in
      let l' = record l { status = LegStatus.pending_approval } in
      let decided = Dict.get-set_same leg_id d db.decisions in
      let reviewed : Dict.get leg_id after.rows.legs ≡ some l' =
        Dict.get-set_same leg_id l' db1.rows.legs in
      let under : QuoteIs (λ s. s ≡ QuoteStatus.pending_approval) input.quote_id after.rows = (
        record q { status = QuoteStatus.pending_approval },
        ap (Dict.get input.quote_id) (
              project_leg-quotes false q.leg_id
                (set_quote_status input.quote_id q QuoteStatus.pending_approval db.rows))
            ∙ Dict.get-set_same input.quote_id _ db.rows.quotes,
        refl,
      ) in
      (
        after,
        p.ran
            ∙ ap (λ x. x >>= fire_leg_send leg_id reason)
                (fire_quote_send-done input.quote_id q db0 named live)
            ∙ fire_leg_send-done leg_id l reason db1 there at,
        under,
        (l', reviewed, refl),
        decided,
        λ checker other.
            approve-committed query_id leg_id input.quote_id user checker after l' d
              (lock_leg-passed_of query_id leg_id db after p.row l' p.unlocked p.locked_row reviewed
                own)
              decided pending by other short (permitted leg_id input p.row l override db1 keeps)
              under,
      )
