-- ===== src/Award/Send/Guards.antt =====
-- What a send for approval needs, and what it leaves.
use logistics.Common.{
  ℕ, ◌≡◌, refl, sym, ◌⊎◌, inl, inr, Bool, true, false, ◌&&◌, not, Option, none, some, List, String,
  arith, find?, is_nil, ◌==◌, string_eq, if◌then◌else◌,
}
use logistics.Common.Dict
use logistics.Status.Vocabulary.{quote_status_eq, leg_status_eq}
use logistics.Changes.Store.{LegRow}
use logistics.Changes.Fire.{Run, ◌>>=◌}
use logistics.Award.{
  LegAwardDecision, pending_approval, AwardDb, Checked, fault, passed, is_locked, lock_row,
  AwardFault, override_reason_required,
}
use logistics.Award.Send.{
  SendForApprovalInput, Recommendation, ComparisonLeg, named_offer, is_sendable, is_past_draft,
  in_flight_requotes, proceed_override, may_send, persist_selection, matches_recommendation,
  is_text, send_permission, leg_quotes, send_write, fire_quote_send, fire_leg_send, Sending,
  not_sent, sent, send_locked, send_for_approval,
}

Checked-cases :
    {A : Type 0} (c : Checked A) → ((f : AwardFault) × (c ≡ fault f)) ⊎ ((a : A) × (c ≡ passed a))
Checked-cases (fault f) = inl (f, refl)
Checked-cases (passed a) = inr (a, refl)

-- the decision that a send writes
abbrev pub sent_decision :
    String
    → SendForApprovalInput
    → Option Recommendation
    → Option LegAwardDecision
    → LegAwardDecision
sent_decision user input rec existing = record (persist_selection input rec existing) {
  status = pending_approval;
  sent_by_user_id = some user;
}

reason_kept :
    (input : SendForApprovalInput) (rec : Option Recommendation) (e : Option LegAwardDecision)
    → (persist_selection input rec e).override_reason ≡ input.override_reason
reason_kept input rec none = refl
reason_kept input rec (some d) = refl

module _ {M : Type 0} where
  unless_sent :
      (c : Bool) (f : AwardFault) (s : Sending M) {d : LegAwardDecision} {run : Run (AwardDb M)}
      → (if c then not_sent f else s) ≡ sent d run
      → (c ≡ false) × (s ≡ sent d run)
  unless_sent true f s h = absurd (ground arith)
  unless_sent false f s h = (refl, h)

  sent-injective :
      {d e : LegAwardDecision} {r q : Run (AwardDb M)} → sent d r ≡ sent e q → (d ≡ e) × (r ≡ q)
  sent-injective h = (ground arith, ground arith)

  -- the tests that a send passed, and the run that follows it
  pub record Passed (now : ℕ) (deadline : String → Option ℕ) (query_id leg_id : String)
      (input : SendForApprovalInput) (user : String) (db : AwardDb M) (d : LegAwardDecision)
      (run : Run (AwardDb M)) : Type 0 where
    pub row : LegRow M
    pub rec : Option Recommendation
    pub unlocked : is_locked query_id db ≡ false
    pub locked_row : lock_row query_id leg_id db ≡ passed row
    pub sendable : is_sendable (find? (λ q. q.0 == input.quote_id) (leg_quotes leg_id db)) ≡ true
    pub fresh : is_past_draft (Dict.get leg_id db.decisions) ≡ false
    pub waived :
        (not (is_nil (in_flight_requotes (leg_quotes leg_id db)))
          && not (proceed_override input (leg_quotes leg_id db)))
        ≡ false
    pub allowed :
        may_send now deadline row.status
          (proceed_override input (leg_quotes leg_id db))
          (leg_quotes leg_id db)
        ≡ true
    pub explained :
        (not (matches_recommendation (persist_selection input rec (Dict.get leg_id db.decisions)))
          && not (
              is_text (persist_selection input rec (Dict.get leg_id db.decisions)).override_reason))
        ≡ false
    pub decision : d ≡ sent_decision user input rec (Dict.get leg_id db.decisions)
    pub ran : run ≡ (
        fire_quote_send input.quote_id (send_write leg_id user input d db)
        >>= fire_leg_send leg_id
            (send_permission input row.status (proceed_override input (leg_quotes leg_id db))))

  locked-Passed :
      (now : ℕ) (deadline : String → Option ℕ) (query_id leg_id : String)
      (input : SendForApprovalInput) (user : String) (db : AwardDb M) (d : LegAwardDecision)
      (run : Run (AwardDb M)) (row : LegRow M) (rec : Option Recommendation)
      → is_locked query_id db ≡ false
      → lock_row query_id leg_id db ≡ passed row
      → send_locked now deadline leg_id user input rec row db ≡ sent d run
      → Passed now deadline query_id leg_id input user db d run
  unfolding send_locked
  locked-Passed now deadline query_id leg_id input user db d run row rec unlocked locked h =
      let quotes = leg_quotes leg_id db in
      let existing = Dict.get leg_id db.decisions in
      let override = proceed_override input quotes in
      let (unfit, h1) =
        unless_sent (not (is_sendable (find? (λ q. q.0 == input.quote_id) quotes))) _ _ h in
      let (fresh, h2) = unless_sent (is_past_draft existing) _ _ h1 in
      let (waived, h3) =
        unless_sent (not (is_nil (in_flight_requotes quotes)) && not override) _ _ h2 in
      let (barred, h4) =
        unless_sent (not (may_send now deadline row.status override quotes)) _ _ h3 in
      let d' = sent_decision user input rec existing in
      let (explained, h5) =
        unless_sent
          (not (matches_recommendation (persist_selection input rec existing))
            && not (is_text (persist_selection input rec existing).override_reason))
          override_reason_required
          (sent d' (
            fire_quote_send input.quote_id (send_write leg_id user input d' db)
            >>= fire_leg_send leg_id (send_permission input row.status override)))
          h4 in
      let (same, follows) = sent-injective h5 in
      record {
        row = row;
        rec = rec;
        unlocked = unlocked;
        locked_row = locked;
        sendable = ground (arith, unfit);
        fresh = fresh;
        waived = waived;
        allowed = ground (arith, barred);
        explained = explained;
        decision = sym same;
        ran = rw (← same) (sym follows);
      }

  -- A send that is committed passed every test.
  pub send_for_approval-Passed :
      (now : ℕ) (deadline : String → Option ℕ) (comparison : List ComparisonLeg)
      (query_id leg_id : String) (input : SendForApprovalInput) (user : String) (db : AwardDb M)
      (d : LegAwardDecision) (run : Run (AwardDb M))
      → send_for_approval now deadline comparison query_id leg_id input user db ≡ sent d run
      → Passed now deadline query_id leg_id input user db d run
  unfolding send_for_approval
  send_for_approval-Passed now deadline comparison query_id leg_id input user db d run h =
      let (unlocked, h1) = unless_sent (is_locked query_id db) _ _ h in
      let offer = named_offer input (find? (λ l. l.leg_id == leg_id) comparison) in
      elim (Checked-cases offer) [
        | inl (f, e) ↦ absurd (ground (arith, e))
        | inr (rec, e) ↦ elim (Checked-cases (lock_row query_id leg_id db)) [
          | inl (f, e') ↦ absurd (ground (arith, e, e'))
          | inr (row, e') ↦
              locked-Passed now deadline query_id leg_id input user db d run row rec unlocked e'
                (rw (e, e') at h1)
        ]
      ]
