-- ===== src/Award/Quoted.antt =====
-- When a leg counts as quoted for an approval, read off the rows: latestSendForApproval and
-- isFullyQuotedForDecision of apps/api/src/modules/award/award.service.ts.
use logistics.Common.{
  ◌≡◌, ◌≢◌, refl, ◌∙◌, ◌⊎◌, inl, inr, true, Option, none, some, List, [], ◌∷◌, String, arith, All,
  All-In, In, find?, Bool-cases, ◌==◌, string_eq, eq_iff,
}
use logistics.Common.Images.{map-In, filter-In_iff, In-map}
use logistics.Status.Vocabulary.{LegStatus, QuoteStatus, leg_status_eq, quote_status_eq}
use logistics.Status.Rollup.{rollup_leg_target}
use logistics.Status.Rollup.Target.{IsQuiet, rollup_leg_target_iff}
use logistics.Changes.Store.{QuoteRow, Db}
use logistics.Changes.Fire.{quotes_of_leg}
use logistics.Award.{
  LegSend, AwardDb, latest_send, permission_of, is_from_fully_quoted, is_full_target,
  is_fully_quoted_for_decision,
}

-- The send is the first one of the leg in the list, which has the newest in front.
abbrev pub IsLatest : String → List LegSend → LegSend → Type 0
IsLatest leg_id [] s = ⊥
IsLatest leg_id (x ∷ xs) s =
    ((x.leg_id ≡ leg_id) × (x ≡ s)) ⊎ ((x.leg_id ≢ leg_id) × IsLatest leg_id xs s)

find-IsLatest :
    (leg_id : String) (sends : List LegSend) (s : LegSend)
    → find? (λ x. x.leg_id == leg_id) sends ≡ some s
    → IsLatest leg_id sends s
find-IsLatest leg_id [] s h = absurd (ground arith)
find-IsLatest leg_id (x ∷ xs) s h = elim (Bool-cases (x.leg_id == leg_id)) [
  | inl own ↦ inl ((eq_iff x.leg_id leg_id).0 own, ground (arith, own))
  | inr other ↦ inr (
    λ e. ground (arith, other, eq_iff x.leg_id leg_id, e),
    find-IsLatest leg_id xs s (rw other at h),
  )
]

some_sent :
    (qs : List QuoteStatus)
    → ¬ All (λ q. q ≡ QuoteStatus.select) qs
    → (q : QuoteStatus) × In q qs × (q ≢ QuoteStatus.select)
some_sent [] h = absurd (h tt)
some_sent (q ∷ qs) h = elim (Bool-cases (q == QuoteStatus.select)) [
  | inl unsent ↦
      let at : q ≡ QuoteStatus.select = (quote_status_eq.same_iff q QuoteStatus.select).0 unsent in
      let (p, m, sent) = some_sent qs (λ a. h (at, a)) in (p, inr m, sent)
  | inr sent ↦
      (q, inl refl, λ e. ground (arith, sent, quote_status_eq.same_iff q QuoteStatus.select, e))
]

is_full_target-some :
    (t : Option LegStatus) → is_full_target t ≡ true → t ≡ some LegStatus.fully_quoted
is_full_target-some none h = absurd (ground arith)
is_full_target-some (some t) h = ground arith

module _ {M : Type 0} where
  -- the quote is one of the leg's
  abbrev pub IsOf : String → Db M → String × QuoteRow M → Type 0
  IsOf leg_id db e = In e db.quotes.entries × (e.1.leg_id ≡ leg_id)

  -- Some quote of the leg was sent, and none is outstanding, invalid or being re-quoted.
  pub record IsSettled (leg_id : String) (db : Db M) : Type 0 where
    pub sent : (e : String × QuoteRow M) × IsOf leg_id db e × (e.1.status ≢ QuoteStatus.select)
    pub quiet : (e : String × QuoteRow M) → IsOf leg_id db e → IsQuiet e.1.status

  -- The latest send for approval was from a fully quoted leg or permitted with a reason, or the quotes
  -- are settled.
  abbrev pub IsQuoted : String → AwardDb M → Type 0
  IsQuoted leg_id db =
      ((s : LegSend) × IsLatest leg_id db.leg_sends s
        × ((s.from ≡ LegStatus.fully_quoted) ⊎ (s.reason ≢ none)))
      ⊎ IsSettled leg_id db.rows

  quotes_of_leg-In :
      (leg_id : String) (db : Db M) (q : QuoteStatus)
      → In q (quotes_of_leg leg_id db)
      → (e : String × QuoteRow M) × IsOf leg_id db e × (q ≡ e.1.status)
  unfolding quotes_of_leg
  quotes_of_leg-In leg_id db q m =
      let (e, there, at) = (map-In (λ (e : String × QuoteRow M). e.1.status) _ q).0 m in
      let (member, own) = (filter-In_iff _ db.quotes.entries e).0 there in
      (e, (member, (eq_iff e.1.leg_id leg_id).0 own), at)

  In-quotes_of_leg :
      (leg_id : String) (db : Db M) (e : String × QuoteRow M)
      → IsOf leg_id db e
      → In e.1.status (quotes_of_leg leg_id db)
  unfolding quotes_of_leg
  In-quotes_of_leg leg_id db e (m, own) =
      In-map (λ (e : String × QuoteRow M). e.1.status) _ e
        ((filter-In_iff _ db.quotes.entries e).1 (m, (eq_iff e.1.leg_id leg_id).1 own))

  full-IsSettled :
      (leg_id : String) (db : Db M)
      → rollup_leg_target (quotes_of_leg leg_id db) ≡ some LegStatus.fully_quoted
      → IsSettled leg_id db
  full-IsSettled leg_id db h =
      let qs = quotes_of_leg leg_id db in
      let (sent, quiet) = (rollup_leg_target_iff qs).0.0 h in
      let (q, m, at) = some_sent qs sent in
      let (e, own, same) = quotes_of_leg-In leg_id db q m in
      record {
        sent = (e, own, λ s. at (same ∙ s));
        quiet = λ x own_x. All-In IsQuiet qs quiet (In-quotes_of_leg leg_id db x own_x);
      }

  from-IsQuoted :
      (leg_id : String) (db : AwardDb M) (o : Option LegSend)
      → latest_send leg_id db ≡ o
      → (is_from_fully_quoted o ≡ true) ⊎ (permission_of o ≢ none)
      → IsQuoted leg_id db
  from-IsQuoted leg_id db none at (inl h) = absurd (ground arith)
  from-IsQuoted leg_id db none at (inr h) = absurd (h refl)
  from-IsQuoted leg_id db (some s) at (inl h) =
      inl (s, find-IsLatest leg_id db.leg_sends s at, inl (ground arith))
  from-IsQuoted leg_id db (some s) at (inr h) =
      inl (s, find-IsLatest leg_id db.leg_sends s at, inr h)

  pub is_fully_quoted_for_decision-IsQuoted :
      (leg_id : String) (db : AwardDb M)
      → (is_fully_quoted_for_decision leg_id db ≡ true)
        ⊎ (permission_of (latest_send leg_id db) ≢ none)
      → IsQuoted leg_id db
  unfolding is_fully_quoted_for_decision
  is_fully_quoted_for_decision-IsQuoted leg_id db (inr h) =
      from-IsQuoted leg_id db (latest_send leg_id db) refl (inr h)
  is_fully_quoted_for_decision-IsQuoted leg_id db (inl h) =
      elim (Bool-cases (is_from_fully_quoted (latest_send leg_id db))) [
        | inl from ↦ from-IsQuoted leg_id db (latest_send leg_id db) refl (inl from)
        | inr not_from ↦ inr (
            full-IsSettled leg_id db.rows (
              is_full_target-some (rollup_leg_target (quotes_of_leg leg_id db.rows))
                (ground (arith, h, not_from))))
      ]
