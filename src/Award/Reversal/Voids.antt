-- ===== src/Award/Reversal/Voids.antt =====
-- The change-order listener voids the decisions of the reopened legs, and of no other leg.
use logistics.Common.{
  ◌≡◌, refl, sym, ap, ◌∙◌, inl, inr, Bool, true, false, Option, none, some, List, [], ◌∷◌, String,
  arith, In, Bool-cases, Option-cases, ◌==◌, string_eq, eq_iff, if◌then◌else◌, includes,
  includes_iff,
}
use mathlib.Core.Option
use logistics.Common.Dict
use logistics.Changes.Scope.{unique}
use logistics.Changes.Scope.Unique.{unique-In}
use logistics.Award.{LegAwardDecision, draft, AwardDb, is_locked}
use logistics.Award.Reversal.{reset, clear_snapshot, void, void_all, on_leg_reopened}

-- A decision is wiped: a draft with nothing shortlisted, no sender, no decider and no reason for a
-- rejection, and what was recommended is kept.
abbrev pub IsVoided : Option LegAwardDecision → Option LegAwardDecision → Type 0
IsVoided none after = after ≡ none
IsVoided (some d) after =
    after
    ≡ some (record {
      status = draft;
      shortlisted_quote_id = none;
      shortlisted_variant = none;
      recommended_quote_id = d.recommended_quote_id;
      recommended_variant = d.recommended_variant;
      override_reason = d.override_reason;
      sent_by_user_id = none;
      decided_by_user_id = none;
      rejection_reason = none;
    })

reset-IsVoided : (o after : Option LegAwardDecision) → after ≡ Option.map reset o → IsVoided o after
reset-IsVoided none after h = h
reset-IsVoided (some d) after h = h

reset-reset :
    (o : Option LegAwardDecision) → Option.map reset (Option.map reset o) ≡ Option.map reset o
reset-reset none = refl
reset-reset (some d) = refl

collapse :
    (b : Bool) (o : Option LegAwardDecision)
    → Option.map reset (if b then Option.map reset o else o) ≡ Option.map reset o
collapse true o = reset-reset o
collapse false o = refl

module _ {M : Type 0} (query_id reason : String) where
  decisions-void :
      (l k : String) (db : AwardDb M)
      → Dict.get k (void query_id reason l db).decisions
        ≡ (if l == k then Option.map reset (Dict.get k db.decisions) else Dict.get k db.decisions)
  decisions-void l k db = elim (Option-cases (Dict.get l db.decisions)) [
    | inl n ↦ ground (arith, n, eq_iff l k)
    | inr (d, e) ↦ ground (arith, e, eq_iff l k, Dict.get-set l k (reset d) db.decisions)
  ]

  rows-void : (l : String) (db : AwardDb M) → (void query_id reason l db).rows ≡ db.rows
  rows-void l db = ground arith

  decisions-void_all :
      (ls : List String) (k : String) (db : AwardDb M)
      → (In k ls
          → Dict.get k (void_all query_id reason ls db).decisions
            ≡ Option.map reset (Dict.get k db.decisions))
        × (¬ In k ls
            → Dict.get k (void_all query_id reason ls db).decisions ≡ Dict.get k db.decisions)
        × ((void_all query_id reason ls db).rows ≡ db.rows)
  unfolding void_all
  decisions-void_all [] k db = (λ m. absurd m, λ _. refl, refl)
  decisions-void_all (l ∷ ls) k db =
      let rest = decisions-void_all ls k (void query_id reason l db) in
      let first = decisions-void l k db in
      (
        λ m. elim (Bool-cases (includes ls k)) [
          | inl again ↦
              rest.0 ((includes_iff ls k).0 again)
              ∙ ap (Option.map reset) first
              ∙ collapse (l == k) (Dict.get k db.decisions)
          | inr last ↦
              let absent : ¬ In k ls = λ m'. ground (arith, (includes_iff ls k).1 m', last) in
              let here : (l == k) ≡ true = elim m [
                | inl e ↦ (eq_iff l k).1 (sym e)
                | inr m' ↦ absurd (absent m')
              ] in
              rest.1 absent ∙ first ∙ rw here refl
        ],
        λ n.
            let other : (l == k) ≡ false = ground (arith, eq_iff l k, λ (e : k ≡ l). n (inl e)) in
            rest.1 (λ m. n (inr m)) ∙ first ∙ rw other refl,
        rest.2 ∙ rows-void l db,
      )

  clear_snapshot-same :
      (db : AwardDb M)
      → ((clear_snapshot query_id db).decisions ≡ db.decisions)
        × ((clear_snapshot query_id db).rows ≡ db.rows)
        × (is_locked query_id (clear_snapshot query_id db) ≡ false)
  clear_snapshot-same db =
      ground (arith, Dict.get-delete query_id query_id db.snapshots, eq_iff query_id query_id)

  -- After a change order has reopened legs, the decision of each that had one is a draft with nothing
  -- shortlisted, no sender, no decider and no reason for a rejection, and keeps what was recommended; a leg that had none has none, the decisions of all other
  -- legs are as they were, the query is not locked, and no leg's or quote's row has changed.
  pub on_leg_reopened-decisions :
      (leg_ids : List String) (db : AwardDb M)
      → let after = on_leg_reopened query_id reason leg_ids db in
        ((k : String)
          → (In k leg_ids → IsVoided (Dict.get k db.decisions) (Dict.get k after.decisions))
            × (¬ In k leg_ids → Dict.get k after.decisions ≡ Dict.get k db.decisions))
        × (is_locked query_id after ≡ false)
        × (after.rows ≡ db.rows)
  unfolding on_leg_reopened
  on_leg_reopened-decisions leg_ids db =
      let voided = void_all query_id reason (unique leg_ids) db in
      let (same, rows, open_) = clear_snapshot-same voided in
      let all = λ (k : String). decisions-void_all (unique leg_ids) k db in
      (
        λ k. (
          λ m.
              reset-IsVoided (Dict.get k db.decisions) _
                (ap (Dict.get k) same ∙ (all k).0 ((unique-In leg_ids k).1 m)),
          λ n. ap (Dict.get k) same ∙ (all k).1 (λ m. n ((unique-In leg_ids k).0 m)),
        ),
        open_,
        rows ∙ (all "").2,
      )
