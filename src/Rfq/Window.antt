-- ===== src/Rfq/Window.antt =====
-- apps/api/src/modules/rfq/rfq.service.ts, `resetDeadlineAndRearm`, which gives an RFQ a new window.
use mathlib.Core.Option
use logistics.Common.{
  ℕ, ◌+◌, ◌*◌, ◌<◌, ◌≡◌, ◌≢◌, ◌↔◌, refl, inl, inr, Option, none, some, List, String, arith, In,
  Option-cases, eq_iff, if◌then◌else◌, ◌==◌, string_eq,
}
use logistics.Common.Dict
use logistics.Rfq.Timers.{ScheduledEvent, hour, at_deadline, fresh_event, rearm}
use logistics.Rfq.Timers.Rearmed.{Rearmed, rearm-In}
use logistics.Rfq.Expiry.{Rfq, RfqDb}

-- resolveDeadline, without an override
abbrev pub default_deadline : ℕ → ℕ → ℕ
default_deadline now hours = now + hours * hour

module _ {M : Type 0} where
  abbrev pub renewed : ℕ → ℕ → List ℕ → String → Rfq → RfqDb M → RfqDb M
  renewed now deadline offsets rfq_id rfq db = record db {
    rfqs = Dict.set rfq_id (record rfq { submission_deadline = deadline }) db.rfqs;
    timers = rearm now rfq_id deadline offsets db.timers;
  }

  -- the deadline and the rows, where the RFQ is there
  unfoldable pub reset_deadline_and_rearm : ℕ → ℕ → List ℕ → String → RfqDb M → Option (ℕ × RfqDb M)
  reset_deadline_and_rearm now hours offsets rfq_id db = elim (Dict.get rfq_id db.rfqs) [
    | none ↦ none
    | some rfq ↦
        let deadline = default_deadline now hours in
        some (deadline, renewed now deadline offsets rfq_id rfq db)
  ]

  -- Giving a new window of some hours to an RFQ that is there succeeds and writes its deadline, and no other
  -- RFQ, quote or leg. The timers afterwards are those of other entities and events as they were, a
  -- reminder, not fired and not cancelled, for each offset that is still to come before the new deadline,
  -- and the expiry at it; no timer of the old window is left, fired or not.
  pub reset_deadline_and_rearm-Rearmed :
      (now hours : ℕ) (offsets : List ℕ) (rfq_id : String) (db : RfqDb M)
      → 0 < hours
      → Dict.get rfq_id db.rfqs ≢ none
      → let deadline = now + hours * hour in
        (after : RfqDb M) × (reset_deadline_and_rearm now hours offsets rfq_id db
          ≡ some (deadline, after))
        × (after.rows ≡ db.rows)
        × ((k : String)
            → Dict.get k after.rfqs ≡ (
                if rfq_id == k
                then Option.map {A = Rfq}
                    (λ r. record r { submission_deadline = deadline })
                    (Dict.get k db.rfqs)
                else Dict.get k db.rfqs))
        × ((e : ScheduledEvent)
            → In e after.timers ↔ Rearmed now rfq_id deadline offsets db.timers e)
        × In (fresh_event "RFQ" rfq_id "rfq.expiry" at_deadline deadline) after.timers
  unfolding reset_deadline_and_rearm
  reset_deadline_and_rearm-Rearmed now hours offsets rfq_id db some_hours there =
      elim (Option-cases (Dict.get rfq_id db.rfqs)) [
        | inl missing ↦ absurd (there missing)
        | inr (rfq, found) ↦
            let deadline = now + hours * hour in
            let timer = fresh_event "RFQ" rfq_id "rfq.expiry" at_deadline deadline in
            (
              renewed now deadline offsets rfq_id rfq db,
              rw (reset_deadline_and_rearm, found) refl,
              refl,
              λ k. ground (
                arith,
                found,
                eq_iff rfq_id k,
                Dict.get-set rfq_id k (record rfq { submission_deadline = deadline }) db.rfqs,
              ),
              λ e. rearm-In now rfq_id deadline offsets db.timers e,
              (rearm-In now rfq_id deadline offsets db.timers timer).1
                  (inr (inr (omega arith, refl))),
            )
      ]
