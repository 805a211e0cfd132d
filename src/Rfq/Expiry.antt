-- ===== src/Rfq/Expiry.antt =====
-- apps/api/src/modules/rfq/rfq-schedule.listener.ts, `onExpiry`, and `runDue` of
-- apps/api/src/modules/comms/scheduled-event.service.ts, which emits the event that it listens to. What a
-- quote's event throws is logged, and the loop goes on. The messages to the forwarder and to the
-- executives, and the reminder, which only sends one, write no row of these.
pub mod Closed
pub mod Sweep
pub mod Once
use logistics.Common.{
  ℕ, suc, Bool, true, false, ◌&&◌, not, Option, none, some, List, [], ◌∷◌, map, String, ◌==◌,
  string_eq, leb, filter, any, includes, is_nil, is_some, if◌then◌else◌,
}
use logistics.Common.Dict
use logistics.Common.Dict.{Dict}
use logistics.Status.Vocabulary.{QuoteStatus, QuoteEvent, quote_status_eq}
use logistics.Changes.Store.{QuoteRow, Db}
use logistics.Changes.Fire.{database, fire_quote}
use logistics.Rfq.Timers.{ScheduledEvent, same_event, is_outstanding, cancel}

pub record Rfq : Type 0 where
  pub query_id : String
  pub freight_forwarder_id : String
  pub submission_deadline : ℕ

pub record RfqDb (M : Type 0) : Type 0 where
  pub rows : Db M
  pub rfqs : Dict Rfq
  pub timers : List ScheduledEvent

abbrev pub is_claimable : ScheduledEvent → ScheduledEvent → Bool
is_claimable e row = same_event e row && is_outstanding row

abbrev pub is_due : ℕ → ScheduledEvent → Bool
is_due now e = leb e.due_at now && is_outstanding e

module _ {M : Type 0} where
  -- the quotes of the RFQ that wait for an answer
  abbrev pub is_open : String → QuoteRow M → Bool
  is_open rfq_id q =
      (elim q.rfq_id [ none ↦ false | some id ↦ id == rfq_id ])
      && includes (QuoteStatus.rfq_sent ∷ QuoteStatus.requoted ∷ []) q.status

  abbrev pub open_quotes : String → Db M → List (String × QuoteRow M)
  open_quotes rfq_id db = filter (λ e. is_open rfq_id e.1) db.quotes.entries

  -- `status.fire("quote", …, EXPIRE)` in its `try`
  abbrev pub fire_expire : String → Db M → Db M
  fire_expire id db = database (fire_quote id QuoteEvent.expire db)

  abbrev pub discard_and_expire : String → Option (QuoteRow M) → Db M → Db M
  discard_and_expire id none db = db
  discard_and_expire id (some row) db =
      fire_expire id (record db { quotes = Dict.set id (record row { draft = false }) db.quotes })

  -- the body of the loop
  unfoldable pub expire : String → QuoteRow M → Db M → Db M
  expire id q db =
      if q.status == QuoteStatus.rfq_sent
      then discard_and_expire id (Dict.get id db.quotes) db
      else fire_expire id db

  unfoldable pub expire_all : List (String × QuoteRow M) → Db M → Db M
  expire_all [] db = db
  expire_all ((id, q) ∷ qs) db = expire_all qs (expire id q db)

  unfoldable pub on_expiry : ℕ → String → RfqDb M → RfqDb M
  unfolding expire_all
  on_expiry now rfq_id db =
      if is_some (Dict.get rfq_id db.rfqs)
      then record db {
        timers = cancel now "RFQ" rfq_id "rfq.reminder" db.timers;
        rows = expire_all (open_quotes rfq_id db.rows) db.rows;
      }
      else db

  -- what listens to an event
  abbrev pub emit : ℕ → ScheduledEvent → RfqDb M → RfqDb M
  emit now e db = if e.event_key == "rfq.expiry" then on_expiry now e.entity_id db else db

  abbrev pub claim : ℕ → ScheduledEvent → RfqDb M → RfqDb M
  claim now e db = record db {
    timers =
        map (λ row. if is_claimable e row then record row { fired_at = some now } else row)
          db.timers;
  }

  -- the loop over the due events; a claim that writes no row skips the event
  unfoldable pub run_events : ℕ → List ScheduledEvent → RfqDb M → ℕ × RfqDb M
  run_events now [] db = (0, db)
  run_events now (e ∷ es) db =
      let rest = run_events now es in
      if any (is_claimable e) db.timers
      then (let (fired, after) = rest (emit now e (claim now e db)) in (suc fired, after))
      else rest db

  unfoldable pub run_due : ℕ → RfqDb M → ℕ × RfqDb M
  unfolding run_events
  run_due now db = run_events now (filter (is_due now) db.timers) db
