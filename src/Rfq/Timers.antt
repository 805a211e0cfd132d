-- ===== src/Rfq/Timers.antt =====
-- apps/api/src/modules/comms/scheduled-event.service.ts: schedule and cancel; and `resetDeadlineAndRearm`
-- of apps/api/src/modules/rfq/rfq.service.ts. Times are milliseconds since the epoch. A row of the table
-- is named by its unique key: the entity, the event and the tier.
pub mod Rearmed
use logistics.Common.{
  ℕ, suc, ◌+◌, ◌*◌, ◌-◌, Bool, true, false, ◌&&◌, ◌||◌, not, Option, none, some, List, [], ◌∷◌,
  ◌++◌, map, String, ◌==◌, string_eq, nat_eq, leb, filter, any, includes, is_some, if◌then◌else◌,
}

-- "T${h}H" and "DEADLINE"
pub data Tier : Type 0 where
  hours_before : ℕ → Tier
  at_deadline : Tier

abbrev pub same_tier : Tier → Tier → Bool
same_tier (hours_before m) (hours_before n) = m == n
same_tier (hours_before m) at_deadline = false
same_tier at_deadline (hours_before n) = false
same_tier at_deadline at_deadline = true

pub record ScheduledEvent : Type 0 where
  pub entity_type : String
  pub entity_id : String
  pub event_key : String
  pub tier : Tier
  pub due_at : ℕ
  pub fired_at : Option ℕ
  pub cancelled_at : Option ℕ

abbrev pub is_for : String → String → ScheduledEvent → Bool
is_for entity_type entity_id e = e.entity_type == entity_type && e.entity_id == entity_id

-- the unique key of the table
abbrev pub same_event : ScheduledEvent → ScheduledEvent → Bool
same_event a b =
    is_for a.entity_type a.entity_id b && b.event_key == a.event_key && same_tier a.tier b.tier

-- `firedAt: null, cancelledAt: null`
abbrev pub is_outstanding : ScheduledEvent → Bool
is_outstanding e = not (is_some e.fired_at) && not (is_some e.cancelled_at)

abbrev pub fresh_event : String → String → String → Tier → ℕ → ScheduledEvent
fresh_event entity_type entity_id event_key tier due_at = record {
  entity_type = entity_type;
  entity_id = entity_id;
  event_key = event_key;
  tier = tier;
  due_at = due_at;
  fired_at = none;
  cancelled_at = none;
}

-- the upsert, which updates nothing
abbrev pub upsert : ScheduledEvent → List ScheduledEvent → List ScheduledEvent
upsert e rows = if any (same_event e) rows then rows else rows ++ (e ∷ [])

unfoldable pub schedule :
    ℕ → String → String → String → List (Tier × ℕ) → List ScheduledEvent → List ScheduledEvent
schedule now entity_type entity_id event_key [] rows = rows
schedule now entity_type entity_id event_key ((tier, due_at) ∷ entries) rows =
    schedule now entity_type entity_id event_key entries (
      if leb due_at now
      then rows
      else upsert (fresh_event entity_type entity_id event_key tier due_at) rows)

unfoldable pub cancel : ℕ → String → String → String → List ScheduledEvent → List ScheduledEvent
cancel now entity_type entity_id event_key rows =
    map
      (λ e.
        if is_for entity_type entity_id e && e.event_key == event_key && is_outstanding e
        then record e { cancelled_at = some now }
        else e)
      rows

-- the two events of an RFQ
abbrev pub rfq_events : List String
rfq_events = "rfq.reminder" ∷ "rfq.expiry" ∷ []

-- `scheduledEvent.deleteMany`
abbrev pub delete_events : String → List ScheduledEvent → List ScheduledEvent
delete_events rfq_id rows =
    filter (λ e. not (is_for "RFQ" rfq_id e && includes rfq_events e.event_key)) rows

abbrev pub hour : ℕ
hour = 60 * 60 * 1000

-- a reminder before the epoch is past due, as one at it is
abbrev pub reminders : ℕ → List ℕ → List (Tier × ℕ)
reminders deadline offsets = map (λ h. (hours_before h, deadline - h * hour)) offsets

-- the timers of an RFQ, off its deadline
unfoldable pub arm : ℕ → String → ℕ → List ℕ → List ScheduledEvent → List ScheduledEvent
arm now rfq_id deadline offsets rows =
    schedule now "RFQ" rfq_id "rfq.expiry" ((at_deadline, deadline) ∷ [])
      (schedule now "RFQ" rfq_id "rfq.reminder" (reminders deadline offsets) rows)

unfoldable pub rearm : ℕ → String → ℕ → List ℕ → List ScheduledEvent → List ScheduledEvent
rearm now rfq_id deadline offsets rows = arm now rfq_id deadline offsets (delete_events rfq_id rows)
