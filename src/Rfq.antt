-- ===== src/Rfq.antt =====
-- Requests for quotation: the timers of apps/api/src/modules/comms/scheduled-event.service.ts, the
-- listener of apps/api/src/modules/rfq/rfq-schedule.listener.ts that closes an RFQ at its deadline, and
-- operations of rfq.service.ts.
pub mod Timers
pub mod Expiry
pub mod Window
pub mod Selection
mod Tests
