-- ===== src/Status.antt =====
-- The status of a leg, of a quote and of a query: packages/shared/src/status.ts and
-- apps/api/src/modules/status, with the machines of the modules rfq and award.
pub mod Vocabulary
pub mod Machine
pub mod Registry
pub mod Machines
pub mod Service
pub mod Rollup
pub mod Query
mod Tests
