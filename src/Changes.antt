-- ===== src/Changes.antt =====
-- apps/api/src/modules/changes: every mutation of a query is classified by its impact, its scope is
-- resolved to legs, and it is either applied freely or goes through a change order.
pub mod Impact
pub mod Store
pub mod Scope
pub mod Fire
pub mod Order
pub mod Mediator
mod Tests
