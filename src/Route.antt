-- ===== src/Route.antt =====
-- The route of a query: packages/shared/src/route.ts, its validation, and route-layering.ts, the
-- layers of its points.
pub mod Layering
pub mod Graph
pub mod Chain
pub mod Rules
pub mod Validate
mod Tests
