-- ===== src/Quote.antt =====
-- A forwarder's quote: packages/shared/src/quote.ts, quote-engine.ts, charge-config.ts and
-- recommend.ts.
pub mod Draft
pub mod Charges
pub mod Totals
pub mod Rules
pub mod Gate
pub mod Recommend
mod Tests
