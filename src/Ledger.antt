-- ===== src/Ledger.antt =====
-- packages/ledger/src: double-entry postings for the payments that Stripe reports.
pub mod Real
pub mod Codes
pub mod Ids
pub mod Intents
pub mod Mock
pub mod Replay
mod Tests
