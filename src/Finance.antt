-- ===== src/Finance.antt =====
-- apps/finance-worker: what the events of Stripe do to the books.
pub mod Disputes
pub mod Events
mod Tests
