-- ===== src/Payments.antt =====
-- packages/payments/src: what is checked and computed before Stripe is called.
pub mod WebhookEvents
pub mod Dispute
pub mod Inbox
pub mod Validation
pub mod Refund
pub mod InvoiceFee
pub mod RefundLaws
mod Tests
