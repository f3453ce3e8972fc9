-- ===== src/Db.antt =====
-- packages/db/src/repositories, and the worker's use of the job queue.
pub mod Rows
pub mod Jobs
pub mod StripeEvents
pub mod OtpSendRateLimits
mod Tests
