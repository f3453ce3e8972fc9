-- ===== src/Lib.antt =====
-- oss.tips: the money, the rights and the books of a platform on which supporters tip open source
-- projects. Paths are from the repository's root.
--
-- The parts and how they interact. packages/domain holds pure rules: amounts of money, the fees of a
-- charge, the state of a membership, entitlements to content, and permissions. packages/payments
-- prepares calls of Stripe with the domain's rules. packages/ledger turns what Stripe reports into
-- double-entry posting intents: lists of linked transfers between accounts whose ids are derived from
-- digests. A settlement takes its amounts from the domain's fee allocation, and refunds and disputes
-- split an amount by the domain's proportional refund. A client then creates the accounts and posts the
-- transfers, and a replay does so for a list of intents. Stripe's events come in by a webhook, which
-- packages/payments checks and stores in the inbox of packages/db; apps/finance-worker claims them there
-- and moves the books, and apps/worker claims the jobs of packages/db and runs their handlers.
--
-- The files:
-- - Base and its children: Boolean tests, lists, JavaScript maps and integers over the native numbers,
--   `Result` for calls that throw, and the parts
--   of JavaScript's strings that are used.
-- - Domain/Money, Fees, Membership, Entitlements and Permissions model packages/domain/src/money, fees,
--   membership, entitlements and permissions (each an index.ts), function by function: for example
--   `compute_fee_allocation` is `computeFeeAllocation` and `reduce_membership` is `reduceMembership`.
--   A `Date` is its milliseconds.
-- - Ledger/Codes, Ledger/Ids and Ledger/Intents with Intents/Settlement, Refund, Dispute and Balances
--   model codes.ts, ids.ts and intents.ts of packages/ledger/src. The local `push` of a builder, which
--   appends to a list and counts, passes a `Draft` on. A builder that throws returns `err`.
-- - Ledger/Mock models client/mock.ts: the state is `MockLedgerClient`, and a method returns the client
--   that it leaves beside its result.
-- - Ledger/Replay models replay.ts over that client.
-- - Ledger/Real models how client/real.ts creates transfers with TigerBeetle; a call answers, or throws
--   (the outer `err`).
-- - Payments/Validation, Payments/Refund and Payments/InvoiceFee model parts of packages/payments/src:
--   validation.ts up to `deriveIdempotencyKey` (not the secret key) and `validateRefundInput`, refund.ts,
--   and `computeInvoiceApplicationFeeAmount` of invoice-fee.ts.
-- - Payments/Dispute and WebhookEvents model dispute.ts and webhook-events.ts, and Payments/Inbox models
--   durable-inbox.ts with the store of apps/web/src/routes/api/webhooks/stripe/+server.ts.
-- - Db/Jobs, Db/StripeEvents and Db/OtpSendRateLimits model jobs.ts, stripeEvents.ts and
--   otpSendRateLimits.ts of packages/db/src/repositories, a function for each method from the table to the table that it leaves, beside its result. Db/Rows reads
--   the statements of SQL on a table as the list of its rows: an update changes the rows that pass, and
--   `returning` lists them as they are left; a claim locks its rows, and `skipLocked` passes over ids that
--   are a parameter. Each method is one statement or one transaction, so runs alone, and interleavings of
--   processes are lists of calls.
-- - Worker models process-job.ts, worker-runtime.ts (its jobs of maintenance in Worker/Maintenance), and
--   the claims of index.ts, all in apps/worker/src. What happens while a handler runs is a list of moments.
-- - Finance/Disputes models how apps/finance-worker/src/index.ts handles a notice about a dispute, with
--   `saveDisputeCursor`; which calls of a run fail is its parameter `Run`: the ledger's, the storing of a
--   posting, the transaction of the row, and `reconcileOneOffEntitlement`. Disputes/Phases is its
--   specification. Finance/Events models `processClaimedStripeEvent` of the same file.
-- - Ledger/Real/Tests, Domain/Tests, Db/Tests, Worker/Tests, Finance/Tests, Ledger/Tests and Payments/Tests hold runs at
--   concrete inputs.
--
-- Numbers: `bigint` is an integer without bounds, as in the source; `Numeric` tells a `bigint` from a
-- `number` that is an integer and from one that is not. No loop needs fuel but `decimal`, which prints a
-- number n and has n + 1 rounds, more than the number has digits.
--
-- Parameters: the SHA-256 of packages/ledger/src/ids.ts, from texts to lists of bytes, and that of jobs.ts,
-- from texts to hexadecimal digits, with the day of a time in `toISOString`. The theorems on
-- postings ask that the ids of the accounts of one intent differ, which a digest without collisions on
-- these few texts gives. TigerBeetle's
-- client is a record of functions on a state, whose documented behaviour is `IsLedger`. The calls of Stripe that a refund makes are a record of functions, and its digest in
-- hexadecimal digits is one more parameter.
--
-- Not modelled: formatting for people (`formatMoney`, labels), `money` of a text, `toLowerCase` outside
-- ASCII, the drivers of TigerBeetle, Stripe, PostgreSQL, Discord and mail, failures of the database but
-- for those of `Run`, the routes and pages of the web application but for that store, and the handlers of
-- jobs and of the other events, which order calls of these services. A time is a parameter where the
-- source reads the clock.
pub mod Base
pub mod Db
pub mod Domain
pub mod Finance
pub mod Ledger
pub mod Payments
pub mod Worker
