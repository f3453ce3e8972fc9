-- ===== src/Ledger/Codes/AccountCode.antt =====
-- The account codes of packages/ledger/src/codes.ts.
use oss_tips.Base.{ℕ}

abbrev pub stripe_external_clearing : ℕ
stripe_external_clearing = 100

abbrev pub payment_transit : ℕ
payment_transit = 110

abbrev pub project_gross_support : ℕ
project_gross_support = 200

abbrev pub project_stripe_fee_expense : ℕ
project_stripe_fee_expense = 210

abbrev pub project_refund_dispute_loss : ℕ
project_refund_dispute_loss = 220

abbrev pub platform_project_fee_revenue : ℕ
platform_project_fee_revenue = 300

abbrev pub platform_supporter_tip_revenue : ℕ
platform_supporter_tip_revenue = 310

abbrev pub platform_fee_refund_contra : ℕ
platform_fee_refund_contra = 320

abbrev pub unreconciled_suspense : ℕ
unreconciled_suspense = 400
