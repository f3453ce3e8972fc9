-- ===== src/Ledger/Codes/TransferCode.antt =====
-- The transfer codes of packages/ledger/src/codes.ts.
use oss_tips.Base.{ℕ}

abbrev pub settled_payment_into_transit : ℕ
settled_payment_into_transit = 1000

abbrev pub transit_to_project_gross : ℕ
transit_to_project_gross = 1010

abbrev pub transit_to_platform_project_fee : ℕ
transit_to_platform_project_fee = 1020

abbrev pub transit_to_platform_supporter_tip : ℕ
transit_to_platform_supporter_tip = 1030

abbrev pub stripe_processing_fee_attribution : ℕ
stripe_processing_fee_attribution = 1040

abbrev pub project_refund : ℕ
project_refund = 1100

abbrev pub application_fee_refund : ℕ
application_fee_refund = 1110

abbrev pub dispute_opened : ℕ
dispute_opened = 1120

abbrev pub dispute_won_reversal : ℕ
dispute_won_reversal = 1130

abbrev pub dispute_lost_final : ℕ
dispute_lost_final = 1140

abbrev pub manual_correction : ℕ
manual_correction = 1200

abbrev pub reconciliation_suspense : ℕ
reconciliation_suspense = 1300
