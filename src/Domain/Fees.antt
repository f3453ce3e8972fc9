-- ===== src/Domain/Fees.antt =====
-- packages/domain/src/fees/index.ts: the fee allocation of a charge, and the part of the platform's
-- fee that a refund returns.
pub mod Allocation
pub mod Refunds
use oss_tips.Base.{
  ℕ, ℤ, pos, String, Bool, ◌||◌, ◌+ℤ◌, ◌-ℤ◌, ◌*ℤ◌, ◌/ℤ◌, ltb_ℤ, leb_ℤ, Result, ok, ◌>>=◌, ◌>>◌,
  throw_if, if◌then◌else◌,
}
use oss_tips.Domain.Money.{Numeric, Money, money, money_of, round_percent_of}

pub data FeatureMode : Type 0 where
  standard contributes_5_percent : FeatureMode

pub data Cadence : Type 0 where
  one_off monthly annual : Cadence

pub record FeeAllocation : Type 0 where
  pub project_amount : Money
  pub platform_tip : Money
  pub customer_charge : Money
  pub project_fee_rate_bps : ℕ
  pub oss_project_fee : Money
  pub stripe_application_fee : Money
  pub project_before_stripe : Money
  pub feature_mode : FeatureMode
  pub cadence : Cadence

abbrev pub one_off_standard_bps : ℕ
one_off_standard_bps = 0

abbrev pub recurring_standard_bps : ℕ
recurring_standard_bps = 200

abbrev pub contributes_bps : ℕ
contributes_bps = 500

unfoldable pub fee_rate_bps : FeatureMode → Cadence → ℕ
fee_rate_bps contributes_5_percent cadence = contributes_bps
fee_rate_bps standard one_off = one_off_standard_bps
fee_rate_bps standard monthly = recurring_standard_bps
fee_rate_bps standard annual = recurring_standard_bps

pub record ComputeFeeInput : Type 0 where
  pub project_amount_minor : Numeric
  pub platform_tip_minor : Numeric
  pub currency : String
  pub feature_mode : FeatureMode
  pub cadence : Cadence

-- The record that `computeFeeAllocation` returns once both amounts are known.
unfoldable pub allocate : Money → Money → ComputeFeeInput → FeeAllocation
allocate project_amount platform_tip input =
    let rate_bps = fee_rate_bps input.feature_mode input.cadence in
    let oss_fee_minor = round_percent_of project_amount.amount_minor rate_bps in
    record {
      project_amount = project_amount;
      platform_tip = platform_tip;
      customer_charge =
          money_of (project_amount.amount_minor +ℤ platform_tip.amount_minor) input.currency;
      project_fee_rate_bps = rate_bps;
      oss_project_fee = money_of oss_fee_minor input.currency;
      stripe_application_fee = money_of (oss_fee_minor +ℤ platform_tip.amount_minor) input.currency;
      project_before_stripe =
          money_of (project_amount.amount_minor -ℤ oss_fee_minor) input.currency;
      feature_mode = input.feature_mode;
      cadence = input.cadence;
    }

unfoldable pub compute_fee_allocation : ComputeFeeInput → Result FeeAllocation
compute_fee_allocation input = do
  project_amount ← money input.project_amount_minor input.currency
  platform_tip ← money input.platform_tip_minor input.currency
  throw_if (ltb_ℤ project_amount.amount_minor (pos 0) || ltb_ℤ platform_tip.amount_minor (pos 0))
      "Amounts must be non-negative"
  ok (allocate project_amount platform_tip input)

pub record RefundArgs : Type 0 where
  pub original_customer_charge_minor : ℤ
  pub refund_customer_charge_minor : ℤ
  pub original_application_fee_minor : ℤ

-- The division is reached only with a positive original charge.
unfoldable pub proportional_platform_refund : RefundArgs → ℤ
proportional_platform_refund args =
    if leb_ℤ args.original_customer_charge_minor (pos 0)
    then pos 0
    else if leb_ℤ args.original_customer_charge_minor args.refund_customer_charge_minor
    then args.original_application_fee_minor
    else (args.original_application_fee_minor *ℤ args.refund_customer_charge_minor
        +ℤ args.original_customer_charge_minor /ℤ pos 2)
      /ℤ args.original_customer_charge_minor

abbrev pub min_one_off_gbp_minor : ℤ
min_one_off_gbp_minor = pos 200

abbrev pub max_ordinary_gbp_minor : ℤ
max_ordinary_gbp_minor = pos 500_000
