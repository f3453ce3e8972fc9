-- ===== src/Payments/InvoiceFee.antt =====
-- `computeInvoiceApplicationFeeAmount` of packages/payments/src/invoice-fee.ts, and the fee allocation
-- of a recurring charge, which is computed by other code.
use oss_tips.Base.{
  ℕ, ◌≡◌, refl, sym, ap, ◌∙◌, ok-injective, ℤ, pos, ◌+ℤ◌, true, ltb, String, Result, ok, err, ◌>>=◌,
  if◌then◌else◌, arith, ltb-zero,
}
use oss_tips.Domain.Money.{Numeric, bigint, number, money_of, to_bigint, round_percent_of}
use oss_tips.Domain.Fees.{
  FeatureMode, Cadence, ComputeFeeInput, FeeAllocation, allocate, fee_rate_bps,
  compute_fee_allocation,
}
use oss_tips.Domain.Fees.Allocation.{compute_fee_allocation_ok}
use oss_tips.Payments.Validation.{minor_units, normalize_currency}

pub record InvoiceFeeInput : Type 0 where
  pub project_membership_amount_minor : Numeric
  pub project_fee_rate_bps : Numeric
  pub supporter_platform_tip_minor : Numeric
  pub currency : String

-- An integer from 0 to 10000, as a natural number.
unfoldable pub rate_of : Numeric → Result ℕ
rate_of (number (pos n)) =
    if ltb 10_000 n
    then err "Project fee rate must be an integer between 0 and 10000 basis points"
    else ok n
rate_of _ = err "Project fee rate must be an integer between 0 and 10000 basis points"

-- The fee in minor units, and the currency in lower case.
unfoldable pub compute_invoice_application_fee_amount : InvoiceFeeInput → Result (ℤ × String)
compute_invoice_application_fee_amount input = do
  membership ← minor_units input.project_membership_amount_minor "Project membership amount" true
  tip ← minor_units input.supporter_platform_tip_minor "Platform tip" true
  rate ← rate_of input.project_fee_rate_bps
  currency ← normalize_currency input.currency
  ok (round_percent_of membership rate +ℤ tip, currency)

rate_of-fee_rate_bps :
    (m : FeatureMode) (c : Cadence)
    → rate_of (number (pos (fee_rate_bps m c))) ≡ ok (fee_rate_bps m c)
unfolding rate_of fee_rate_bps
rate_of-fee_rate_bps m c = ground arith

natural : (n : ℕ) (name : String) → minor_units (bigint (pos n)) name true ≡ ok (pos n)
unfolding minor_units
natural n name = rw (ltb-zero n) refl

-- For natural amounts and a currency that is accepted, the application fee of an invoice at the rate
-- of the fee mode and cadence is the one that the fee allocation of the same charge has.
pub invoice_fee_agrees :
    (input : ComputeFeeInput) (a : FeeAllocation) (p t : ℕ) (currency : String)
    → input.project_amount_minor ≡ bigint (pos p)
    → input.platform_tip_minor ≡ bigint (pos t)
    → normalize_currency input.currency ≡ ok currency
    → compute_fee_allocation input ≡ ok a
    → compute_invoice_application_fee_amount (record {
      project_membership_amount_minor = input.project_amount_minor;
      project_fee_rate_bps = number (pos (fee_rate_bps input.feature_mode input.cadence));
      supporter_platform_tip_minor = input.platform_tip_minor;
      currency = input.currency;
    })
      ≡ ok (a.stripe_application_fee.amount_minor, currency)
unfolding compute_invoice_application_fee_amount allocate money_of
invoice_fee_agrees input a p t currency ep et ec ea =
    let same : allocate (money_of (pos p) input.currency) (money_of (pos t) input.currency) input
        ≡ a =
      ok-injective _ _
        (sym (compute_fee_allocation_ok input p t (ap to_bigint ep) (ap to_bigint et)) ∙ ea) in
    rw
      (
        ep,
        et,
        natural p "Project membership amount",
        natural t "Platform tip",
        rate_of-fee_rate_bps input.feature_mode input.cadence,
        ec,
      )
      (ap (λ b. ok (b.stripe_application_fee.amount_minor, currency)) same)
