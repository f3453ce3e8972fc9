-- ===== src/Ledger/Intents/Settlement.antt =====
-- `buildOneOffSettlementIntent`: the linked transfers that post a settled one-off payment.
use oss_tips.Base.{
  ℕ, ℤ, pos, ltb_ℤ, leb_ℤ, Option, none, some, String, List, [], ◌∷◌, Result, ok, ◌>>=◌, ◌>>◌,
  throw_if, if◌then◌else◌, Assoc, to_lower,
}
use oss_tips.Domain.Money.{Numeric, bigint}
use oss_tips.Domain.Fees.{
  FeatureMode, one_off, FeeAllocation, ComputeFeeInput, compute_fee_allocation,
}
use oss_tips.Ledger.Codes.{ledger_for_currency}
use oss_tips.Ledger.Codes.AccountCode
use oss_tips.Ledger.Codes.TransferCode
use oss_tips.Ledger.Ids.{transfer_id}
use oss_tips.Ledger.Intents.{
  LedgerTransfer, PostingIntent, Draft, empty_draft, push, version, as_minor, semantic_key,
  Accounts, scope_accounts, link_transfers, account_definitions,
}

pub record OneOffSettlementInput : Type 0 where
  pub stripe_account_id : String
  pub stripe_event_id : String
  pub payment_id : String
  pub project_id : String
  pub currency : String
  pub project_amount_minor : Numeric
  pub platform_tip_minor : Numeric
  pub feature_mode : FeatureMode
  pub posting_version : Option Numeric

abbrev pub one_off_settlement : String
one_off_settlement = "one_off_settlement"

abbrev pub fee_input : OneOffSettlementInput → ComputeFeeInput
fee_input input = record {
  project_amount_minor = input.project_amount_minor;
  platform_tip_minor = input.platform_tip_minor;
  currency = input.currency;
  feature_mode = input.feature_mode;
  cadence = one_off;
}

-- The calls of `push`, in their order; those for the platform stand under their own tests.
unfoldable pub settlement_draft : (ℕ → ℕ) → ℕ → Accounts → (charge share fee tip : ℤ) → Draft
settlement_draft transfer_id_at ledger accounts charge share fee tip =
    let d₁ =
      push transfer_id_at ledger TransferCode.settled_payment_into_transit accounts.clearing
        accounts.transit charge empty_draft in
    let d₂ =
      push transfer_id_at ledger TransferCode.transit_to_project_gross accounts.transit
        accounts.project_gross share d₁ in
    let d₃ =
      if ltb_ℤ (pos 0) fee
      then push transfer_id_at ledger TransferCode.transit_to_platform_project_fee accounts.transit
          accounts.platform_fee fee d₂
      else d₂ in
    if ltb_ℤ (pos 0) tip
    then push transfer_id_at ledger TransferCode.transit_to_platform_supporter_tip accounts.transit
        accounts.platform_tip tip d₃
    else d₃

unfoldable pub settlement_codes : Accounts → Assoc ℕ
settlement_codes accounts =
    (accounts.clearing, AccountCode.stripe_external_clearing)
    ∷ (accounts.transit, AccountCode.payment_transit)
    ∷ (accounts.project_gross, AccountCode.project_gross_support)
    ∷ (accounts.platform_fee, AccountCode.platform_project_fee_revenue)
    ∷ (accounts.platform_tip, AccountCode.platform_supporter_tip_revenue)
    ∷ []

module _ (sha256 : String → List ℕ) where
  unfoldable pub settlement_accounts : OneOffSettlementInput → Accounts
  settlement_accounts input =
      scope_accounts sha256 input.stripe_account_id input.payment_id input.project_id input.currency

  unfoldable pub settlement_transfers :
      OneOffSettlementInput
      → (posting_version ledger : ℕ) → (charge share fee tip : ℤ) → List LedgerTransfer
  settlement_transfers input posting_version ledger charge share fee tip =
      let d =
        settlement_draft
          (transfer_id sha256 input.stripe_account_id input.stripe_event_id one_off_settlement
            posting_version)
          ledger (settlement_accounts input) charge share fee tip in
      link_transfers d.transfers

  -- The intent that is returned.
  unfoldable pub settlement_intent :
      OneOffSettlementInput
      → FeeAllocation
      → (posting_version ledger : ℕ) → (charge share fee tip : ℤ) → PostingIntent
  settlement_intent input allocation posting_version ledger charge share fee tip =
      let transfers = settlement_transfers input posting_version ledger charge share fee tip in
      record {
        posting_kind = one_off_settlement;
        posting_version = posting_version;
        semantic_key =
            semantic_key input.stripe_account_id input.stripe_event_id one_off_settlement
              posting_version;
        currency = to_lower input.currency;
        transfers = transfers;
        account_definitions =
            some (account_definitions transfers (settlement_codes (settlement_accounts input)));
        metadata = record {
          stripe_account_id = input.stripe_account_id;
          stripe_event_id = input.stripe_event_id;
          payment_id = input.payment_id;
          project_id = input.project_id;
          feature_mode = input.feature_mode;
          project_amount_minor = allocation.project_amount.amount_minor;
          platform_tip_minor = allocation.platform_tip.amount_minor;
          customer_charge_minor = charge;
          project_share_minor = some share;
          platform_fee_minor = some fee;
          refund_customer_charge_minor = none;
          correction_kind = none;
        };
      }

  unfoldable pub build_one_off_settlement_intent : OneOffSettlementInput → Result PostingIntent
  build_one_off_settlement_intent input = do
    posting_version ← version input.posting_version
    allocation ← compute_fee_allocation (fee_input input)
    ledger ← ledger_for_currency input.currency
    charge ← as_minor (bigint allocation.customer_charge.amount_minor) "customer charge"
    share ← as_minor (bigint allocation.project_before_stripe.amount_minor) "project share"
    fee ← as_minor (bigint allocation.oss_project_fee.amount_minor) "platform fee"
    tip ← as_minor (bigint allocation.platform_tip.amount_minor) "platform tip"
    throw_if (leb_ℤ charge (pos 0)) "customer charge must be positive"
    ok (settlement_intent input allocation posting_version ledger charge share fee tip)
