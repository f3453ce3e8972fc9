-- ===== src/Ledger/Intents/Dispute.antt =====
-- `buildDisputeIntent`: the transfers that a dispute posts when it opens, is won or is lost.
use oss_tips.Base.{
  ℕ, ℤ, pos, ltb_ℤ, leb_ℤ, eqb_ℤ, not, ◌&&◌, ◌+ℤ◌, Bool, true, false, Option, none, some, String,
  List, [], ◌∷◌, Result, ok, ◌>>=◌, ◌>>◌, throw_if, Assoc, to_lower, any,
}
use oss_tips.Domain.Money.{Numeric, bigint}
use oss_tips.Domain.Fees.{standard}
use oss_tips.Ledger.Codes.{ledger_for_currency}
use oss_tips.Ledger.Codes.AccountCode
use oss_tips.Ledger.Codes.TransferCode
use oss_tips.Ledger.Ids.{transfer_id, account_id}
use oss_tips.Ledger.Intents.{
  LedgerTransfer, PostingIntent, Draft, empty_draft, push, version, as_minor, semantic_key,
  link_transfers, CorrectionKind, dispute_opened, dispute_won, dispute_lost, account_definitions,
}
use oss_tips.Ledger.Intents.Refund.{
  or_value, RefundSplit, split_amount, is_negative_split, is_empty,
}

pub data DisputeOutcome : Type 0 where
  opened won lost : DisputeOutcome

pub record DisputeIntentInput : Type 0 where
  pub stripe_account_id : String
  pub stripe_event_id : String
  pub payment_id : String
  pub project_id : String
  pub currency : String
  pub amount_minor : Numeric
  pub outcome : DisputeOutcome
  pub original_customer_charge_minor : Option Numeric
  pub original_project_share_minor : Option Numeric
  pub original_platform_fee_minor : Option Numeric
  pub original_platform_tip_minor : Option Numeric
  pub posting_version : Option Numeric

-- `dispute_${outcome}`
abbrev pub dispute_kind : DisputeOutcome → String
dispute_kind opened = "dispute_opened"
dispute_kind won = "dispute_won"
dispute_kind lost = "dispute_lost"

abbrev pub correction_of : DisputeOutcome → CorrectionKind
correction_of opened = dispute_opened
correction_of won = dispute_won
correction_of lost = dispute_lost

pub record DisputeAccounts : Type 0 where
  pub project_gross : ℕ
  pub suspense : ℕ
  pub project_loss : ℕ
  pub platform_fee : ℕ
  pub platform_tip : ℕ

pub record DisputeAmounts : Type 0 where
  pub amount : ℤ
  pub original_charge : ℤ
  pub original_project_share : ℤ
  pub original_platform_fee : ℤ
  pub original_platform_tip : ℤ

abbrev pub is_given : Option Numeric → Bool
is_given none = false
is_given (some _) = true

abbrev pub allocation_fields : DisputeIntentInput → List (Option Numeric)
allocation_fields input =
    input.original_customer_charge_minor ∷ input.original_project_share_minor
    ∷ input.original_platform_fee_minor ∷ input.original_platform_tip_minor ∷ []

unfoldable pub dispute_amounts : DisputeIntentInput → Result DisputeAmounts
dispute_amounts input = do
  amount ← as_minor input.amount_minor "dispute amount"
  throw_if (leb_ℤ amount (pos 0)) "dispute amount must be positive"
  throw_if
      (any is_given (allocation_fields input)
        && any (λ f. not (is_given f)) (allocation_fields input))
      "dispute allocation is incomplete"
  charge ←
      as_minor (or_value input.original_customer_charge_minor (bigint amount))
        "original customer charge"
  share ←
      as_minor (or_value input.original_project_share_minor (bigint charge))
        "original project share"
  fee ←
      as_minor (or_value input.original_platform_fee_minor (bigint (pos 0))) "original platform fee"
  tip ←
      as_minor (or_value input.original_platform_tip_minor (bigint (pos 0))) "original platform tip"
  throw_if (leb_ℤ charge (pos 0)) "original customer charge must be positive"
  throw_if (ltb_ℤ charge amount) "dispute amount exceeds original charge"
  throw_if (not (eqb_ℤ (share +ℤ fee +ℤ tip) charge))
      "original dispute allocation does not balance to customer charge"
  ok (record {
    amount = amount;
    original_charge = charge;
    original_project_share = share;
    original_platform_fee = fee;
    original_platform_tip = tip;
  })

unfoldable pub dispute_draft :
    (ℕ → ℕ) → ℕ → DisputeAccounts → DisputeOutcome → ℤ → RefundSplit → Draft
dispute_draft transfer_id_at ledger accounts opened amount split =
    push transfer_id_at ledger TransferCode.dispute_opened accounts.platform_tip accounts.suspense
      split.tip_refund
      (push transfer_id_at ledger TransferCode.dispute_opened accounts.platform_fee
        accounts.suspense split.fee_refund
        (push transfer_id_at ledger TransferCode.dispute_opened accounts.project_gross
          accounts.suspense split.project_refund empty_draft))
dispute_draft transfer_id_at ledger accounts won amount split =
    push transfer_id_at ledger TransferCode.dispute_won_reversal accounts.suspense
      accounts.platform_tip split.tip_refund
      (push transfer_id_at ledger TransferCode.dispute_won_reversal accounts.suspense
        accounts.platform_fee split.fee_refund
        (push transfer_id_at ledger TransferCode.dispute_won_reversal accounts.suspense
          accounts.project_gross split.project_refund empty_draft))
dispute_draft transfer_id_at ledger accounts lost amount split =
    push transfer_id_at ledger TransferCode.dispute_lost_final accounts.suspense
      accounts.project_loss amount empty_draft

unfoldable pub dispute_codes : DisputeAccounts → Assoc ℕ
dispute_codes accounts =
    (accounts.project_gross, AccountCode.project_gross_support)
    ∷ (accounts.platform_fee, AccountCode.platform_project_fee_revenue)
    ∷ (accounts.platform_tip, AccountCode.platform_supporter_tip_revenue)
    ∷ (accounts.suspense, AccountCode.unreconciled_suspense)
    ∷ (accounts.project_loss, AccountCode.project_refund_dispute_loss)
    ∷ []

module _ (sha256 : String → List ℕ) where
  unfoldable pub dispute_accounts : DisputeIntentInput → DisputeAccounts
  dispute_accounts input =
      let currency = to_lower input.currency in
      record {
        project_gross =
            account_id sha256 AccountCode.project_gross_support "project" input.project_id currency;
        suspense =
            account_id sha256 AccountCode.unreconciled_suspense "stripe_account"
              input.stripe_account_id currency;
        project_loss =
            account_id sha256 AccountCode.project_refund_dispute_loss "project" input.project_id
              currency;
        platform_fee =
            account_id sha256 AccountCode.platform_project_fee_revenue "platform" "oss.tips"
              currency;
        platform_tip =
            account_id sha256 AccountCode.platform_supporter_tip_revenue "platform" "oss.tips"
              currency;
      }

  unfoldable pub dispute_intent :
      DisputeIntentInput → DisputeAmounts → ℕ → List LedgerTransfer → PostingIntent
  dispute_intent input amounts posting_version linked_transfers = record {
    posting_kind = dispute_kind input.outcome;
    posting_version = posting_version;
    semantic_key =
        semantic_key input.stripe_account_id input.stripe_event_id (dispute_kind input.outcome)
          posting_version;
    currency = to_lower input.currency;
    transfers = linked_transfers;
    account_definitions =
        some (account_definitions linked_transfers (dispute_codes (dispute_accounts input)));
    metadata = record {
      stripe_account_id = input.stripe_account_id;
      stripe_event_id = input.stripe_event_id;
      payment_id = input.payment_id;
      project_id = input.project_id;
      feature_mode = standard;
      project_amount_minor = amounts.original_project_share;
      platform_tip_minor = amounts.original_platform_tip;
      customer_charge_minor = amounts.amount;
      project_share_minor = none;
      platform_fee_minor = none;
      refund_customer_charge_minor = none;
      correction_kind = some (correction_of input.outcome);
    };
  }

  unfoldable pub build_dispute_intent : DisputeIntentInput → Result PostingIntent
  build_dispute_intent input = do
    posting_version ← version input.posting_version
    ledger ← ledger_for_currency (to_lower input.currency)
    amounts ← dispute_amounts input
    let split =
        split_amount amounts.original_charge amounts.amount amounts.original_platform_fee
          amounts.original_platform_tip
    throw_if (is_negative_split split) "dispute allocation is negative"
    let d =
        dispute_draft
          (transfer_id sha256 input.stripe_account_id input.stripe_event_id
            (dispute_kind input.outcome) posting_version)
          ledger (dispute_accounts input) input.outcome amounts.amount split
    throw_if (is_empty d.transfers) "dispute produced no ledger transfers"
    ok (dispute_intent input amounts posting_version (link_transfers d.transfers))
