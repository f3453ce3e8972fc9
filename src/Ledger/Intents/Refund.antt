-- ===== src/Ledger/Intents/Refund.antt =====
-- `buildOneOffRefundIntent` (also exported as `buildRefundIntent`): the transfers that return a
-- part of a one-off payment, or all of it.
use oss_tips.Base.{
  ℕ, ℤ, pos, ltb_ℤ, leb_ℤ, eqb_ℤ, not, ◌||◌, ◌+ℤ◌, ◌-ℤ◌, true, false, Bool, Option, none, some,
  String, List, [], ◌∷◌, Result, ok, ◌>>=◌, ◌>>◌, throw_if, Assoc, to_lower,
}
use oss_tips.Domain.Money.{Numeric, bigint}
use oss_tips.Domain.Fees.{FeatureMode, standard, proportional_platform_refund}
use oss_tips.Ledger.Codes.{ledger_for_currency}
use oss_tips.Ledger.Codes.AccountCode
use oss_tips.Ledger.Codes.TransferCode
use oss_tips.Ledger.Ids.{transfer_id, account_id}
use oss_tips.Ledger.Intents.{
  LedgerTransfer, PostingIntent, Draft, empty_draft, push, version, as_minor, semantic_key,
  link_transfers, refund, account_definitions, proportional_part,
}

pub record OneOffRefundInput : Type 0 where
  pub stripe_account_id : String
  pub stripe_event_id : String
  pub payment_id : String
  pub project_id : String
  pub currency : String
  pub refund_customer_charge_minor : Numeric
  pub original_customer_charge_minor : Numeric
  pub original_project_share_minor : Numeric
  pub original_platform_fee_minor : Numeric
  pub original_platform_tip_minor : Numeric
  pub original_project_amount_minor : Option Numeric
  pub feature_mode : Option FeatureMode
  pub posting_version : Option Numeric

abbrev pub one_off_refund : String
one_off_refund = "one_off_refund"

-- `value ?? fallback`
abbrev pub or_value {ℓ} : {A : Type ℓ} → Option A → A → A
or_value none a = a
or_value (some b) a = b

pub record RefundAccounts : Type 0 where
  pub clearing : ℕ
  pub project_gross : ℕ
  pub platform_fee : ℕ
  pub platform_tip : ℕ

-- The original allocation and the amount to return, once they are checked.
pub record RefundAmounts : Type 0 where
  pub original_charge : ℤ
  pub refund_amount : ℤ
  pub original_project_share : ℤ
  pub original_platform_fee : ℤ
  pub original_platform_tip : ℤ
  pub original_project_amount : ℤ

-- How the refund is shared out.
pub record RefundSplit : Type 0 where
  pub project_refund : ℤ
  pub fee_refund : ℤ
  pub tip_refund : ℤ

unfoldable pub refund_amounts : OneOffRefundInput → Result RefundAmounts
refund_amounts input = do
  charge ← as_minor input.original_customer_charge_minor "original customer charge"
  refunded ← as_minor input.refund_customer_charge_minor "refund amount"
  share ← as_minor input.original_project_share_minor "original project share"
  fee ← as_minor input.original_platform_fee_minor "original platform fee"
  tip ← as_minor input.original_platform_tip_minor "original platform tip"
  amount ←
      as_minor (or_value input.original_project_amount_minor (bigint (share +ℤ fee)))
        "original project amount"
  throw_if (leb_ℤ charge (pos 0)) "original customer charge must be positive"
  throw_if (leb_ℤ refunded (pos 0)) "refund amount must be positive"
  throw_if (ltb_ℤ charge refunded) "refund amount exceeds original charge"
  throw_if (not (eqb_ℤ (share +ℤ fee +ℤ tip) charge))
      "original allocation does not balance to customer charge"
  throw_if (not (eqb_ℤ (amount -ℤ fee) share))
      "original project amount does not match project allocation"
  ok (record {
    original_charge = charge;
    refund_amount = refunded;
    original_project_share = share;
    original_platform_fee = fee;
    original_platform_tip = tip;
    original_project_amount = amount;
  })

-- The division of an amount of a charge between the project, the fee and the tip, which a refund and
-- a dispute share: `platformRefund`, `projectRefund`, `feeRefund` and `tipRefund`.
unfoldable pub split_amount : (charge amount fee tip : ℤ) → RefundSplit
split_amount charge amount fee tip =
    let application_fee = fee +ℤ tip in
    let platform = proportional_platform_refund (record {
      original_customer_charge_minor = charge;
      refund_customer_charge_minor = amount;
      original_application_fee_minor = application_fee;
    }) in
    let fee_part = proportional_part platform application_fee fee in
    record {
      project_refund = amount -ℤ platform;
      fee_refund = fee_part;
      tip_refund = platform -ℤ fee_part;
    }

abbrev pub is_negative_split : RefundSplit → Bool
is_negative_split s =
    ltb_ℤ s.project_refund (pos 0) || ltb_ℤ s.fee_refund (pos 0) || ltb_ℤ s.tip_refund (pos 0)

unfoldable pub refund_draft : (ℕ → ℕ) → ℕ → RefundAccounts → RefundSplit → Draft
refund_draft transfer_id_at ledger accounts split =
    push transfer_id_at ledger TransferCode.application_fee_refund accounts.platform_tip
      accounts.clearing split.tip_refund
      (push transfer_id_at ledger TransferCode.application_fee_refund accounts.platform_fee
        accounts.clearing split.fee_refund
        (push transfer_id_at ledger TransferCode.project_refund accounts.project_gross
          accounts.clearing split.project_refund empty_draft))

unfoldable pub refund_codes : RefundAccounts → Assoc ℕ
refund_codes accounts =
    (accounts.clearing, AccountCode.stripe_external_clearing)
    ∷ (accounts.project_gross, AccountCode.project_gross_support)
    ∷ (accounts.platform_fee, AccountCode.platform_project_fee_revenue)
    ∷ (accounts.platform_tip, AccountCode.platform_supporter_tip_revenue)
    ∷ []

-- `transfers.length === 0`
abbrev pub is_empty : List LedgerTransfer → Bool
is_empty [] = true
is_empty (_ ∷ _) = false

module _ (sha256 : String → List ℕ) where
  unfoldable pub refund_accounts : OneOffRefundInput → RefundAccounts
  refund_accounts input =
      let currency = to_lower input.currency in
      record {
        clearing =
            account_id sha256 AccountCode.stripe_external_clearing "stripe_account"
              input.stripe_account_id currency;
        project_gross =
            account_id sha256 AccountCode.project_gross_support "project" input.project_id currency;
        platform_fee =
            account_id sha256 AccountCode.platform_project_fee_revenue "platform" "oss.tips"
              currency;
        platform_tip =
            account_id sha256 AccountCode.platform_supporter_tip_revenue "platform" "oss.tips"
              currency;
      }

  unfoldable pub refund_intent :
      OneOffRefundInput → RefundAmounts → ℕ → List LedgerTransfer → PostingIntent
  refund_intent input amounts posting_version linked_transfers = record {
    posting_kind = one_off_refund;
    posting_version = posting_version;
    semantic_key =
        semantic_key input.stripe_account_id input.stripe_event_id one_off_refund posting_version;
    currency = to_lower input.currency;
    transfers = linked_transfers;
    account_definitions =
        some (account_definitions linked_transfers (refund_codes (refund_accounts input)));
    metadata = record {
      stripe_account_id = input.stripe_account_id;
      stripe_event_id = input.stripe_event_id;
      payment_id = input.payment_id;
      project_id = input.project_id;
      feature_mode = or_value input.feature_mode standard;
      project_amount_minor = amounts.original_project_amount;
      platform_tip_minor = amounts.original_platform_tip;
      customer_charge_minor = amounts.original_charge;
      project_share_minor = some amounts.original_project_share;
      platform_fee_minor = some amounts.original_platform_fee;
      refund_customer_charge_minor = some amounts.refund_amount;
      correction_kind = some refund;
    };
  }

  unfoldable pub build_one_off_refund_intent : OneOffRefundInput → Result PostingIntent
  build_one_off_refund_intent input = do
    posting_version ← version input.posting_version
    ledger ← ledger_for_currency (to_lower input.currency)
    amounts ← refund_amounts input
    let split =
        split_amount amounts.original_charge amounts.refund_amount amounts.original_platform_fee
          amounts.original_platform_tip
    throw_if (is_negative_split split) "refund allocation is negative"
    let d =
        refund_draft
          (transfer_id sha256 input.stripe_account_id input.stripe_event_id one_off_refund
            posting_version)
          ledger (refund_accounts input) split
    throw_if (is_empty d.transfers) "refund produced no ledger transfers"
    ok (refund_intent input amounts posting_version (link_transfers d.transfers))
