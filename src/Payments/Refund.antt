-- ===== src/Payments/Refund.antt =====
-- packages/payments/src/refund.ts, with `validateRefundInput` of validation.ts: a refund on the
-- connected account, with the part of the application fee that goes back. The two calls of Stripe are
-- parameters, which return or throw, and so is the SHA-256 digest in hexadecimal digits.
use Prim.Native.String
use oss_tips.Base.{
  ltb, ℤ, pos, negsuc, ◌+ℤ◌, ◌-ℤ◌, ltb_ℤ, eqb_ℤ, Bool, true, false, not, ◌&&◌, ◌||◌, Option, none,
  some, String, leb, ◌==◌, Result, ok, err, ◌>>=◌, ◌>>◌, throw_if, if◌then◌else◌, text_length, ◌+◌,
}
use oss_tips.Domain.Money.{Numeric, number}
use oss_tips.Domain.Fees.{proportional_platform_refund}
use oss_tips.Ledger.Ids.{decimal}
use oss_tips.Ledger.Intents.{max_safe_integer}
use oss_tips.Payments.Validation.{
  minor_units, normalize_currency, validate_identifier, validate_idempotency_key, has_line_break,
  is_blank,
}

pub data ProviderReason : Type 0 where
  duplicate fraudulent requested_by_customer : ProviderReason

pub record RefundInput : Type 0 where
  pub stripe_account_id : String
  pub charge_id : String
  pub refund_amount_minor : Numeric
  pub currency : String
  pub original_customer_charge_minor : Numeric
  pub original_application_fee_minor : Numeric
  pub reason : String
  pub provider_reason : Option ProviderReason
  pub idempotency_key : Option String
  pub stripe_application_fee_id : Option String
  pub previously_refunded_customer_charge_minor : Option Numeric
  pub previously_refunded_application_fee_minor : Option Numeric

pub record ValidRefund : Type 0 where
  pub currency : String
  pub original_charge : ℤ
  pub refund_amount : ℤ
  pub original_fee : ℤ
  pub previously_refunded_charge : ℤ
  pub previously_refunded_fee : ℤ

abbrev pub only_one : Option Numeric → Option Numeric → Bool
only_one none (some _) = true
only_one (some _) none = true
only_one _ _ = false

abbrev or_none : Option Numeric → Numeric
or_none none = number (pos 0)
or_none (some n) = n

abbrev pub check_given : (String → Result String) → Option String → Result (Unit {0})
check_given check none = ok tt
check_given check (some s) = do _ ← check s; ok tt

-- The amounts, and what they have to be to one another.
unfoldable pub refund_figures : RefundInput → String → Result ValidRefund
refund_figures input currency = do
  charge ← minor_units input.original_customer_charge_minor "Original charge" false
  amount ← minor_units input.refund_amount_minor "Refund amount" false
  fee ← minor_units input.original_application_fee_minor "Original application fee" true
  previous ←
      minor_units (or_none input.previously_refunded_customer_charge_minor)
        "Previously refunded charge" true
  previous_fee ←
      minor_units (or_none input.previously_refunded_application_fee_minor)
        "Previously refunded application fee" true
  throw_if (ltb_ℤ charge fee) "Application fee exceeds original charge"
  throw_if (ltb_ℤ max_safe_integer charge || ltb_ℤ max_safe_integer fee)
      "Refund amount exceeds supported minor-unit range"
  throw_if (ltb_ℤ charge previous) "Previously refunded charge exceeds original charge"
  throw_if (ltb_ℤ fee previous_fee) "Previously refunded application fee exceeds original fee"
  throw_if (ltb_ℤ (charge -ℤ previous) amount) "Refund amount exceeds remaining charge"
  ok (record {
    currency = currency;
    original_charge = charge;
    refund_amount = amount;
    original_fee = fee;
    previously_refunded_charge = previous;
    previously_refunded_fee = previous_fee;
  })

unfoldable pub validate_refund_input : RefundInput → Result ValidRefund
validate_refund_input input = do
  throw_if
      (only_one input.previously_refunded_customer_charge_minor
        input.previously_refunded_application_fee_minor)
      "Previously refunded charge and fee must be provided together"
  _ ← validate_identifier input.stripe_account_id "Stripe account id" "acct_"
  _ ← validate_identifier input.charge_id "Charge id" "ch_"
  currency ← normalize_currency input.currency
  valid ← refund_figures input currency
  throw_if
      (is_blank input.reason || ltb 500 (text_length input.reason) || has_line_break input.reason)
      "Refund reason is invalid"
  check_given validate_idempotency_key input.idempotency_key
  check_given (λ s. validate_identifier s "Application fee id" "fee_")
      input.stripe_application_fee_id
  ok valid

-- The part of the application fee that this refund returns: what all the refunds up to it are to
-- return, less what the earlier ones did.
unfoldable pub fee_refund_minor : ValidRefund → Result ℤ
fee_refund_minor v = do
  let expected_previous_fee = proportional_platform_refund (record {
    original_customer_charge_minor = v.original_charge;
    refund_customer_charge_minor = v.previously_refunded_charge;
    original_application_fee_minor = v.original_fee;
  })
  throw_if (not (eqb_ℤ v.previously_refunded_fee expected_previous_fee))
      "Previously refunded application fee is inconsistent with charge refunds"
  let target_refunded_fee = proportional_platform_refund (record {
    original_customer_charge_minor = v.original_charge;
    refund_customer_charge_minor = v.previously_refunded_charge +ℤ v.refund_amount;
    original_application_fee_minor = v.original_fee;
  })
  throw_if (ltb_ℤ (target_refunded_fee -ℤ v.previously_refunded_fee) (pos 0))
      "Previously refunded application fee is inconsistent with charge refunds"
  ok (target_refunded_fee -ℤ v.previously_refunded_fee)

pub data RefundStatus : Type 0 where
  pending succeeded failed : RefundStatus

pub record RefundRequest : Type 0 where
  pub stripe_account_id : String
  pub charge_id : String
  pub amount_minor : ℤ
  pub refund_application_fee_minor : ℤ
  pub reason : String
  pub refund_application_fee : Bool
  pub idempotency_key : String
  pub provider_reason : Option ProviderReason

pub record ProviderRefund : Type 0 where
  pub id : String
  pub status : RefundStatus
  pub amount_minor : ℤ

pub record FeeRefundRequest : Type 0 where
  pub application_fee_id : String
  pub amount_minor : ℤ
  pub idempotency_key : String
  pub metadata_reason : String

-- `StripeClient`, of which the second call may be missing.
pub record StripeClient : Type 0 where
  pub create_refund : RefundRequest → Result ProviderRefund
  pub create_application_fee_refund : Option (FeeRefundRequest → Result String)

pub record RefundResult : Type 0 where
  pub refund_id : String
  pub status : RefundStatus
  pub amount_minor : ℤ
  pub application_fee_refund_minor : ℤ
  pub application_fee_refund_id : Option String

abbrev is_failed : RefundStatus → Bool
is_failed failed = true
is_failed _ = false

abbrev number_text : ℤ → String
number_text (pos n) = decimal n
number_text (negsuc n) = String.◌++◌ "-" (decimal (n + 1))

abbrev colon : String → String → String
colon a b = String.◌++◌ a (String.◌++◌ ":" b)

abbrev is_none : Option String → Bool
is_none none = true
is_none (some _) = false

module _ (hex_digest : String → String) where
  unfoldable pub derive_idempotency_key : String → String → String
  derive_idempotency_key seed operation =
      let key = colon seed operation in
      if leb (text_length key) 255
      then key
      else String.◌++◌ "oss_" (String.◌++◌ (hex_digest key) (String.◌++◌ "_" operation))

  refund_key : RefundInput → ValidRefund → String
  refund_key input v = elim input.idempotency_key [
    | some key ↦ key
    | none ↦ colon "refund" (
        colon input.stripe_account_id
          (colon input.charge_id (colon (number_text v.refund_amount) input.reason)))
  ]

  -- The second call of Stripe, where it is made.
  refund_fee :
      StripeClient
      → RefundInput
      → String
      → RefundStatus
      → ℤ
      → Option String
      → Result (Option String)
  refund_fee client input key status fee none = ok none
  refund_fee client input key status fee (some fee_id) =
      if not (is_failed status) && ltb_ℤ (pos 0) fee
      then elim client.create_application_fee_refund [
        | none ↦ err "Stripe client does not support application-fee refunds"
        | some create ↦ do
          id ← create (record {
            application_fee_id = fee_id;
            amount_minor = fee;
            idempotency_key = derive_idempotency_key key "application-fee";
            metadata_reason = input.reason;
          })
          ok (if text_length id == 0 then none else some id)
      ]
      else ok none

  unfoldable pub orchestrate_refund : StripeClient → RefundInput → Result RefundResult
  unfolding refund_key refund_fee
  orchestrate_refund client input = do
    v ← validate_refund_input input
    fee ← fee_refund_minor v
    let key = refund_key input v
    let exact = not (is_none input.stripe_application_fee_id)
    refund ← client.create_refund (record {
      stripe_account_id = input.stripe_account_id;
      charge_id = input.charge_id;
      amount_minor = v.refund_amount;
      refund_application_fee_minor = fee;
      reason = input.reason;
      refund_application_fee = not exact && ltb_ℤ (pos 0) fee;
      idempotency_key = derive_idempotency_key key (if exact then "charge" else "refund");
      provider_reason = input.provider_reason;
    })
    fee_refund_id ← refund_fee client input key refund.status fee input.stripe_application_fee_id
    ok (record {
      refund_id = refund.id;
      status = refund.status;
      amount_minor = refund.amount_minor;
      application_fee_refund_minor = fee;
      application_fee_refund_id = fee_refund_id;
    })
