-- ===== src/Payments/Tests.antt =====
-- Witnesses and runs of the payments' theorems at concrete refunds.
use oss_tips.Base.{
  ℕ, pos, String, true, false, List, ◌≡◌, refl, [], ◌∷◌, none, some, ok, ◌+ℤ◌, ◌-ℤ◌, ◌*ℤ◌, ◌/ℤ◌,
  to_lower, text_length,
}
use oss_tips.Domain.Money.{bigint, is_supported_currency}
use oss_tips.Domain.Fees.{proportional_platform_refund}
use oss_tips.Payments.Validation.{minor_units, normalize_currency, validate_identifier}
use oss_tips.Payments.Refund.{
  RefundInput, ValidRefund, StripeClient, succeeded, orchestrate_refund, validate_refund_input,
  refund_figures, fee_refund_minor,
}
use oss_tips.Domain.Money.{number, money_of}
use oss_tips.Domain.Fees.{ComputeFeeInput, FeeAllocation, allocate, fee_rate_bps, standard, monthly}
use oss_tips.Domain.Fees.Allocation.{compute_fee_allocation_ok}
use oss_tips.Payments.InvoiceFee.{compute_invoice_application_fee_amount, invoice_fee_agrees}
use oss_tips.Payments.WebhookEvents.{StripeEventOrder, is_allowed_stripe_webhook_event}
use oss_tips.Payments.WebhookEvents.Order.{created, newer, newer_is_total}
use oss_tips.Payments.Inbox.{
  VerifiedStripeEvent, accepted, rejection, webhook_store, accept_stripe_event_into_inbox,
}
use oss_tips.Payments.Inbox.Repeats.{inbox_is_idempotent}
use oss_tips.Db.StripeEvents.{insert_if_new, Call, claim_call, processed_call, run}
use oss_tips.Payments.RefundLaws.{refund_series}

abbrev second_half : RefundInput
second_half = record {
  stripe_account_id = "acct_1";
  charge_id = "ch_1";
  refund_amount_minor = bigint (pos 50);
  currency = "GBP";
  original_customer_charge_minor = bigint (pos 100);
  original_application_fee_minor = bigint (pos 5);
  reason = "asked for";
  provider_reason = none;
  idempotency_key = none;
  stripe_application_fee_id = some "fee_1";
  previously_refunded_customer_charge_minor = some (bigint (pos 50));
  previously_refunded_application_fee_minor = some (bigint (pos 3));
}

abbrev client : StripeClient
client = record {
  create_refund =
      λ r. ok (record { id = "re_1"; status = succeeded; amount_minor = r.amount_minor });
  create_application_fee_refund = some (λ r. ok "fr_1");
}

abbrev any_refund : RefundInput
any_refund = record second_half { stripe_application_fee_id = none }

abbrev valid_refund : ValidRefund
valid_refund = record {
  currency = "gbp";
  original_charge = pos 100;
  refund_amount = pos 50;
  original_fee = pos 5;
  previously_refunded_charge = pos 50;
  previously_refunded_fee = pos 3;
}

all_returned : refund_series (λ s. "") client any_refund 100 5 0 (pos 0) (50 ∷ 50 ∷ []) ≡ ok (pos 5)
unfolding refund_series orchestrate_refund validate_refund_input refund_figures fee_refund_minor
    minor_units normalize_currency validate_identifier is_supported_currency to_lower text_length
    proportional_platform_refund ◌+ℤ◌ ◌-ℤ◌ ◌*ℤ◌ ◌/ℤ◌
all_returned = refl

second_refund :
    orchestrate_refund (λ s. "") client second_half
    ≡ ok (record {
      refund_id = "re_1";
      status = succeeded;
      amount_minor = pos 50;
      application_fee_refund_minor = pos 2;
      application_fee_refund_id = some "fr_1";
    })
unfolding orchestrate_refund validate_refund_input refund_figures fee_refund_minor minor_units
    normalize_currency validate_identifier is_supported_currency to_lower text_length
    proportional_platform_refund ◌+ℤ◌ ◌-ℤ◌ ◌*ℤ◌ ◌/ℤ◌
second_refund = refl

abbrev monthly_charge : ComputeFeeInput
monthly_charge = record {
  project_amount_minor = bigint (pos 1025);
  platform_tip_minor = bigint (pos 100);
  currency = "GBP";
  feature_mode = standard;
  cadence = monthly;
}

abbrev monthly_allocation : FeeAllocation
monthly_allocation = allocate (money_of (pos 1025) "GBP") (money_of (pos 100) "GBP") monthly_charge

invoice_fee_agrees_example :
    compute_invoice_application_fee_amount (record {
      project_membership_amount_minor = bigint (pos 1025);
      project_fee_rate_bps = number (pos (fee_rate_bps standard monthly));
      supporter_platform_tip_minor = bigint (pos 100);
      currency = "GBP";
    })
    ≡ ok (monthly_allocation.stripe_application_fee.amount_minor, "gbp")
unfolding normalize_currency is_supported_currency to_lower
invoice_fee_agrees_example =
    invoice_fee_agrees monthly_charge monthly_allocation 1025 100 "gbp" refl refl refl
      (compute_fee_allocation_ok monthly_charge 1025 100 refl refl)

abbrev order : String → ℕ → StripeEventOrder
order id at = record { id = id; created_at = some at }

newer_is_total_example :
    (newer (order "evt_2" 5) (order "evt_2" 5) ≡ false)
    × (newer (order "evt_2" 5) (order "evt_1" 5) ≡ true
        → newer (order "evt_1" 5) (order "evt_2" 5) ≡ false)
    × (newer (order "evt_2" 5) (order "evt_1" 5) ≡ true
        → newer (order "evt_1" 5) (order "evt_9" 4) ≡ true
        → newer (order "evt_2" 5) (order "evt_9" 4) ≡ true)
    × (newer (order "evt_2" 5) (order "evt_1" 5) ≡ false
        → newer (order "evt_1" 5) (order "evt_2" 5) ≡ false
        → (created (order "evt_2" 5) ≡ created (order "evt_1" 5))
          × ((order "evt_2" 5).id ≡ (order "evt_1" 5).id))
newer_is_total_example = newer_is_total (order "evt_2" 5) (order "evt_1" 5) (order "evt_9" 4)

abbrev delivered : VerifiedStripeEvent
delivered = record {
  id = "evt_1";
  event_type = "invoice.paid";
  api_version = none;
  account = some "acct_1";
  payload = "{}";
}

delivered_once :
    (accept_stripe_event_into_inbox
      (webhook_store 10)
      "i1"
      delivered
      (number (pos 900))
      (some "acct_1")
      []).1
    ≡ ok (accepted "evt_1" "invoice.paid" true)
unfolding accept_stripe_event_into_inbox rejection webhook_store insert_if_new validate_identifier
    is_allowed_stripe_webhook_event
delivered_once = refl

-- The event is processed between the two deliveries.
abbrev in_between : List Call
in_between = claim_call (λ id. false) 10 "w1" 20 ∷ processed_call "i1" "w1" 30 ∷ []

inbox_is_idempotent_example :
    accept_stripe_event_into_inbox
      (webhook_store 40)
      "i2"
      delivered
      (number (pos 900))
      (some "acct_1")
      (run in_between
        (accept_stripe_event_into_inbox
          (webhook_store 10)
          "i1"
          delivered
          (number (pos 900))
          (some "acct_1")
          []).0)
    ≡ (
      run in_between
          (accept_stripe_event_into_inbox
            (webhook_store 10)
            "i1"
            delivered
            (number (pos 900))
            (some "acct_1")
            []).0,
      ok (accepted "evt_1" "invoice.paid" false),
    )
inbox_is_idempotent_example =
    inbox_is_idempotent 10 40 "i1" "i2" "evt_1" "invoice.paid" delivered (number (pos 900))
      (some "acct_1") true in_between [] delivered_once
