-- ===== src/Payments/RefundLaws.antt =====
-- The application fee that the refunds of one charge return, one after the other.
use oss_tips.Base.{
  ℕ, pos, ℤ, ◌+◌, ◌≤◌, ◌+ℤ◌, ltb_ℤ, false, ◌≡◌, String, none, some, List, [], ◌∷◌, Result, ok,
  ◌>>=◌,
}
use oss_tips.Domain.Money.{bigint}
use oss_tips.Ledger.Intents.{max_safe_integer}
use oss_tips.Payments.Refund.{
  RefundInput, ValidRefund, StripeClient, RefundRequest, ProviderRefund, validate_refund_input,
  orchestrate_refund,
}

-- The request `input` for a refund of `r` minor units, after refunds of `p` that returned `returned`.
abbrev request : RefundInput → ℕ → ℕ → ℕ → ℤ → ℕ → RefundInput
request input o f p returned r = record input {
  refund_amount_minor = bigint (pos r);
  original_customer_charge_minor = bigint (pos o);
  original_application_fee_minor = bigint (pos f);
  previously_refunded_customer_charge_minor = some (bigint (pos p));
  previously_refunded_application_fee_minor = some (bigint returned);
}

-- The figures of such a request.
abbrev refund_after : String → ℕ → ℕ → ℕ → ℤ → ℕ → ValidRefund
refund_after currency o f p returned r = record {
  currency = currency;
  original_charge = pos o;
  refund_amount = pos r;
  original_fee = pos f;
  previously_refunded_charge = pos p;
  previously_refunded_fee = returned;
}

-- What a series of refunds of one charge returns of the fee: each is requested with what the earlier
-- ones came to, and the series stops at the first that is refused.
unfoldable pub refund_series :
    (String → String) → StripeClient → RefundInput → ℕ → ℕ → ℕ → ℤ → List ℕ → Result ℤ
refund_series hex_digest client input o f p returned [] = ok returned
refund_series hex_digest client input o f p returned (r ∷ rs) = do
  refunded ← orchestrate_refund hex_digest client (request input o f p returned r)
  refund_series hex_digest client input o f (p + r)
      (returned +ℤ refunded.application_fee_refund_minor) rs

abbrev pub sum : List ℕ → ℕ
sum [] = 0
sum (n ∷ ns) = n + sum ns

-- What a series of refunds needs: the request passes the checks but for the amounts, the fee is at most
-- the charge, which is in the range of safe integers, and Stripe's client returns.
pub record IsReady (client : StripeClient) (input : RefundInput) (o f : ℕ) : Type 0 where
  pub valid : ValidRefund
  pub checks : validate_refund_input input ≡ ok valid
  pub no_fee_id : input.stripe_application_fee_id ≡ none
  pub fee_fits : f ≤ o
  pub is_safe : ltb_ℤ max_safe_integer (pos o) ≡ false
  pub answer : RefundRequest → ProviderRefund
  pub returns : (q : RefundRequest) → client.create_refund q ≡ ok (answer q)
