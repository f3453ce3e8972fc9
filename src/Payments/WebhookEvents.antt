-- ===== src/Payments/WebhookEvents.antt =====
-- packages/payments/src/webhook-events.ts: the Stripe events that are accepted, and their order. A text
-- that is compared is an id of Stripe, whose characters are ASCII, so that JavaScript's order of code
-- units is that of code points.
pub mod Order
use oss_tips.Base.{
  ℕ, ltb, ◌==◌, String, str_eq, Bool, true, false, not, Option, none, some, List, [], ◌∷◌, map, any,
  find, if◌then◌else◌, text_codes,
}

pub data StripeWebhookEventKind : Type 0 where
  account checkout payment refund dispute subscription invoice payout : StripeWebhookEventKind

-- `EVENT_KIND_BY_TYPE`, whose keys are those of `STRIPE_WEBHOOK_EVENT_TYPES` by TypeScript's check.
abbrev event_kind_by_type : List (String × StripeWebhookEventKind)
event_kind_by_type =
    ("account.updated", account)
    ∷ ("account.application.deauthorized", account)
    ∷ ("checkout.session.completed", checkout)
    ∷ ("payment_intent.processing", payment)
    ∷ ("payment_intent.succeeded", payment)
    ∷ ("payment_intent.payment_failed", payment)
    ∷ ("charge.succeeded", payment)
    ∷ ("charge.refunded", refund)
    ∷ ("charge.dispute.created", dispute)
    ∷ ("charge.dispute.updated", dispute)
    ∷ ("charge.dispute.closed", dispute)
    ∷ ("customer.subscription.created", subscription)
    ∷ ("customer.subscription.updated", subscription)
    ∷ ("customer.subscription.deleted", subscription)
    ∷ ("invoice.created", invoice)
    ∷ ("invoice.finalized", invoice)
    ∷ ("invoice.finalization_failed", invoice)
    ∷ ("invoice.paid", invoice)
    ∷ ("invoice.payment_failed", invoice)
    ∷ ("invoice.payment_action_required", invoice)
    ∷ ("payout.failed", payout)
    ∷ []

unfoldable pub is_allowed_stripe_webhook_event : String → Bool
is_allowed_stripe_webhook_event type = any (λ p. str_eq p.0 type) event_kind_by_type

pub record StripeWebhookClassification : Type 0 where
  pub accepted : Bool
  -- `none` is `'unsupported'`.
  pub kind : Option StripeWebhookEventKind
  pub event_type : String
  pub object_id : Option String

abbrev kind_of : Option (String × StripeWebhookEventKind) → Option StripeWebhookEventKind
kind_of none = none
kind_of (some p) = some p.1

-- An id that is present and not empty.
abbrev or_absent : Option String → Option String
or_absent none = none
or_absent (some id) = if str_eq id "" then none else some id

unfoldable pub classify_stripe_webhook_event : String → Option String → StripeWebhookClassification
unfolding is_allowed_stripe_webhook_event
classify_stripe_webhook_event type object_id =
    if is_allowed_stripe_webhook_event type
    then record {
      accepted = true;
      kind = kind_of (find (λ p. str_eq p.0 type) event_kind_by_type);
      event_type = type;
      object_id = or_absent object_id;
    }
    else record { accepted = false; kind = none; event_type = type; object_id = none }

pub record StripeEventOrder : Type 0 where
  pub id : String
  pub created_at : Option ℕ

abbrev pub or_zero : Option ℕ → ℕ
or_zero none = 0
or_zero (some n) = n

-- The order of texts by their code points.
unfoldable pub precedes : List ℕ → List ℕ → Bool
precedes xs [] = false
precedes [] (y ∷ ys) = true
precedes (x ∷ xs) (y ∷ ys) =
    let rest = precedes xs ys in if ltb x y then true else if ltb y x then false else rest

-- -1, 0 and 1
pub data Comparison : Type 0 where
  earlier same later : Comparison

unfoldable pub compare_stripe_event_order : StripeEventOrder → StripeEventOrder → Comparison
compare_stripe_event_order a b =
    if not (or_zero a.created_at == or_zero b.created_at)
    then (if ltb (or_zero a.created_at) (or_zero b.created_at) then earlier else later)
    else if str_eq a.id b.id
    then same
    else if precedes (text_codes a.id) (text_codes b.id)
    then earlier
    else later

abbrev is_later : Comparison → Bool
is_later later = true
is_later _ = false

unfoldable pub is_stripe_event_newer : StripeEventOrder → Option StripeEventOrder → Bool
unfolding compare_stripe_event_order
is_stripe_event_newer incoming none = true
is_stripe_event_newer incoming (some current) =
    is_later (compare_stripe_event_order incoming current)
