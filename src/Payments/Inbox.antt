-- ===== src/Payments/Inbox.antt =====
-- packages/payments/src/durable-inbox.ts: what is accepted into the inbox of Stripe's events, and the
-- store that apps/web/src/routes/api/webhooks/stripe/+server.ts gives it. An event's signature is
-- already verified; its payload is its JSON text.
pub mod Repeats
use Prim.Native.String
use oss_tips.Base.{
  ℕ, ◌*◌, pos, ltb_ℤ, String, str_eq, Bool, true, false, not, ◌||◌, Option, none, some, List,
  Result, ok, err, ◌>>=◌, if◌then◌else◌,
}
use oss_tips.Domain.Money.{Numeric, number}
use oss_tips.Ledger.Intents.{is_safe}
use oss_tips.Payments.Validation.{validate_identifier}
use oss_tips.Payments.WebhookEvents.{is_allowed_stripe_webhook_event}
use oss_tips.Db.StripeEvents.{StripeEvent, insert_if_new}

-- `STRIPE_WEBHOOK_MAX_BODY_BYTES`
abbrev pub max_body_bytes : ℕ
max_body_bytes = 256 * 1024

pub record VerifiedStripeEvent : Type 0 where
  pub id : String
  pub event_type : String
  pub api_version : Option String
  pub account : Option String
  pub payload : String

pub record DurableInboxRow : Type 0 where
  pub id : String
  pub stripe_event_id : String
  pub stripe_account_id : Option String
  pub event_type : String
  pub api_version : Option String
  pub payload : String

pub record Inserted : Type 0 where
  pub created : Bool
  pub stripe_event_id : String

-- `insertIfNew` of a store, on its state.
abbrev pub DurableInboxStore : Type 0 → Type 0
DurableInboxStore S = DurableInboxRow → S → S × Result Inserted

pub record Rejection : Type 0 where
  pub status : ℕ
  pub title : String
  pub detail : String

pub data AcceptDurableInboxResult : Type 0 where
  accepted : (stripe_event_id event_type : String) → (created : Bool) → AcceptDurableInboxResult
  rejected : Rejection → AcceptDurableInboxResult

abbrev reject : ℕ → String → String → Option Rejection
reject status title detail = some (record { status = status; title = title; detail = detail })

-- What is wrong with a request, if anything.
abbrev check_length : Numeric → Option Rejection
check_length (number n) =
    if not (is_safe n) || ltb_ℤ n (pos 0)
    then reject 400 "Invalid webhook payload" "Webhook body length is invalid"
    else if ltb_ℤ (pos max_body_bytes) n
    then reject 413 "Payload too large" "Webhook body exceeds 262144 bytes"
    else none
check_length _ = reject 400 "Invalid webhook payload" "Webhook body length is invalid"

abbrev check_type : String → Option Rejection
check_type type =
    if is_allowed_stripe_webhook_event type
    then none
    else reject 400 "Unsupported event type"
        (String.◌++◌ "Event type " (String.◌++◌ type " is not allowlisted"))

abbrev is_account : String → Option String → Bool
is_account expected none = false
is_account expected (some a) = str_eq a expected

abbrev check_expected : String → Option String → Result String → Option Rejection
check_expected expected account (err message) = reject 400 "Invalid webhook configuration" message
check_expected expected account (ok id) =
    if is_account expected account
    then none
    else reject 400 "Unexpected Stripe account" "Webhook account does not match connected account"

abbrev check_account : Option String → Option String → Option Rejection
check_account none account = none
check_account (some expected) account =
    check_expected expected account (validate_identifier expected "Stripe account id" "acct_")

abbrev check_id : Result String → Option Rejection
check_id (ok id) = none
check_id (err message) = reject 400 "Invalid webhook payload" "Expected Stripe event id"

abbrev or_next : Option Rejection → Option Rejection → Option Rejection
or_next none next = next
or_next (some r) next = some r

-- The first of the checks that rejects.
unfoldable pub rejection :
    VerifiedStripeEvent → (length : Numeric) → (expected : Option String) → Option Rejection
rejection event length expected = or_next (check_length length) (
    or_next (check_type event.event_type) (
      or_next (check_account expected event.account)
        (check_id (validate_identifier event.id "Stripe event id" "evt_"))))

abbrev inbox_row : String → VerifiedStripeEvent → DurableInboxRow
inbox_row new_id event = record {
  id = new_id;
  stripe_event_id = event.id;
  stripe_account_id = event.account;
  event_type = event.event_type;
  api_version = event.api_version;
  payload = event.payload;
}

abbrev acceptance : String → Result Inserted → Result AcceptDurableInboxResult
acceptance type (err message) = err message
acceptance type (ok inserted) = ok (accepted inserted.stripe_event_id type inserted.created)

abbrev insert_unless :
    {S : Type 0}
    → DurableInboxStore S
    → String
    → VerifiedStripeEvent
    → Option Rejection
    → S
    → S × Result AcceptDurableInboxResult
insert_unless store new_id event (some r) s = (s, ok (rejected r))
insert_unless store new_id event none s = (
  (store (inbox_row new_id event) s).0,
  acceptance event.event_type (store (inbox_row new_id event) s).1,
)

-- `acceptStripeEventIntoInbox`
unfoldable pub accept_stripe_event_into_inbox :
    {S : Type 0} (store : DurableInboxStore S)
    → (new_id : String) → VerifiedStripeEvent
    → (length : Numeric) → (expected : Option String) → S
    → S × Result AcceptDurableInboxResult
unfolding rejection
accept_stripe_event_into_inbox store new_id event length expected s =
    insert_unless store new_id event (rejection event length expected) s

-- The columns that the caller leaves to the database are NULL and 0, and `now` for the receipt.
abbrev pub event_row : ℕ → DurableInboxRow → StripeEvent
event_row now row = record {
  id = row.id;
  stripe_event_id = row.stripe_event_id;
  stripe_account_id = row.stripe_account_id;
  event_type = row.event_type;
  api_version = row.api_version;
  payload = row.payload;
  processed_at = none;
  process_error = none;
  processing_at = none;
  processing_by = none;
  processing_attempts = 0;
  received_at = now;
}

abbrev inserted_or_throw : Option (StripeEvent × Bool) → Result Inserted
inserted_or_throw none = err "Failed to persist stripe_event"
inserted_or_throw (some (event, created)) =
    ok (record { created = created; stripe_event_id = event.stripe_event_id })

-- The store of the web application's endpoint.
unfoldable pub webhook_store : (now : ℕ) → DurableInboxStore (List StripeEvent)
unfolding insert_if_new
webhook_store now row rows = (
  (insert_if_new (event_row now row) rows).0,
  inserted_or_throw (insert_if_new (event_row now row) rows).1,
)
