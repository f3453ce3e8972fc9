-- ===== src/Db/StripeEvents.antt =====
-- packages/db/src/repositories/stripeEvents.ts: the inbox of the events that Stripe sends, as a table of
-- rows. A payload is its JSON text, and the methods that read the clock are given the time.
pub mod Kept
pub mod Once
pub mod Leases
use oss_tips.Base.{
  ℕ, ◌+◌, ◌-◌, leb, ltb, String, str_eq, Bool, true, false, not, ◌&&◌, ◌||◌, Option, none, some,
  List, [], ◌∷◌, ◌++◌, map, keep, any, find, if◌then◌else◌,
}
use oss_tips.Db.Rows.{update_where, returning, take_first, has_key}

-- `STRIPE_EVENT_LEASE_TIMEOUT_MS`
abbrev pub stripe_event_lease_timeout_ms : ℕ
stripe_event_lease_timeout_ms = 300_000

pub record StripeEvent : Type 0 where
  pub id : String
  pub stripe_event_id : String
  pub stripe_account_id : Option String
  pub event_type : String
  pub api_version : Option String
  pub payload : String
  pub processed_at : Option ℕ
  pub process_error : Option String
  pub processing_at : Option ℕ
  pub processing_by : Option String
  pub processing_attempts : ℕ
  pub received_at : ℕ

abbrev pub is_null : Option ℕ → Bool
is_null none = true
is_null (some at) = false

-- `processing_by = worker`, which is not true of NULL.
abbrev pub is_by : String → Option String → Bool
is_by worker none = false
is_by worker (some w) = str_eq w worker

-- `processing_at is null or processing_at <= leaseCutoff`
abbrev pub is_free : ℕ → Option ℕ → Bool
is_free now none = true
is_free now (some at) = leb (at + stripe_event_lease_timeout_ms) now

abbrev pub is_event : String → StripeEvent → Bool
is_event sid e = str_eq e.stripe_event_id sid

unfoldable pub find_by_stripe_event_id : String → List StripeEvent → Option StripeEvent
find_by_stripe_event_id sid rows = find (is_event sid) rows

abbrev found : Option StripeEvent → Option (StripeEvent × Bool)
found none = none
found (some e) = some (e, false)

-- Either key of the table may be taken; the row is then looked up by Stripe's id.
unfoldable pub insert_if_new :
    StripeEvent → List StripeEvent → List StripeEvent × Option (StripeEvent × Bool)
unfolding find_by_stripe_event_id
insert_if_new e rows =
    if has_key (λ r. r.id) e.id rows || has_key (λ r. r.stripe_event_id) e.stripe_event_id rows
    then (rows, found (find_by_stripe_event_id e.stripe_event_id rows))
    else (rows ++ e ∷ [], some (e, true))

-- The rows that may be claimed; `skipLocked` passes over the ids that other transactions hold.
abbrev pub is_candidate : (String → Bool) → ℕ → StripeEvent → Bool
is_candidate skipped now e =
    is_null e.processed_at && is_free now e.processing_at && not (skipped e.id)

-- `orderBy('received_at', 'asc')`
unfoldable pub insert_by_received : StripeEvent → List StripeEvent → List StripeEvent
insert_by_received e [] = e ∷ []
insert_by_received e (r ∷ rows) =
    let rest = insert_by_received e rows in
    if leb e.received_at r.received_at then e ∷ r ∷ rows else r ∷ rest

unfoldable pub by_received : List StripeEvent → List StripeEvent
by_received [] = []
by_received (e ∷ rows) = insert_by_received e (by_received rows)

abbrev pub first : ℕ → List StripeEvent → List StripeEvent
first n [] = []
first n (e ∷ rows) = let rest = first (n - 1) rows in if ltb 0 n then e ∷ rest else []

abbrev pub candidates : (String → Bool) → ℕ → ℕ → List StripeEvent → List String
candidates skipped limit now rows =
    map (λ e. e.id) (first limit (by_received (keep (is_candidate skipped now) rows)))

abbrev pub is_chosen : List String → StripeEvent → Bool
is_chosen ids e = any (λ id. str_eq e.id id) ids && is_null e.processed_at

abbrev pub claimed_event : String → ℕ → StripeEvent → StripeEvent
claimed_event worker now e = record e {
  processing_at = some now;
  processing_by = some worker;
  processing_attempts = e.processing_attempts + 1;
}

unfoldable pub claim_unprocessed :
    (skipped : String → Bool)
    → (limit : ℕ) → (worker : String) → (now : ℕ) → List StripeEvent
    → List StripeEvent × List StripeEvent
claim_unprocessed skipped limit worker now rows = (
  update_where (is_chosen (candidates skipped limit now rows)) (claimed_event worker now) rows,
  returning (is_chosen (candidates skipped limit now rows)) (claimed_event worker now) rows,
)

-- The row that the worker is processing.
abbrev pub is_mine : String → String → StripeEvent → Bool
is_mine id worker e = str_eq e.id id && is_by worker e.processing_by && is_null e.processed_at

abbrev pub renewed_event : ℕ → StripeEvent → StripeEvent
renewed_event now e = record e { processing_at = some now }

unfoldable pub renew_processing_lease :
    String → String → ℕ → List StripeEvent → List StripeEvent × Option StripeEvent
renew_processing_lease id worker now rows = (
  update_where (is_mine id worker) (renewed_event now) rows,
  take_first (returning (is_mine id worker) (renewed_event now) rows),
)

abbrev pub processed_event : ℕ → StripeEvent → StripeEvent
processed_event now e = record e {
  processed_at = some now;
  process_error = none;
  processing_at = none;
  processing_by = none;
}

unfoldable pub mark_processed :
    String → String → ℕ → List StripeEvent → List StripeEvent × Option StripeEvent
mark_processed id worker now rows = (
  update_where (is_mine id worker) (processed_event now) rows,
  take_first (returning (is_mine id worker) (processed_event now) rows),
)

abbrev pub failed_event : String → StripeEvent → StripeEvent
failed_event error e = record e {
  process_error = some error;
  processing_at = none;
  processing_by = none;
}

unfoldable pub mark_failed :
    String → String → String → List StripeEvent → List StripeEvent × Option StripeEvent
mark_failed id error worker rows = (
  update_where (is_mine id worker) (failed_event error) rows,
  take_first (returning (is_mine id worker) (failed_event error) rows),
)

-- The calls that change the table.
pub data Call : Type 0 where
  insert_call : StripeEvent → Call
  claim_call : (skipped : String → Bool) → ℕ → String → ℕ → Call
  renew_call : String → String → ℕ → Call
  processed_call : String → String → ℕ → Call
  failed_call : String → String → String → Call

unfoldable pub call : Call → List StripeEvent → List StripeEvent
unfolding insert_if_new claim_unprocessed renew_processing_lease mark_processed mark_failed
call (insert_call e) rows = (insert_if_new e rows).0
call (claim_call skipped limit worker now) rows =
    (claim_unprocessed skipped limit worker now rows).0
call (renew_call id worker now) rows = (renew_processing_lease id worker now rows).0
call (processed_call id worker now) rows = (mark_processed id worker now rows).0
call (failed_call id error worker) rows = (mark_failed id error worker rows).0

unfoldable pub run : List Call → List StripeEvent → List StripeEvent
run [] rows = rows
run (c ∷ cs) rows = run cs (call c rows)
