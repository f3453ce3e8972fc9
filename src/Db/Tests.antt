-- ===== src/Db/Tests.antt =====
-- The repositories on small tables.
use oss_tips.Base.{
  ◌⊎◌, ℕ, ◌+◌, ◌≤◌, ◌<◌, String, Bool, true, false, none, some, List, [], ◌∷◌, Memᴰ, ok, ◌≡◌, refl,
  arith,
}
use oss_tips.Db.Jobs.{
  Job, completed, email_notification_job, claimed, enqueue, claim_next, earliest, complete, fail,
  Call, enqueue_call, claim_next_call, recover_call, complete_call, fail_call, call, run,
}
use oss_tips.Db.Jobs.Valid.{IsNew, IsValid, jobs-IsValid}
use oss_tips.Db.Jobs.Claims.{times_handed, open_attempt, handed_at_most}
use oss_tips.Db.Jobs.Leases.{IsLeased, lease_is_held}
use oss_tips.Db.StripeEvents.Once.{marks, times_processed, processed_once}
use oss_tips.Db.StripeEvents
use oss_tips.Db.OtpSendRateLimits.{
  OtpSendRateLimitPolicy, OtpSendRateLimitState, OtpSendRateLimitDecision, cooldown_ms,
  evaluate_otp_send,
}
use oss_tips.Db.OtpSendRateLimits.Table.{OtpSendRateLimit, email_scope, ip_scope, is_row, consume}
use oss_tips.Db.OtpSendRateLimits.Windows.{
  IsWithin, no_sends, times_allowed, window_bounds_sends, cooldown_refuses,
}
use oss_tips.Db.OtpSendRateLimits.Consume.{consume_decides}

abbrev mail : Job
unfolding email_notification_job
mail = email_notification_job "j1" "{}" 100 100

mail-IsNew : IsNew mail
unfolding email_notification_job
mail-IsNew = record {
  starts_pending = refl;
  no_attempts = refl;
  some_attempts = omega arith;
  no_time = refl;
  no_worker = refl;
}

abbrev none_skipped : String → Bool
none_skipped id = false

abbrev first_claim : List Call
first_claim = enqueue_call mail ∷ claim_next_call none_skipped "default" "w1" 200 ∷ []

-- The mail fails with one worker and is sent by another.
abbrev retried : List Call
retried =
    enqueue_call mail
    ∷ claim_next_call none_skipped "default" "w1" 200
    ∷ fail_call "j1" "smtp down" (some 350) "w1" 300
    ∷ claim_next_call none_skipped "default" "w2" 400
    ∷ complete_call "j1" "w2" 500
    ∷ []

jobs-IsValid_example : IsValid (run retried [])
jobs-IsValid_example = jobs-IsValid retried (mail-IsNew, (tt, (tt, (tt, (tt, tt)))))

abbrev sent : Job
sent = record mail {
  status = completed;
  attempt_count = 1;
  run_at = 350;
  last_error = some "smtp down";
  updated_at = 500;
}

sent_there : Memᴰ sent (run retried [])
unfolding email_notification_job run call enqueue claim_next earliest fail complete
sent_there = Memᴰ.head refl

handed_at_most_example :
    (times_handed "j1" retried [] ≡ 1 + open_attempt completed) × (times_handed "j1" retried [] ≤ 5)
unfolding email_notification_job
handed_at_most_example =
    handed_at_most retried (mail-IsNew, (tt, (tt, (tt, (tt, tt))))) sent sent_there

abbrev held : Job
held = claimed "w1" 200 mail

held_there : Memᴰ held (run first_claim [])
unfolding email_notification_job run call enqueue claim_next earliest
held_there = Memᴰ.head refl

held-IsLeased : IsLeased "w1" 200 held
held-IsLeased = record { in_processing = refl; since = refl; by_worker = refl }

-- Another worker polls, recovers and tries to settle.
abbrev meddling : List Call
meddling =
    claim_next_call none_skipped "default" "w2" 300
    ∷ recover_call none 300_199
    ∷ complete_call "j1" "w2" 300_200
    ∷ []

lease_is_held_example : Memᴰ held (run meddling (run first_claim []))
unfolding email_notification_job
lease_is_held_example =
    lease_is_held "w1" 200 meddling (run first_claim []) held
      (jobs-IsValid first_claim (mail-IsNew, (tt, tt))) held-IsLeased (tt, (tt, (tt, tt)))
      (tt, (omega arith, (refl, tt))) held_there

abbrev paid : StripeEvents.StripeEvent
paid = record {
  id = "e1";
  stripe_event_id = "evt_1";
  stripe_account_id = none;
  event_type = "invoice.paid";
  api_version = none;
  payload = "{}";
  processed_at = none;
  process_error = none;
  processing_at = none;
  processing_by = none;
  processing_attempts = 0;
  received_at = 10;
}

-- Two workers, the second after the lease of the first has timed out, both report success.
abbrev raced : List StripeEvents.Call
raced =
    StripeEvents.insert_call paid
    ∷ StripeEvents.claim_call none_skipped 10 "w1" 20
    ∷ StripeEvents.claim_call none_skipped 10 "w2" 300_020
    ∷ StripeEvents.processed_call "e1" "w2" 300_030
    ∷ StripeEvents.processed_call "e1" "w1" 300_040
    ∷ []

processed_once_example : times_processed "e1" raced [] ≤ 1
processed_once_example = processed_once raced "e1"

raced_once : times_processed "e1" raced [] ≡ 1
unfolding times_processed marks StripeEvents.call StripeEvents.insert_if_new
    StripeEvents.find_by_stripe_event_id StripeEvents.claim_unprocessed StripeEvents.by_received
    StripeEvents.insert_by_received StripeEvents.mark_processed
raced_once = refl

abbrev policy : OtpSendRateLimitPolicy
policy = record {
  email_limit = 3;
  ip_limit = 10;
  window_seconds = 3600;
  cooldown_seconds = 30 ∷ 60 ∷ 120 ∷ [];
}

abbrev quiet : OtpSendRateLimitState
quiet = record {
  window_started_at = 1_000;
  send_count = 0;
  last_sent_at = none;
  cooldown_level = 0;
}

abbrev requests : List ℕ
requests = 1_000 ∷ 2_000 ∷ 61_000 ∷ 181_000 ∷ 500_000 ∷ []

window_bounds_sends_example :
    (times_allowed policy quiet quiet requests ≤ 3)
    × (times_allowed policy quiet quiet requests ≤ 10)
window_bounds_sends_example = window_bounds_sends policy quiet quiet requests (
  (omega arith, omega arith),
  (
    (omega arith, omega arith),
    ((omega arith, omega arith), ((omega arith, omega arith), ((omega arith, omega arith), tt))),
  ),
)

three_allowed : times_allowed policy quiet quiet requests ≡ 3
unfolding times_allowed evaluate_otp_send
three_allowed = refl

sent_first : (evaluate_otp_send quiet quiet 1_000 policy).decision.allowed ≡ true
unfolding evaluate_otp_send
sent_first = refl

wait_of_level :
    2_000
    < 1_000
      + cooldown_ms policy (evaluate_otp_send quiet quiet 1_000 policy).email_state.cooldown_level
unfolding evaluate_otp_send
wait_of_level = omega arith

cooldown_refuses_example :
    let sent = (evaluate_otp_send quiet quiet 1_000 policy).email_state in
    (IsWithin policy sent 2_000
      × ((evaluate_otp_send sent quiet 2_000 policy).decision.allowed ≡ false))
    ⊎ ((¬ IsWithin policy sent 2_000)
        × (evaluate_otp_send sent quiet 2_000 policy
            ≡ evaluate_otp_send (no_sends 2_000) quiet 2_000 policy))
cooldown_refuses_example =
    cooldown_refuses policy quiet quiet quiet 1_000 2_000 sent_first wait_of_level

-- The first code of a window that ends a second later: the wait is thirty seconds, and the next code is
-- sent after a second.
sent_early :
    (evaluate_otp_send
      (evaluate_otp_send quiet quiet 3_600_000 policy).email_state
      quiet
      3_601_000
      policy).decision.allowed
    ≡ true
unfolding evaluate_otp_send
sent_early = refl

consume_decides_example :
    ((d : OtpSendRateLimitDecision) × ((consume "mail" "net" 5 policy []).1 ≡ ok d))
    × ((r : OtpSendRateLimit)
        → Memᴰ r []
        → is_row email_scope "mail" r ≡ false
        → is_row ip_scope "net" r ≡ false
        → Memᴰ r (consume "mail" "net" 5 policy []).0)
consume_decides_example = consume_decides "mail" "net" 5 policy []
