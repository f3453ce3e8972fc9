-- ===== src/Db/OtpSendRateLimits.antt =====
-- packages/db/src/repositories/otpSendRateLimits.ts: the limits on sending one-time codes to an address
-- of mail and from an address of the network. A time is its milliseconds, and a policy's numbers are
-- natural.
pub mod Windows
pub mod Table
pub mod Consume
use oss_tips.Base.{
  ℕ, suc, ◌+◌, ◌-◌, ◌*◌, ◌/◌, leb, ltb, String, str_eq, Bool, true, false, not, ◌&&◌, ◌||◌, Option,
  none, some, List, [], ◌∷◌, ◌++◌, length, any, find, Result, ok, err, if◌then◌else◌,
}
use oss_tips.Db.Rows.{update_where}

pub record OtpSendRateLimitPolicy : Type 0 where
  pub email_limit : ℕ
  pub ip_limit : ℕ
  pub window_seconds : ℕ
  pub cooldown_seconds : List ℕ

pub data OtpSendRateLimitReason : Type 0 where
  cooldown email ip : OtpSendRateLimitReason

pub record OtpSendRateLimitDecision : Type 0 where
  pub allowed : Bool
  pub reason : Option OtpSendRateLimitReason
  pub email_remaining : ℕ
  pub ip_remaining : ℕ
  pub reset_at : ℕ
  pub retry_after_seconds : ℕ

-- The row of an address; its scope is known from where it stands.
pub record OtpSendRateLimitState : Type 0 where
  pub window_started_at : ℕ
  pub send_count : ℕ
  pub last_sent_at : Option ℕ
  pub cooldown_level : ℕ

pub record OtpSendRateLimitEvaluation : Type 0 where
  pub email_state : OtpSendRateLimitState
  pub ip_state : OtpSendRateLimitState
  pub decision : OtpSendRateLimitDecision

abbrev max : ℕ → ℕ → ℕ
max a b = if ltb a b then b else a

abbrev min : ℕ → ℕ → ℕ
min a b = if ltb a b then a else b

-- `retryAfter`: at least a second, also for a time that has passed.
abbrev retry_after : ℕ → ℕ → ℕ
retry_after target now = max 1 ((target - now + 999) / 1000)

abbrev pub reset_expired : OtpSendRateLimitState → ℕ → ℕ → OtpSendRateLimitState
reset_expired row now window_ms =
    if ltb now (row.window_started_at + window_ms)
    then row
    else record { window_started_at = now; send_count = 0; last_sent_at = none; cooldown_level = 0 }

-- The block that lasts longer, that of the mail address if they end together.
abbrev pub later_block : Option ℕ → Option ℕ → Option (OtpSendRateLimitReason × ℕ)
later_block none none = none
later_block (some e) none = some (email, e)
later_block none (some i) = some (ip, i)
later_block (some e) (some i) = if ltb e i then some (ip, i) else some (email, e)

abbrev pub block_if : Bool → ℕ → Option ℕ
block_if true at = some at
block_if false at = none

abbrev or_zero : Option ℕ → ℕ
or_zero none = 0
or_zero (some n) = n

abbrev nth_or_zero : List ℕ → ℕ → ℕ
nth_or_zero [] k = 0
nth_or_zero (n ∷ ns) k = let rest = nth_or_zero ns (k - 1) in if ltb 0 k then rest else n

-- The wait after the last code to the address.
abbrev pub cooldown_ms : OtpSendRateLimitPolicy → ℕ → ℕ
cooldown_ms policy level =
    nth_or_zero policy.cooldown_seconds (min level (length policy.cooldown_seconds - 1)) * 1000

abbrev pub is_cooling : Option ℕ → ℕ → ℕ → Bool
is_cooling none wait now = false
is_cooling (some at) wait now = ltb now (at + wait)

abbrev pub refuse :
    OtpSendRateLimitPolicy
    → OtpSendRateLimitState
    → OtpSendRateLimitState
    → OtpSendRateLimitReason
    → ℕ
    → ℕ
    → OtpSendRateLimitEvaluation
refuse policy e i reason until now = record {
  email_state = e;
  ip_state = i;
  decision = record {
    allowed = false;
    reason = some reason;
    email_remaining = policy.email_limit - e.send_count;
    ip_remaining = policy.ip_limit - i.send_count;
    reset_at = until;
    retry_after_seconds = retry_after until now;
  };
}

abbrev pub sent_email : OtpSendRateLimitPolicy → OtpSendRateLimitState → ℕ → OtpSendRateLimitState
sent_email policy e now = record e {
  send_count = e.send_count + 1;
  last_sent_at = some now;
  cooldown_level = min (e.cooldown_level + 1) (length policy.cooldown_seconds - 1);
}

abbrev pub sent_ip : OtpSendRateLimitState → OtpSendRateLimitState
sent_ip i = record i { send_count = i.send_count + 1 }

abbrev pub send_code :
    OtpSendRateLimitPolicy
    → OtpSendRateLimitState
    → OtpSendRateLimitState
    → ℕ
    → ℕ
    → OtpSendRateLimitEvaluation
send_code policy e i reset now = record {
  email_state = sent_email policy e now;
  ip_state = sent_ip i;
  decision = record {
    allowed = true;
    reason = none;
    email_remaining = policy.email_limit - (e.send_count + 1);
    ip_remaining = policy.ip_limit - (i.send_count + 1);
    reset_at = reset;
    retry_after_seconds = retry_after reset now;
  };
}

abbrev pub evaluate_unblocked :
    OtpSendRateLimitPolicy
    → OtpSendRateLimitState
    → OtpSendRateLimitState
    → ℕ
    → ℕ
    → ℕ
    → OtpSendRateLimitEvaluation
evaluate_unblocked policy e i email_end ip_end now =
    if is_cooling e.last_sent_at (cooldown_ms policy e.cooldown_level) now
    then refuse policy e i cooldown (or_zero e.last_sent_at + cooldown_ms policy e.cooldown_level)
        now
    else send_code policy e i (max email_end ip_end) now

abbrev pub evaluate_blocked :
    OtpSendRateLimitPolicy
    → OtpSendRateLimitState
    → OtpSendRateLimitState
    → ℕ
    → ℕ
    → ℕ
    → Option (OtpSendRateLimitReason × ℕ)
    → OtpSendRateLimitEvaluation
evaluate_blocked policy e i email_end ip_end now (some (reason, until)) =
    refuse policy e i reason until now
evaluate_blocked policy e i email_end ip_end now none =
    evaluate_unblocked policy e i email_end ip_end now

-- What follows the reset of the windows that have ended.
abbrev pub evaluate_current :
    OtpSendRateLimitPolicy
    → OtpSendRateLimitState
    → OtpSendRateLimitState
    → ℕ
    → OtpSendRateLimitEvaluation
evaluate_current policy e i now =
    evaluate_blocked policy e i (e.window_started_at + policy.window_seconds * 1000)
      (i.window_started_at + policy.window_seconds * 1000) now
      (later_block
        (block_if (leb policy.email_limit e.send_count)
          (e.window_started_at + policy.window_seconds * 1000))
        (block_if (leb policy.ip_limit i.send_count)
          (i.window_started_at + policy.window_seconds * 1000)))

-- `evaluateOtpSend`
unfoldable pub evaluate_otp_send :
    OtpSendRateLimitState
    → OtpSendRateLimitState
    → ℕ
    → OtpSendRateLimitPolicy
    → OtpSendRateLimitEvaluation
evaluate_otp_send e i now policy =
    evaluate_current policy (reset_expired e now (policy.window_seconds * 1000))
      (reset_expired i now (policy.window_seconds * 1000)) now
