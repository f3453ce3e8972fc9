-- ===== src/Domain/Membership.antt =====
-- packages/domain/src/membership/index.ts: the life of a membership. A `Date` is its number of
-- milliseconds.
pub mod Reachable
pub mod Access
use oss_tips.Base.{
  ℕ, ◌+◌, ◌*◌, Bool, true, false, Option, none, some, ltb, leb, ◌&&◌, if◌then◌else◌, ◌||◌,
}

pub data MembershipStatus : Type 0 where
  active grace cancelled expired incomplete past_due : MembershipStatus

pub data MembershipEvent : Type 0 where
  invoice_paid : (period_end : ℕ) → MembershipEvent
  invoice_failed cancel_requested period_ended grace_ended refund_full chargeback_lost :
      (at : ℕ) → MembershipEvent

abbrev pub grace_period_ms : ℕ
grace_period_ms = 7 * 24 * 60 * 60 * 1000

pub record MembershipState : Type 0 where
  pub status : MembershipStatus
  pub current_period_end : Option ℕ
  pub grace_ends_at : Option ℕ
  pub cancel_at_period_end : Bool

unfoldable pub initial_membership_state : MembershipState
initial_membership_state = record {
  status = incomplete;
  current_period_end = none;
  grace_ends_at = none;
  cancel_at_period_end = false;
}

abbrev pub is_active_or_past_due : MembershipStatus → Bool
is_active_or_past_due active = true
is_active_or_past_due past_due = true
is_active_or_past_due _ = false

abbrev pub is_grace : MembershipStatus → Bool
is_grace grace = true
is_grace _ = false

abbrev pub is_active : MembershipStatus → Bool
is_active active = true
is_active _ = false

-- Both `refund_full` and `chargeback_lost`.
terminated : MembershipState → MembershipState
terminated state = record state { status = expired; grace_ends_at = none }

unfoldable pub reduce_membership : MembershipState → MembershipEvent → MembershipState
unfolding terminated
reduce_membership state (invoice_paid period_end) = record state {
  status = active;
  current_period_end = some period_end;
  grace_ends_at = none;
}
reduce_membership state (invoice_failed at) =
    if is_active_or_past_due state.status
    then record state { status = grace; grace_ends_at = some (at + grace_period_ms) }
    else record state { status = past_due }
reduce_membership state (cancel_requested at) = record state { cancel_at_period_end = true }
reduce_membership state (period_ended at) =
    if state.cancel_at_period_end
    then record state { status = cancelled; grace_ends_at = none; cancel_at_period_end = true }
    else state
reduce_membership state (grace_ended at) =
    if is_grace state.status then record state { status = expired; grace_ends_at = none } else state
reduce_membership state (refund_full at) = terminated state
reduce_membership state (chargeback_lost at) = terminated state

-- `now > date`, where the date may be missing.
abbrev pub is_after : ℕ → Option ℕ → Bool
is_after now none = false
is_after now (some d) = ltb d now

-- `now <= date`, where the date may be missing.
abbrev pub is_until : ℕ → Option ℕ → Bool
is_until now none = false
is_until now (some d) = leb now d

unfoldable pub has_active_access : MembershipState → ℕ → Bool
has_active_access state now =
    if is_active state.status
    then (if state.cancel_at_period_end && is_after now state.current_period_end
        then false
        else true)
    else is_grace state.status && is_until now state.grace_ends_at
