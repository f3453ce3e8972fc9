-- ===== src/Domain/Membership/Reachable.antt =====
-- The states that events lead to from the initial one.
use oss_tips.Base.{◌≡◌, ◌≢◌, ◌⊎◌, true, none, List, [], ◌∷◌, arith}
use oss_tips.Domain.Membership.{
  active, grace, cancelled, past_due, MembershipEvent, MembershipState, initial_membership_state,
  reduce_membership,
}

-- One event after another, from the first.
unfoldable pub run_events : MembershipState → List MembershipEvent → MembershipState
run_events s [] = s
run_events s (e ∷ es) = run_events (reduce_membership s e) es

pub record IsValid (s : MembershipState) : Type 0 where
  pub grace_dated : s.status ≡ grace → s.grace_ends_at ≢ none
  pub active_dated : s.status ≡ active → s.current_period_end ≢ none
  pub grace_only : s.grace_ends_at ≢ none → (s.status ≡ grace) ⊎ (s.status ≡ past_due)
  pub cancelled_marked : s.status ≡ cancelled → s.cancel_at_period_end ≡ true

reduce-IsValid :
    (s : MembershipState) (e : MembershipEvent) → IsValid s → IsValid (reduce_membership s e)
unfolding reduce_membership
reduce-IsValid s e v = ground arith

run_events-IsValid :
    (s : MembershipState) (es : List MembershipEvent) → IsValid s → IsValid (run_events s es)
unfolding run_events
run_events-IsValid s [] v = v
run_events-IsValid s (e ∷ es) v =
    run_events-IsValid (reduce_membership s e) es (reduce-IsValid s e v)

-- After any events from the initial state: a membership in grace has an end of grace; an active one
-- has a period end; an end of grace is kept only in grace or past due; and a cancelled one was
-- marked to cancel at the period's end.
pub membership-IsValid :
    (es : List MembershipEvent) → IsValid (run_events initial_membership_state es)
unfolding initial_membership_state
membership-IsValid es = run_events-IsValid _ es (ground arith)
