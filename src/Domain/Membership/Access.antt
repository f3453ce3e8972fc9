-- ===== src/Domain/Membership/Access.antt =====
-- When a membership gives access.
use oss_tips.Base.{ℕ, ◌+◌, ◌≡◌, ◌≢◌, ◌⊎◌, true, false, List, [], ◌∷◌, arith, ◌≤◌, leb, All, ◌↔◌}
use oss_tips.Domain.Membership.{
  active, grace, MembershipEvent, invoice_paid, invoice_failed, refund_full, chargeback_lost,
  MembershipState, grace_period_ms, reduce_membership, has_active_access, is_active_or_past_due,
}
use oss_tips.Domain.Membership.Reachable.{run_events}

-- A failed invoice of an active or past due membership leaves access for the seven days of grace,
-- the last millisecond included, and no longer.
invoice_failed_grace :
    (s : MembershipState) (at now : ℕ)
    → is_active_or_past_due s.status ≡ true
    → has_active_access (reduce_membership s (invoice_failed at)) now
      ≡ leb now (at + grace_period_ms)
unfolding reduce_membership has_active_access
invoice_failed_grace s at now h = ground arith

-- A paid invoice gives access without end, or up to the end of the period that it names if the
-- membership is to be cancelled there.
invoice_paid_access :
    (s : MembershipState) (period_end now : ℕ)
    → (has_active_access (reduce_membership s (invoice_paid period_end)) now ≡ true)
      ↔ ((s.cancel_at_period_end ≡ false) ⊎ (now ≤ period_end))
unfolding reduce_membership has_active_access
invoice_paid_access s period_end now = (λ h. ground arith, λ h. ground arith)

-- Neither a payment nor a failed payment.
abbrev pub IsQuiet : MembershipEvent → Type 0
IsQuiet (invoice_paid _) = ⊥
IsQuiet (invoice_failed _) = ⊥
IsQuiet _ = Unit

abbrev pub IsOut : MembershipState → Type 0
IsOut s = (s.status ≢ active) × (s.status ≢ grace)

quiet-IsOut :
    (s : MembershipState) (e : MembershipEvent)
    → IsQuiet e
    → IsOut s
    → IsOut (reduce_membership s e)
unfolding reduce_membership
quiet-IsOut s e q h = ground arith

IsOut-access : (s : MembershipState) (now : ℕ) → IsOut s → has_active_access s now ≡ false
unfolding has_active_access
IsOut-access s now h = ground arith

-- A membership that is neither active nor in grace has no access at any time, and gains none by any
-- number of events that are no payments and no failed payments.
pub no_access_without_payment :
    (s : MembershipState) (es : List MembershipEvent) (now : ℕ)
    → (s.status ≢ active)
    → (s.status ≢ grace)
    → All IsQuiet es
    → has_active_access (run_events s es) now ≡ false
unfolding run_events
no_access_without_payment s [] now a g q = IsOut-access s now (a, g)
no_access_without_payment s (e ∷ es) now a g q =
    let (a', g') = quiet-IsOut s e q.0 (a, g) in
    no_access_without_payment (reduce_membership s e) es now a' g' q.1

-- A full refund and a lost chargeback end access at once, in every state.
pub terminated_access :
    (s : MembershipState) (at now : ℕ)
    → (has_active_access (reduce_membership s (refund_full at)) now ≡ false)
      × (has_active_access (reduce_membership s (chargeback_lost at)) now ≡ false)
unfolding reduce_membership has_active_access
terminated_access s at now = ground arith
