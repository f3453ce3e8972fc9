-- ===== src/Domain/Tests.antt =====
-- Witnesses of the domain's theorems, at concrete amounts, memberships, entitlements and actors.
use oss_tips.Base.{
  ℕ, ◌+◌, ◌*◌, ◌≤◌, ◌≡◌, ◌↔◌, ◌⊎◌, refl, pos, ◌≤ℤ◌, String, [], ◌∷◌, none, some, ok, arith, true,
  false, Memᴰ,
}
use oss_tips.Domain.Money.{bigint, to_bigint, money_of}
use oss_tips.Domain.Fees.{
  ComputeFeeInput, FeeAllocation, standard, one_off, allocate, proportional_platform_refund,
}
use oss_tips.Domain.Fees.Allocation.{
  Balanced, compute_fee_allocation_balances, compute_fee_allocation_ok,
}
use oss_tips.Domain.Fees.Refunds.{
  proportional_platform_refund_bounds, proportional_platform_refund_mono, refund_args,
}
use oss_tips.Domain.Membership.{
  MembershipState, active, expired, invoice_paid, invoice_failed, cancel_requested, period_ended,
  refund_full, initial_membership_state, has_active_access,
}
use oss_tips.Domain.Membership.Reachable.{IsValid, run_events, membership-IsValid}
use oss_tips.Domain.Membership.Access.{no_access_without_payment}
use oss_tips.Domain.Entitlements.{
  EntitlementSnapshot, EntitlementKind, minimum_tier_rank, can_view_content, highest_tier_rank,
  selected_tier_ids,
}
use oss_tips.Domain.Entitlements.Access.{CanSee, can_view_content_iff, highest_tier_rank_iff}
use oss_tips.Domain.Permissions.{
  allowed, ProjectCapability, ProjectRole, PlatformRole, User, user, api_key, can_project,
  scope_map,
}
use oss_tips.Domain.Permissions.Users.{MayAct, user_iff}
use oss_tips.Domain.Permissions.Project.{api_key_iff}

abbrev tip : ComputeFeeInput
tip = record {
  project_amount_minor = bigint (pos 1025);
  platform_tip_minor = bigint (pos 100);
  currency = "gbp";
  feature_mode = standard;
  cadence = one_off;
}

abbrev allocated : FeeAllocation
allocated = allocate (money_of (pos 1025) "gbp") (money_of (pos 100) "gbp") tip

compute_fee_allocation_balances_example :
    (p : ℕ) × (t : ℕ) × (to_bigint (bigint (pos 1025)) ≡ ok (pos p))
    × (to_bigint (bigint (pos 100)) ≡ ok (pos t))
    × Balanced allocated p t
compute_fee_allocation_balances_example =
    compute_fee_allocation_balances tip allocated (compute_fee_allocation_ok tip 1025 100 refl refl)

proportional_platform_refund_bounds_example :
    (n : ℕ) × (proportional_platform_refund (refund_args 1125 500 121) ≡ pos n)
    × (n ≤ 121)
    × (n ≤ 500)
    × (◌≡◌ {A = ℕ} 500 1125 → n ≡ 121)
    × (2 * (1125 * n) ≤ 2 * (121 * 500) + 1125)
    × (2 * (121 * 500) ≤ 2 * (1125 * n) + 1125)
proportional_platform_refund_bounds_example =
    proportional_platform_refund_bounds 1125 500 121 (omega arith) (omega arith) (omega arith)

proportional_platform_refund_mono_example :
    proportional_platform_refund (refund_args 1125 500 121)
    ≤ℤ proportional_platform_refund (refund_args 1125 700 121)
proportional_platform_refund_mono_example =
    proportional_platform_refund_mono 1125 500 700 121 (omega arith)

membership-IsValid_example : IsValid (
    run_events initial_membership_state
      (invoice_paid 5000 ∷ cancel_requested 4500 ∷ invoice_failed 4000 ∷ []))
membership-IsValid_example =
    membership-IsValid (invoice_paid 5000 ∷ cancel_requested 4500 ∷ invoice_failed 4000 ∷ [])

abbrev paid : MembershipState
paid = record {
  status = active;
  current_period_end = some 5000;
  grace_ends_at = none;
  cancel_at_period_end = false;
}

abbrev ended : MembershipState
ended = record paid { status = expired }

no_access_without_payment_example :
    has_active_access
      (run_events ended (cancel_requested 4500 ∷ period_ended 5000 ∷ refund_full 4 ∷ []))
      5
    ≡ false
no_access_without_payment_example =
    no_access_without_payment ended (cancel_requested 4500 ∷ period_ended 5000 ∷ refund_full 4 ∷ [])
      5 (λ e. ground arith) (λ e. ground arith) (tt, (tt, (tt, tt)))

abbrev month : EntitlementSnapshot
month = record {
  kind = EntitlementKind.one_off;
  tier_rank = 2;
  tier_id = some "gold";
  starts_at = 100;
  ends_at = some 500;
  revoked_at = none;
}

can_view_content_iff_example :
    (can_view_content (selected_tier_ids ("gold" ∷ [])) true (month ∷ []) 300 ≡ true)
    ↔ CanSee (selected_tier_ids ("gold" ∷ [])) true (month ∷ []) 300
can_view_content_iff_example =
    can_view_content_iff (selected_tier_ids ("gold" ∷ [])) true (month ∷ []) 300

highest_tier_rank_iff_example :
    (can_view_content (minimum_tier_rank 2) true (month ∷ []) 300 ≡ true)
    ↔ (2 ≤ highest_tier_rank (month ∷ []) 300)
highest_tier_rank_iff_example = highest_tier_rank_iff 2 true (month ∷ []) 300 (omega arith)

abbrev editor_user : User
editor_user = record {
  user_id = "u1";
  project_roles = ("p1", ProjectRole.editor) ∷ [];
  stored = some (("p1", ProjectCapability.refund ∷ []) ∷ []);
  platform_roles = PlatformRole.finance ∷ [];
}

user_iff_example :
    (can_project (user editor_user) ProjectCapability.refund "p1" ≡ allowed)
    ↔ MayAct editor_user ProjectCapability.refund "p1"
user_iff_example = user_iff editor_user ProjectCapability.refund "p1"

api_key_iff_example :
    (can_project (api_key "p1" ("project:read" ∷ [])) ProjectCapability.view_analytics "p1"
      ≡ allowed)
    ↔ ((◌≡◌ {A = String} "p1" "p1")
        × (((s : String) × (scope_map ProjectCapability.view_analytics ≡ some s)
              × Memᴰ s ("project:read" ∷ []))
            ⊎ ((ProjectCapability.view_analytics ≡ ProjectCapability.view_analytics)
                × Memᴰ {A = String} "project:read" ("project:read" ∷ []))))
api_key_iff_example = api_key_iff "p1" ("project:read" ∷ []) ProjectCapability.view_analytics "p1"
