-- ===== src/Domain/Entitlements.antt =====
-- packages/domain/src/entitlements/index.ts: what a payment entitles a supporter to see. A `Date` is
-- its number of milliseconds; ranks are natural numbers, as the tier table keeps them.
pub mod Access
use Prim.Native.Nat.{max}
use oss_tips.Base.{
  ℕ, ◌+◌, ◌*◌, Bool, true, false, Option, none, some, ltb, leb, ◌==◌, ◌&&◌, ◌||◌, if◌then◌else◌,
  String, List, [], ◌∷◌, keep, any, str_eq,
}

pub data OneOffDuration : Type 0 where
  no_duration days_30 days_90 days_365 permanent : OneOffDuration

pub data EntitlementKind : Type 0 where
  one_off membership : EntitlementKind

pub record EntitlementSnapshot : Type 0 where
  pub kind : EntitlementKind
  pub tier_rank : ℕ
  pub tier_id : Option String
  pub starts_at : ℕ
  pub ends_at : Option ℕ
  pub revoked_at : Option ℕ

unfoldable pub one_off_ends_at : OneOffDuration → ℕ → Option ℕ
one_off_ends_at no_duration starts_at = some starts_at
one_off_ends_at permanent starts_at = none
one_off_ends_at days_30 starts_at = some (starts_at + 30 * 24 * 60 * 60 * 1000)
one_off_ends_at days_90 starts_at = some (starts_at + 90 * 24 * 60 * 60 * 1000)
one_off_ends_at days_365 starts_at = some (starts_at + 365 * 24 * 60 * 60 * 1000)

abbrev is_some : Option ℕ → Bool
is_some none = false
is_some (some _) = true

abbrev ended : ℕ → Option ℕ → Bool
ended now none = false
ended now (some e) = ltb e now

abbrev is_one_off : EntitlementKind → Bool
is_one_off one_off = true
is_one_off membership = false

-- a one-off entitlement that ends where it starts
abbrev is_empty : EntitlementSnapshot → Option ℕ → Bool
is_empty e none = false
is_empty e (some end_time) = is_one_off e.kind && end_time == e.starts_at

unfoldable pub is_entitlement_active : EntitlementSnapshot → ℕ → Bool
is_entitlement_active e now =
    if is_some e.revoked_at
    then false
    else if ltb now e.starts_at
    then false
    else if ended now e.ends_at
    then false
    else if is_empty e e.ends_at
    then false
    else true

pub data VisibilityRule : Type 0 where
  public signed_in_supporter : VisibilityRule
  minimum_tier_rank : ℕ → VisibilityRule
  selected_tier_ids : List String → VisibilityRule

abbrev is_selected : List String → Option String → Bool
is_selected ids none = false
is_selected ids (some id) = any (λ t. str_eq t id) ids

abbrev non_empty : List EntitlementSnapshot → Bool
non_empty [] = false
non_empty (_ ∷ _) = true

-- The decision on the entitlements that are active.
visible_to : VisibilityRule → Bool → List EntitlementSnapshot → Bool
visible_to public signed_in act = true
visible_to signed_in_supporter signed_in act = signed_in && non_empty act
visible_to (minimum_tier_rank rank) signed_in act = any (λ e. leb rank e.tier_rank) act
visible_to (selected_tier_ids ids) signed_in act = any (λ e. is_selected ids e.tier_id) act

unfoldable pub can_view_content : VisibilityRule → Bool → List EntitlementSnapshot → ℕ → Bool
unfolding visible_to
can_view_content rule signed_in es now =
    visible_to rule signed_in (keep (λ e. is_entitlement_active e now) es)

-- `reduce((max, e) => Math.max(max, e.tierRank), acc)`
max_rank : ℕ → List EntitlementSnapshot → ℕ
max_rank acc [] = acc
max_rank acc (e ∷ es) = max_rank (max acc e.tier_rank) es

unfoldable pub highest_tier_rank : List EntitlementSnapshot → ℕ → ℕ
unfolding max_rank
highest_tier_rank es now = max_rank 0 (keep (λ e. is_entitlement_active e now) es)
