-- ===== src/Domain/Entitlements/Access.antt =====
-- Who may see what.
use Prim.Native.Nat.{max}
use oss_tips.Base.{
  ℕ, ◌+◌, ◌*◌, Bool, true, Option, none, some, leb, String, ◌≤◌, ◌≡◌, ◌≢◌, ◌⊎◌, ◌↔◌, inr, arith,
  refl, List, [], ◌∷◌, keep, any, str_eq, Memᴰ, any-keep_sound, any-keep_complete, leb→le, ◌<◌,
  eq_iff, any_sound, any_complete, and-true, sym, ◌∙◌,
}
use oss_tips.Domain.Entitlements.{
  OneOffDuration, no_duration, days_30, days_90, days_365, permanent, one_off, EntitlementSnapshot,
  one_off_ends_at, is_entitlement_active, VisibilityRule, public, signed_in_supporter,
  minimum_tier_rank, selected_tier_ids, can_view_content, highest_tier_rank, visible_to, max_rank,
  is_selected, non_empty,
}

-- An entitlement is active at a time exactly when it is not revoked, the time lies between its start
-- and its end, both included, and it is not a one-off entitlement that ends where it starts.
is_entitlement_active_iff :
    (e : EntitlementSnapshot) (now : ℕ)
    → (is_entitlement_active e now ≡ true) ↔ (
        (e.revoked_at ≡ none)
        × (e.starts_at ≤ now)
        × ((e.ends_at ≡ none)
            ⊎ ((t : ℕ) × (e.ends_at ≡ some t)
                × (now ≤ t)
                × ((e.kind ≡ one_off) → t ≢ e.starts_at))))
unfolding is_entitlement_active
is_entitlement_active_iff e now = (λ h. ground arith, λ h. ground arith)

abbrev days_of : OneOffDuration → ℕ
days_of days_30 = 30
days_of days_90 = 90
days_of days_365 = 365
days_of _ = 0

abbrev pub purchase : OneOffDuration → ℕ → ℕ → Option String → EntitlementSnapshot
purchase d start rank tier = record {
  kind = one_off;
  tier_rank = rank;
  tier_id = tier;
  starts_at = start;
  ends_at = one_off_ends_at d start;
  revoked_at = none;
}

-- A one-off purchase with no duration is never active; a permanent one is active from its start;
-- any other from its start for its number of days.
purchase_active :
    (d : OneOffDuration) (start rank now : ℕ) (tier : Option String)
    → (is_entitlement_active (purchase d start rank tier) now ≡ true) ↔ (
        (d ≢ no_duration)
        × (start ≤ now)
        × ((d ≡ permanent) ⊎ (now ≤ start + days_of d * 86_400_000)))
unfolding is_entitlement_active one_off_ends_at
purchase_active d start rank now tier = (λ h. ground arith, λ h. ground arith)

-- What each rule asks of the viewer.
abbrev pub CanSee : VisibilityRule → Bool → List EntitlementSnapshot → ℕ → Type 0
CanSee public signed_in es now = Unit
CanSee signed_in_supporter signed_in es now =
    (signed_in ≡ true)
    × ((e : EntitlementSnapshot) × Memᴰ e es × (is_entitlement_active e now ≡ true))
CanSee (minimum_tier_rank rank) signed_in es now =
    (e : EntitlementSnapshot) × Memᴰ e es
    × (is_entitlement_active e now ≡ true)
    × (rank ≤ e.tier_rank)
CanSee (selected_tier_ids ids) signed_in es now =
    (e : EntitlementSnapshot) × Memᴰ e es
    × (is_entitlement_active e now ≡ true)
    × ((id : String) × (e.tier_id ≡ some id) × Memᴰ id ids)

non_empty-any : (es : List EntitlementSnapshot) → non_empty es ≡ any (λ _. true) es
non_empty-any [] = refl
non_empty-any (e ∷ es) = refl

is_selected_sound :
    (ids : List String) (t : Option String)
    → is_selected ids t ≡ true
    → (id : String) × (t ≡ some id) × Memᴰ id ids
is_selected_sound ids none h = absurd (cc)
is_selected_sound ids (some id) h =
    let (t, m, e) = any_sound (λ t. str_eq t id) ids h in (id, refl, rw ((eq_iff t id).0 e) at m)

is_selected_complete :
    (ids : List String) (t : Option String) (id : String)
    → t ≡ some id
    → Memᴰ id ids
    → is_selected ids t ≡ true
is_selected_complete ids t id e m =
    rw e (any_complete (λ t. str_eq t id) ids m ((eq_iff id id).1 refl))

-- Content is shown exactly to those who meet its rule: to everyone, to a signed-in viewer with an
-- active entitlement, to the holder of an active entitlement of the rank or above, or to the holder
-- of an active entitlement for one of the tiers.
pub can_view_content_iff :
    (rule : VisibilityRule) (signed_in : Bool) (es : List EntitlementSnapshot) (now : ℕ)
    → (can_view_content rule signed_in es now ≡ true) ↔ CanSee rule signed_in es now
unfolding can_view_content visible_to
can_view_content_iff public signed_in es now = (λ h. tt, λ h. refl)
can_view_content_iff signed_in_supporter signed_in es now = (
  λ h.
      let (s, n) = and-true _ _ h in
      let (e, m, k, _) = any-keep_sound (λ _. true) _ es (sym (non_empty-any _) ∙ n) in
      (s, (e, m, k)),
  λ c.
      let (s, (e, m, k)) = c in
      rw s (non_empty-any _ ∙ any-keep_complete (λ _. true) _ es m k refl),
)
can_view_content_iff (minimum_tier_rank rank) signed_in es now = (
  λ h. let (e, m, k, r) = any-keep_sound _ _ es h in (e, m, k, leb→le _ _ r),
  λ c. let (e, m, k, r) = c in any-keep_complete _ _ es m k (ground arith),
)
can_view_content_iff (selected_tier_ids ids) signed_in es now = (
  λ h. let (e, m, k, r) = any-keep_sound _ _ es h in (e, m, k, is_selected_sound ids e.tier_id r),
  λ c.
      let (e, m, k, (id, t, i)) = c in
      any-keep_complete _ _ es m k (is_selected_complete ids e.tier_id id t i),
)

max_rank_iff :
    (es : List EntitlementSnapshot) (rank acc : ℕ)
    → (rank ≤ max_rank acc es) ↔ ((rank ≤ acc) ⊎ (any (λ e. leb rank e.tier_rank) es ≡ true))
unfolding max_rank
max_rank_iff [] rank acc = ground arith
max_rank_iff (e ∷ es) rank acc = ground (arith, max_rank_iff es rank (max acc e.tier_rank))

-- Content that asks for a positive rank is shown exactly if the rank is at most the highest rank of
-- the active entitlements: ranks do not add up.
pub highest_tier_rank_iff :
    (rank : ℕ) (signed_in : Bool) (es : List EntitlementSnapshot) (now : ℕ)
    → 0 < rank
    → (can_view_content (minimum_tier_rank rank) signed_in es now ≡ true)
      ↔ (rank ≤ highest_tier_rank es now)
unfolding can_view_content visible_to highest_tier_rank
highest_tier_rank_iff rank signed_in es now h =
    let (to, from) = max_rank_iff (keep (λ e. is_entitlement_active e now) es) rank 0 in
    (λ c. from (inr c), λ r. ground (arith, to r))
