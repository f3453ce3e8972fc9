-- ===== src/Domain/Permissions/Platform.antt =====
-- The decisions on the platform.
use oss_tips.Base.{true, List, [], ◌∷◌, ◌≡◌, ◌⊎◌, ◌↔◌, inl, inr, arith, refl, Memᴰ, Bool-cases}
use oss_tips.Domain.Permissions.{
  allowed, PlatformRole, PlatformCapability, platform_refund, platform_has,
  platform_capabilities_for_role, User, Actor, user, api_key, anonymous, any_role, can_platform,
}

any_role_sound :
    (roles : List PlatformRole) (c : PlatformCapability)
    → any_role roles c ≡ allowed
    → (r : PlatformRole) × Memᴰ r roles × (platform_has (platform_capabilities_for_role r) c ≡ true)
unfolding any_role
any_role_sound [] c h = absurd (cc)
any_role_sound (role ∷ roles) c h =
    elim (Bool-cases (platform_has (platform_capabilities_for_role role) c)) [
      | inl here ↦ (role, Memᴰ.head refl, here)
      | inr later ↦ let (r, m, k) = any_role_sound roles c (rw later at h) in (r, Memᴰ.tail m, k)
    ]

any_role_complete :
    {r : PlatformRole} (roles : List PlatformRole) (c : PlatformCapability)
    → Memᴰ r roles
    → platform_has (platform_capabilities_for_role r) c ≡ true
    → any_role roles c ≡ allowed
unfolding any_role
any_role_complete [] c m k = elim m [ ]
any_role_complete (role ∷ roles) c (Memᴰ.head e) k = ground arith
any_role_complete (role ∷ roles) c (Memᴰ.tail m) k = ground (arith, any_role_complete roles c m k)

refund_roles :
    (r : PlatformRole)
    → platform_has (platform_capabilities_for_role r) platform_refund ≡ true
    → (r ≡ PlatformRole.owner) ⊎ (r ≡ PlatformRole.finance)
unfolding platform_capabilities_for_role
refund_roles r h = ground arith

-- Money can be returned on the platform's side exactly by a user with the role of owner or finance,
-- wherever it stands among the user's platform roles; every other actor is refused.
can_platform_refund_iff :
    (a : Actor)
    → (can_platform a platform_refund ≡ allowed) ↔ (
        (u : User) × (a ≡ user u)
        × (Memᴰ PlatformRole.owner u.platform_roles ⊎ Memᴰ PlatformRole.finance u.platform_roles))
unfolding can_platform platform_capabilities_for_role
can_platform_refund_iff (user u) = (
  λ h.
      let (r, m, k) = any_role_sound u.platform_roles platform_refund h in
      (u, refl, elim (refund_roles r k) [ inl e ↦ inl (rw e at m) | inr e ↦ inr (rw e at m) ]),
  λ (v, e, how).
      let same : u ≡ v = ground arith in
      rw same (elim how [
        | inl m ↦ any_role_complete v.platform_roles platform_refund m refl
        | inr m ↦ any_role_complete v.platform_roles platform_refund m refl
      ]),
)
can_platform_refund_iff (api_key p s) = (λ h. absurd (cc), λ (v, e, how). absurd (cc))
can_platform_refund_iff anonymous = (λ h. absurd (cc), λ (v, e, how). absurd (cc))
