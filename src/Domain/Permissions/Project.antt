-- ===== src/Domain/Permissions/Project.antt =====
-- The decisions on a project.
use oss_tips.Base.{
  ℕ, zero, suc, ◌==◌, Bool, true, Option, none, some, if◌then◌else◌, String, List, [], ◌∷◌, str_eq,
  ◌&&◌, ◌≡◌, ◌⊎◌, ◌↔◌, inl, inr, arith, refl, ap, sym, ◌∙◌, Memᴰ, any_sound, any_complete, eq_iff,
  ==_iff,
}
use oss_tips.Domain.Permissions.{
  allowed, denied, ProjectCapability, transfer_ownership, delete, connect_stripe, change_fee_mode,
  manage_domain, manage_team, refund, export_finance, manage_tiers, manage_goals, publish_posts,
  reply_supporters, discord_mappings, view_analytics, manage_webhooks, manage_api_keys,
  view_payments, publish_project, capability_index, project_capabilities, has, api_key, scope_map,
  has_scope, has_needed, can_api_key, can_project, is_view_analytics,
}

-- The capability with a number, so that the numbers tell the capabilities apart.
abbrev nth : List ProjectCapability → ℕ → ProjectCapability
nth [] i = transfer_ownership
nth (c ∷ cs) zero = c
nth (c ∷ cs) (suc i) = nth cs i

nth-capability_index : (c : ProjectCapability) → nth project_capabilities (capability_index c) ≡ c
nth-capability_index transfer_ownership = refl
nth-capability_index delete = refl
nth-capability_index connect_stripe = refl
nth-capability_index change_fee_mode = refl
nth-capability_index manage_domain = refl
nth-capability_index manage_team = refl
nth-capability_index refund = refl
nth-capability_index export_finance = refl
nth-capability_index manage_tiers = refl
nth-capability_index manage_goals = refl
nth-capability_index publish_posts = refl
nth-capability_index reply_supporters = refl
nth-capability_index discord_mappings = refl
nth-capability_index view_analytics = refl
nth-capability_index manage_webhooks = refl
nth-capability_index manage_api_keys = refl
nth-capability_index view_payments = refl
nth-capability_index publish_project = refl

capability_index_injective :
    (c d : ProjectCapability) → capability_index c ≡ capability_index d → c ≡ d
capability_index_injective c d e =
    sym (nth-capability_index c) ∙ ap (nth project_capabilities) e ∙ nth-capability_index d

pub has_iff :
    (set : List ProjectCapability) (c : ProjectCapability) → (has set c ≡ true) ↔ Memᴰ c set
has_iff set c = (
  λ h.
      let (d, m, e) = any_sound (λ d. capability_index d == capability_index c) set h in
      rw (capability_index_injective d c ((==_iff _ _).0 e)) at m,
  λ m. any_complete (λ d. capability_index d == capability_index c) set m ((==_iff _ _).1 refl),
)

has_scope_iff : (scopes : List String) (s : String) → (has_scope scopes s ≡ true) ↔ Memᴰ s scopes
has_scope_iff scopes s = (
  λ h. let (t, m, e) = any_sound (λ t. str_eq t s) scopes h in rw ((eq_iff t s).0 e) at m,
  λ m. any_complete (λ t. str_eq t s) scopes m ((eq_iff s s).1 refl),
)

needed_iff :
    (scopes : List String) (o : Option String)
    → (has_needed scopes o ≡ true) ↔ ((s : String) × (o ≡ some s) × Memᴰ s scopes)
needed_iff scopes none = (λ h. absurd (cc), λ (s, e, m). absurd (cc))
needed_iff scopes (some t) = (
  λ h. (t, refl, (has_scope_iff scopes t).0 h),
  λ (s, e, m). let e' : s ≡ t = ground arith in (has_scope_iff scopes t).1 (rw e' at m),
)

is_view_analytics_iff :
    (c : ProjectCapability) → (is_view_analytics c ≡ true) ↔ (c ≡ view_analytics)
is_view_analytics_iff c = (λ h. ground arith, λ h. ground arith)

-- The three tests of `can_api_key`.
key_tests :
    (a b d e : Bool)
    → ((if a
          then (if b then allowed else if d && e then allowed else denied "insufficient_scope")
          else denied "wrong_project")
        ≡ allowed)
      ↔ ((a ≡ true) × ((b ≡ true) ⊎ ((e ≡ true) × (d ≡ true))))
key_tests a b d e = (λ h. ground arith, λ h. ground arith)

-- What an API key needs: it is of the project, and has the scope that the capability maps to, or
-- reads the project where the capability is to view its analytics. So a capability that maps to no
-- scope, such as a refund or the transfer of the project, is denied to every key.
pub api_key_iff :
    (key_project : String) (scopes : List String) (c : ProjectCapability) (project_id : String)
    → (can_project (api_key key_project scopes) c project_id ≡ allowed) ↔ (
        (key_project ≡ project_id)
        × (((s : String) × (scope_map c ≡ some s) × Memᴰ s scopes)
            ⊎ ((c ≡ view_analytics) × Memᴰ "project:read" scopes)))
unfolding can_project can_api_key
api_key_iff key_project scopes c project_id =
    let (to, from) =
      key_tests (str_eq key_project project_id) (has_needed scopes (scope_map c))
        (has_scope scopes "project:read") (is_view_analytics c) in
    let (same_to, same_from) = eq_iff key_project project_id in
    let (need_to, need_from) = needed_iff scopes (scope_map c) in
    let (view_to, view_from) = is_view_analytics_iff c in
    let (read_to, read_from) = has_scope_iff scopes "project:read" in
    (
      λ h.
          let (same, how) = to h in
          (
            same_to same,
            elim how [ inl n ↦ inl (need_to n) | inr (v, r) ↦ inr (view_to v, read_to r) ],
          ),
      λ (same, how). from (
        same_from same,
        elim how [ inl n ↦ inl (need_from n) | inr (v, r) ↦ inr (view_from v, read_from r) ],
      ),
    )
