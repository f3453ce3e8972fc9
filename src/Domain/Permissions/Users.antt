-- ===== src/Domain/Permissions/Users.antt =====
-- The decision on a user.
use oss_tips.Base.{
  Bool, true, some, if◌then◌else◌, String, List, [], ◌∷◌, str_eq, Option-cases, Bool-cases, ◌≡◌,
  ◌≢◌, ◌⊎◌, ◌↔◌, inl, inr, arith, refl, subst, Memᴰ, eq_iff,
}
use oss_tips.Domain.Permissions.{
  allowed, denied, ProjectCapability, ProjectRole, project_capabilities_for_role, has, Entries, get,
  or_else, User, user, stored_of, role_of, by_role, can_project,
}
use oss_tips.Domain.Permissions.Project.{has_iff}

-- The map has the value at the key: its first entry with the key has it.
abbrev pub Holds : {A : Type 0} → String → A → Entries A → Type 0
Holds k v [] = ⊥
Holds k v ((j, w) ∷ m) = ((j ≡ k) × (w ≡ v)) ⊎ ((j ≢ k) × Holds k v m)

-- The map has the value for the project: under its id, or under `*` if it has none under its id.
abbrev pub Serves : {A : Type 0} → String → A → Entries A → Type 0
Serves {A = A} project_id v m =
    Holds project_id v m ⊎ (((w : A) → ¬ Holds project_id w m) × Holds "*" v m)

abbrev pub HasStored : User → String → List ProjectCapability → Type 0
HasStored u project_id set =
    (m : Entries (List ProjectCapability)) × (u.stored ≡ some m) × Serves project_id set m

-- The set that a user's role or the stored capabilities give.
abbrev pub Grants : User → ProjectCapability → String → ProjectRole → Type 0
Grants u c project_id role =
    ((set : List ProjectCapability) × HasStored u project_id set × Memᴰ c set)
    ⊎ (((set : List ProjectCapability) → ¬ HasStored u project_id set)
        × Memᴰ c (project_capabilities_for_role role))

-- What a user needs to act on a project.
abbrev pub MayAct : User → ProjectCapability → String → Type 0
MayAct u c project_id =
    (role : ProjectRole) × Serves project_id role u.project_roles × Grants u c project_id role

get_iff : {A : Type 0} → (k : String) (v : A) (m : Entries A) → (get k m ≡ some v) ↔ Holds k v m
get_iff k v [] = (λ e. absurd (cc), λ h. absurd h)
get_iff k v ((j, w) ∷ m) =
    let (same_to, same_from) = eq_iff j k in
    let (to, from) = get_iff k v m in
    elim (Bool-cases (str_eq j k)) [
      | inl t ↦ (
        λ e. inl (same_to t, cc),
        λ h. elim h [ inl (f, g) ↦ rw (t, g) refl | inr (f, g) ↦ absurd (f (same_to t)) ],
      )
      | inr t ↦ (
        λ e. let e' = rw t at e in inr (λ f. absurd (let g = same_from f in cc), to e'),
        λ h. elim h [
          | inl (f, g) ↦ absurd (let g = same_from f in cc)
          | inr (f, g) ↦ rw t (from g)
        ],
      )
    ]

lookup_iff :
    {A : Type 0} (project_id : String) (v : A) (m : Entries A)
    → (or_else (get project_id m) (get "*" m) ≡ some v) ↔ Serves project_id v m
lookup_iff project_id v m = elim (Option-cases (get project_id m)) [
  | inl absent ↦ (
    λ e. inr (
      λ w h. let g = (get_iff project_id w m).1 h in absurd (cc),
      (get_iff "*" v m).0 (rw absent at e),
    ),
    λ h. elim h [
      | inl held ↦ let g = (get_iff project_id v m).1 held in absurd (cc)
      | inr (free, star) ↦ rw absent ((get_iff "*" v m).1 star)
    ],
  )
  | inr (w, present) ↦ (
    λ e. let e' = rw present at e in inl ((get_iff project_id v m).0 (cc)),
    λ h. elim h [
      | inl held ↦ let g = (get_iff project_id v m).1 held in rw present (cc)
      | inr (free, star) ↦ absurd (free w ((get_iff project_id w m).0 present))
    ],
  )
]

stored_iff :
    (u : User) (project_id : String) (set : List ProjectCapability)
    → (stored_of u project_id ≡ some set) ↔ HasStored u project_id set
stored_iff u project_id set = elim (Option-cases u.stored) [
  | inl e ↦ (λ h. absurd (let h' = rw e at h in cc), λ (m, f, s). absurd (cc))
  | inr (m, e) ↦ (
    λ h. (m, e, (lookup_iff project_id set m).0 (rw e at h)),
    λ (k, f, s).
        let same : k ≡ m = cc in
        rw e ((lookup_iff project_id set m).1 (subst (Serves project_id set) same s)),
  )
]

if_allowed :
    (t : Bool) → ((if t then allowed else denied "missing_capability") ≡ allowed) ↔ (t ≡ true)
if_allowed t = (λ h. ground arith, λ h. ground arith)

-- The capability is in a set.
set_iff :
    (set : List ProjectCapability) (c : ProjectCapability)
    → ((if has set c then allowed else denied "missing_capability") ≡ allowed) ↔ Memᴰ c set
set_iff set c =
    let (to, from) = if_allowed (has set c) in
    let (in_set, found) = has_iff set c in (λ h. in_set (to h), λ m. from (found m))

by_role_iff :
    (u : User) (c : ProjectCapability) (project_id : String) (role : ProjectRole)
    → (by_role role (stored_of u project_id) c ≡ allowed) ↔ Grants u c project_id role
unfolding by_role
by_role_iff u c project_id role = elim (Option-cases (stored_of u project_id)) [
  | inl absent ↦
      let free : (set : List ProjectCapability) → ¬ HasStored u project_id set =
        λ set h. let g = (stored_iff u project_id set).1 h in absurd (cc) in
      (
        λ h. inr (free, (set_iff (project_capabilities_for_role role) c).0 (rw absent at h)),
        λ h. elim h [
          | inl (set, held, m) ↦ absurd (free set held)
          | inr (g, m) ↦ rw absent ((set_iff (project_capabilities_for_role role) c).1 m)
        ],
      )
  | inr (set, present) ↦
      let held = (stored_iff u project_id set).0 present in
      (
        λ h. inl (set, held, (set_iff set c).0 (rw present at h)),
        λ h. elim h [
          | inl (other, held', m) ↦
              let same : other ≡ set = let g = (stored_iff u project_id other).1 held' in cc in
              rw present ((set_iff set c).1 (subst (λ z. Memᴰ c z) same m))
          | inr (free, m) ↦ absurd (free set held)
        ],
      )
]

-- A user may act on a project exactly if a role of the user is found for it, under its id or, if there
-- is none, under `*`; and the capability is in the set that is stored for the project, under its id or,
-- if there is none, under `*`, or, if no set is stored for it, in the set of the role.
pub user_iff :
    (u : User) (c : ProjectCapability) (project_id : String)
    → (can_project (user u) c project_id ≡ allowed) ↔ MayAct u c project_id
unfolding can_project by_role
user_iff u c project_id = elim (Option-cases (role_of u project_id)) [
  | inl absent ↦ (
    λ h. absurd (let h' = rw absent at h in cc),
    λ (role, found, granted).
        absurd (let g = (lookup_iff project_id role u.project_roles).1 found in cc),
  )
  | inr (role, present) ↦
      let (to, from) = by_role_iff u c project_id role in
      (
        λ h. (role, (lookup_iff project_id role u.project_roles).0 present, to (rw present at h)),
        λ (other, found, granted).
            let same : other ≡ role =
              let g = (lookup_iff project_id other u.project_roles).1 found in cc in
            rw present (from (subst (Grants u c project_id) same granted)),
      )
]
