-- ===== src/Domain/Permissions.antt =====
-- packages/domain/src/permissions/index.ts: who may do what. A `Set` is the list of its elements, and
-- a `Map` the list of its entries.
pub mod Project
pub mod Users
pub mod Platform
use Prim.Native.String
use oss_tips.Base.{
  ℕ, ◌==◌, Bool, true, false, Option, none, some, if◌then◌else◌, String, List, [], ◌∷◌, any, map,
  str_eq, ◌&&◌, Result, ok, err,
}

pub data Decision : Type 0 where
  allowed : Decision
  denied : (reason : String) → Decision

pub data ProjectCapability : Type 0 where
  transfer_ownership delete connect_stripe change_fee_mode manage_domain manage_team refund
        export_finance manage_tiers manage_goals publish_posts reply_supporters discord_mappings
        view_analytics manage_webhooks manage_api_keys view_payments publish_project :
      ProjectCapability

abbrev pub capability_name : ProjectCapability → String
capability_name transfer_ownership = "project.transfer_ownership"
capability_name delete = "project.delete"
capability_name connect_stripe = "project.connect_stripe"
capability_name change_fee_mode = "project.change_fee_mode"
capability_name manage_domain = "project.manage_domain"
capability_name manage_team = "project.manage_team"
capability_name refund = "project.refund"
capability_name export_finance = "project.export_finance"
capability_name manage_tiers = "project.manage_tiers"
capability_name manage_goals = "project.manage_goals"
capability_name publish_posts = "project.publish_posts"
capability_name reply_supporters = "project.reply_supporters"
capability_name discord_mappings = "project.discord_mappings"
capability_name view_analytics = "project.view_analytics"
capability_name manage_webhooks = "project.manage_webhooks"
capability_name manage_api_keys = "project.manage_api_keys"
capability_name view_payments = "project.view_payments"
capability_name publish_project = "project.publish_project"

abbrev pub project_capabilities : List ProjectCapability
project_capabilities =
    transfer_ownership ∷ delete ∷ connect_stripe ∷ change_fee_mode ∷ manage_domain ∷ manage_team
    ∷ refund ∷ export_finance ∷ manage_tiers ∷ manage_goals ∷ publish_posts ∷ reply_supporters
    ∷ discord_mappings ∷ view_analytics ∷ manage_webhooks ∷ manage_api_keys ∷ view_payments
    ∷ publish_project ∷ []

-- Two capabilities are one if their names are: a `Set` of strings compares strings.
abbrev capability_index : ProjectCapability → ℕ
capability_index transfer_ownership = 0
capability_index delete = 1
capability_index connect_stripe = 2
capability_index change_fee_mode = 3
capability_index manage_domain = 4
capability_index manage_team = 5
capability_index refund = 6
capability_index export_finance = 7
capability_index manage_tiers = 8
capability_index manage_goals = 9
capability_index publish_posts = 10
capability_index reply_supporters = 11
capability_index discord_mappings = 12
capability_index view_analytics = 13
capability_index manage_webhooks = 14
capability_index manage_api_keys = 15
capability_index view_payments = 16
capability_index publish_project = 17

abbrev pub has : List ProjectCapability → ProjectCapability → Bool
has set c = any (λ d. capability_index d == capability_index c) set

unfoldable pub is_project_capability : String → Bool
is_project_capability value = any (λ c. str_eq (capability_name c) value) project_capabilities

pub data ProjectRole : Type 0 where
  owner admin finance editor community analyst : ProjectRole

unfoldable pub project_capabilities_for_role : ProjectRole → List ProjectCapability
project_capabilities_for_role owner =
    transfer_ownership ∷ delete ∷ connect_stripe ∷ change_fee_mode ∷ manage_domain ∷ manage_team
    ∷ refund ∷ export_finance ∷ manage_tiers ∷ manage_goals ∷ publish_posts ∷ reply_supporters
    ∷ discord_mappings ∷ view_analytics ∷ manage_webhooks ∷ manage_api_keys ∷ view_payments
    ∷ publish_project ∷ []
project_capabilities_for_role admin =
    change_fee_mode ∷ manage_domain ∷ manage_team ∷ export_finance ∷ manage_tiers ∷ manage_goals
    ∷ publish_posts ∷ reply_supporters ∷ discord_mappings ∷ view_analytics ∷ manage_webhooks
    ∷ manage_api_keys ∷ view_payments ∷ publish_project ∷ []
project_capabilities_for_role finance =
    refund ∷ export_finance ∷ view_analytics ∷ view_payments ∷ []
project_capabilities_for_role editor = publish_posts ∷ view_analytics ∷ []
project_capabilities_for_role community = reply_supporters ∷ discord_mappings ∷ view_analytics ∷ []
project_capabilities_for_role analyst = view_analytics ∷ view_payments ∷ []

pub data PlatformRole : Type 0 where
  owner operations finance moderation support auditor : PlatformRole

pub data PlatformCapability : Type 0 where
  review_projects platform_refund view_audit manage_users view_reconciliation view_as_readonly :
      PlatformCapability

abbrev platform_index : PlatformCapability → ℕ
platform_index review_projects = 0
platform_index platform_refund = 1
platform_index view_audit = 2
platform_index manage_users = 3
platform_index view_reconciliation = 4
platform_index view_as_readonly = 5

unfoldable pub platform_capabilities_for_role : PlatformRole → List PlatformCapability
platform_capabilities_for_role PlatformRole.owner =
    review_projects ∷ platform_refund ∷ view_audit ∷ manage_users ∷ view_reconciliation
    ∷ view_as_readonly ∷ []
platform_capabilities_for_role PlatformRole.operations =
    review_projects ∷ view_audit ∷ manage_users ∷ view_reconciliation ∷ view_as_readonly ∷ []
platform_capabilities_for_role PlatformRole.finance =
    platform_refund ∷ view_audit ∷ view_reconciliation ∷ []
platform_capabilities_for_role PlatformRole.moderation =
    review_projects ∷ view_audit ∷ view_as_readonly ∷ []
platform_capabilities_for_role PlatformRole.support = view_audit ∷ view_as_readonly ∷ []
platform_capabilities_for_role PlatformRole.auditor = view_audit ∷ view_reconciliation ∷ []

abbrev pub platform_has : List PlatformCapability → PlatformCapability → Bool
platform_has set c = any (λ d. platform_index d == platform_index c) set

-- A `Map` from project ids.
abbrev pub Entries {ℓ} : Type ℓ → Type ℓ
Entries V = List (String × V)

abbrev pub get {ℓ} : {V : Type ℓ} → String → Entries V → Option V
get k [] = none
get k ((j, v) ∷ m) = if str_eq j k then some v else get k m

-- `a ?? b`
abbrev pub or_else {ℓ} : {V : Type ℓ} → Option V → Option V → Option V
or_else none o = o
or_else (some v) o = some v

pub record User : Type 0 where
  pub user_id : String
  pub project_roles : Entries ProjectRole
  pub stored : Option (Entries (List ProjectCapability))
  pub platform_roles : List PlatformRole

pub data Actor : Type 0 where
  user : User → Actor
  api_key : (project_id : String) → (scopes : List String) → Actor
  anonymous : Actor

abbrev pub scope_map : ProjectCapability → Option String
scope_map publish_posts = some "posts:write"
scope_map manage_goals = some "goals:write"
scope_map view_analytics = some "analytics:read"
scope_map manage_webhooks = some "webhooks:manage"
scope_map manage_api_keys = some "webhooks:manage"
scope_map view_payments = some "supporters:read"
scope_map manage_tiers = some "tiers:read"
scope_map _ = none

abbrev pub has_scope : List String → String → Bool
has_scope scopes s = any (λ t. str_eq t s) scopes

abbrev pub has_needed : List String → Option String → Bool
has_needed scopes none = false
has_needed scopes (some needed) = has_scope scopes needed

abbrev pub is_view_analytics : ProjectCapability → Bool
is_view_analytics view_analytics = true
is_view_analytics _ = false

can_api_key : String → List String → ProjectCapability → String → Decision
can_api_key key_project scopes capability project_id =
    if str_eq key_project project_id
    then (if has_needed scopes (scope_map capability)
        then allowed
        else if has_scope scopes "project:read" && is_view_analytics capability
        then allowed
        else denied "insufficient_scope")
    else denied "wrong_project"

abbrev pub stored_of : User → String → Option (List ProjectCapability)
stored_of u project_id = elim u.stored [
  | none ↦ none
  | some m ↦ or_else (get project_id m) (get "*" m)
]

abbrev pub role_of : User → String → Option ProjectRole
role_of u project_id = or_else (get project_id u.project_roles) (get "*" u.project_roles)

by_role : ProjectRole → Option (List ProjectCapability) → ProjectCapability → Decision
by_role role (some set) capability =
    if has set capability then allowed else denied "missing_capability"
by_role role none capability =
    if has (project_capabilities_for_role role) capability
    then allowed
    else denied "missing_capability"

-- A user with this role, and these stored capabilities.
decide_user : Option ProjectRole → Option (List ProjectCapability) → ProjectCapability → Decision
unfolding by_role
decide_user none set capability = denied "not_a_member"
decide_user (some role) set capability = by_role role set capability

unfoldable pub can_project : Actor → ProjectCapability → String → Decision
unfolding decide_user can_api_key
can_project anonymous capability project_id = denied "unauthenticated"
can_project (api_key key_project scopes) capability project_id =
    can_api_key key_project scopes capability project_id
can_project (user u) capability project_id =
    decide_user (role_of u project_id) (stored_of u project_id) capability

-- The loop over the platform roles.
any_role : List PlatformRole → PlatformCapability → Decision
any_role [] capability = denied "missing_capability"
any_role (role ∷ roles) capability =
    if platform_has (platform_capabilities_for_role role) capability
    then allowed
    else any_role roles capability

unfoldable pub can_platform : Actor → PlatformCapability → Decision
unfolding any_role
can_platform (user u) capability = any_role u.platform_roles capability
can_platform (api_key _ _) capability = denied "unauthenticated"
can_platform anonymous capability = denied "unauthenticated"

unfoldable pub assert_allowed : Decision → Result (Unit {0})
assert_allowed allowed = ok tt
assert_allowed (denied reason) = err (String.◌++◌ "Forbidden: " reason)
