-- ===== src/Access/Tests.antt =====
-- An owner makes a project and adds a member to it; a viewer of the organization does not see it.
use claim_it_all.Prelude.{
  ℕ, true, false, none, some, [], ◌∷◌, ◌≡◌, ◌↔◌, inl, inr, refl, arith, All, some_inj,
}
use mathlib.Core.Path.{subst}
use claim_it_all.Prelude.Text.{codes}
use claim_it_all.Authz.Roles.{TenantRole, ProjectRole, ProjectStatus, can_assign_project_role}
use claim_it_all.Authz.Capabilities.{project_read, is_same}
use claim_it_all.Authz.Grants.{
  tenant_role_capabilities, project_role_capabilities, mutating_project_capabilities,
}
use claim_it_all.Authz.Permissions.{
  resolve_capabilities, add_all, capabilities_for_tenant_role, capabilities_for_project_role,
  merge_capabilities, withdraw, capabilities_for_role,
}
use claim_it_all.Service.Result.{ok, thrown, not_found}
use claim_it_all.Access.Types.{
  SessionUser, Tenant, TenantStatus, TenantMembership, MembershipStatus, Project, ProjectMembership,
  World, TenantContext, ProjectContext,
}
use claim_it_all.Access.Context.{
  require_authenticated_user, require_tenant_membership, require_tenant_capability,
  load_authorized_project, get_authorized_project, require_project_access,
  require_project_capability, project_context,
}
use claim_it_all.Access.Projects.{
  CreateProject, create_project_in, create_project, UpdateProject, update_project_in,
  update_project, is_listed,
}
use claim_it_all.Access.Members.{add_project_member_in, add_project_member}
use claim_it_all.Access.Governed.{is_active_member, IsGoverned, IsOutside, belongings}
use claim_it_all.Access.Reach.{
  done, request, create, add_member, as_user, Request-Isolates, Steps-IsGoverned,
}
use claim_it_all.Access.Allowed.{IsAllowed, require_project_capability-Allows}
use claim_it_all.Access.Listed.{require_project_capability_hides, is_listed_iff}
use claim_it_all.Access.Updates.{IsUpdate, update_project-Updates}

abbrev user : ℕ → SessionUser
user id = record { id = id; email = codes "a@b"; name = codes "A"; status = codes "ACTIVE" }

abbrev member : ℕ → ℕ → TenantRole → TenantMembership
member tenant_id user_id role = record {
  tenant_id = tenant_id;
  user_id = user_id;
  role = role;
  status = MembershipStatus.active;
}

abbrev organization : ℕ → Tenant
organization id = record {
  id = id;
  name = codes "O";
  slug = codes "o";
  status = TenantStatus.active;
}

-- The organization 1 has an owner, 10, and two viewers, 11 and 12; the organization 2 is another's.
abbrev start : World
start = record {
  session = some (user 10);
  active_tenant = some 1;
  next_id = 100;
  tenants = organization 1 ∷ organization 2 ∷ [];
  memberships =
      member 1 10 TenantRole.tenant_owner
      ∷ member 1 11 TenantRole.viewer
      ∷ member 1 12 TenantRole.viewer
      ∷ member 2 20 TenantRole.tenant_owner
      ∷ [];
  projects = [];
  project_memberships = [];
  audit = [];
}

abbrev input : CreateProject
input = record {
  name = codes "Bridge";
  code = codes "BR-1";
  description = none;
  country_code = codes "DE";
  default_currency = codes "EUR";
  timezone = codes "Europe/Berlin";
  status = none;
}

abbrev made : World
made = (create_project (some input) start).1

abbrev staffed : World
staffed = (add_project_member 100 (some (11, ProjectRole.contributor)) made).1

start-IsGoverned : IsGoverned start
start-IsGoverned = (λ _. 0, tt, tt)

Steps-IsGoverned_example : IsGoverned staffed
Steps-IsGoverned_example = Steps-IsGoverned {w = start} start-IsGoverned (
    request (create (some input))
      (request (add_member 100 (some (11, ProjectRole.contributor))) done))

two_members :
    staffed.project_memberships
    ≡ (record {
      id = 101;
      tenant_id = 1;
      project_id = 100;
      user_id = 10;
      role = ProjectRole.project_admin;
      status = MembershipStatus.active;
    })
      ∷ (record {
        id = 102;
        tenant_id = 1;
        project_id = 100;
        user_id = 11;
        role = ProjectRole.contributor;
        status = MembershipStatus.active;
      })
      ∷ []
unfolding create_project create_project_in add_project_member add_project_member_in
    require_authenticated_user require_tenant_membership require_tenant_capability
    load_authorized_project get_authorized_project require_project_access require_project_capability
    can_assign_project_role resolve_capabilities add_all capabilities_for_tenant_role
    capabilities_for_project_role merge_capabilities withdraw capabilities_for_role is_same
    tenant_role_capabilities project_role_capabilities mutating_project_capabilities
two_members = refl

-- The owner of the organization 1 is no member of the organization 2.
abbrev IsStranger : SessionUser → Type 0
IsStranger u = All (λ m. is_active_member 2 u.id m ≡ false) start.memberships

other-IsOutside : IsOutside start 2
other-IsOutside u e = subst IsStranger (some_inj e) (refl, (refl, (refl, (refl, tt))))

Request-Isolates_example : belongings 2 made ≡ belongings 2 start
Request-Isolates_example =
    Request-Isolates {w = start} start-IsGoverned (create (some input)) 2 other-IsOutside

-- The project that was made, as its administrator has it, and as a viewer who is a member has it.
abbrev bridge : Project
bridge = record {
  id = 100;
  tenant_id = 1;
  name = codes "Bridge";
  code = codes "BR-1";
  description = none;
  country_code = codes "DE";
  default_currency = codes "EUR";
  timezone = codes "Europe/Berlin";
  status = ProjectStatus.draft;
}

abbrev context_of : ℕ → TenantRole → TenantContext
context_of id role = record {
  user = user id;
  tenant_id = 1;
  membership = member 1 id role;
  tenant_role = role;
  capabilities = resolve_capabilities role none none;
}

abbrev member_row : ℕ → ℕ → ProjectRole → ProjectMembership
member_row id user_id role = record {
  id = id;
  tenant_id = 1;
  project_id = 100;
  user_id = user_id;
  role = role;
  status = MembershipStatus.active;
}

abbrev built : World
built = record start {
  next_id = 103;
  projects = bridge ∷ [];
  project_memberships =
      member_row 101 10 ProjectRole.project_admin ∷ member_row 102 11 ProjectRole.contributor ∷ [];
}

abbrev for_owner : ProjectContext
for_owner =
    project_context (context_of 10 TenantRole.tenant_owner) bridge
      (some (member_row 101 10 ProjectRole.project_admin))

owner_opens : require_project_capability 100 project_read built ≡ (ok for_owner, built)
unfolding create_project create_project_in add_project_member add_project_member_in
    require_authenticated_user require_tenant_membership require_tenant_capability
    load_authorized_project get_authorized_project require_project_access require_project_capability
    can_assign_project_role resolve_capabilities add_all capabilities_for_tenant_role
    capabilities_for_project_role merge_capabilities withdraw capabilities_for_role is_same
    tenant_role_capabilities project_role_capabilities mutating_project_capabilities
owner_opens = refl

require_project_capability-Allows_example :
    (built ≡ built) × IsAllowed built 100 project_read for_owner
require_project_capability-Allows_example =
    require_project_capability-Allows 100 project_read built built for_owner owner_opens

abbrev viewed : World
viewed = as_user (some (user 12)) (some 1) built

viewer_is_member :
    require_tenant_membership none viewed ≡ (ok (context_of 12 TenantRole.viewer), viewed)
unfolding require_tenant_membership require_authenticated_user
viewer_is_member = refl

require_project_capability_hides_example :
    require_project_capability 100 project_read viewed ≡ (thrown not_found, viewed)
require_project_capability_hides_example =
    require_project_capability_hides 100 project_read viewed (context_of 12 TenantRole.viewer)
      viewer_is_member refl refl

built-IsGoverned : IsGoverned built
built-IsGoverned = (
  λ _. 1,
  ((omega arith, refl), tt),
  ((omega arith, refl, inl (refl, refl)), ((omega arith, refl, inr (inl (refl, refl))), tt)),
)

is_listed_iff_example : (is_listed (context_of 11 TenantRole.viewer) built bridge ≡ true) ↔ (
    (found : ProjectContext) × (load_authorized_project (context_of 11 TenantRole.viewer) 100 built
      ≡ ok found))
is_listed_iff_example =
    is_listed_iff built (context_of 11 TenantRole.viewer) bridge built-IsGoverned refl

-- The owner archives the project, and restores it.
abbrev changes : ProjectStatus → UpdateProject
changes status = record {
  name = none;
  description = none;
  country_code = none;
  default_currency = none;
  timezone = none;
  status = some status;
}

abbrev stored : World
stored = record built { projects = (record bridge { status = ProjectStatus.archived }) ∷ [] }

restored_by_owner : update_project 100 (some (changes ProjectStatus.active)) stored ≡ (
  ok (record bridge { status = ProjectStatus.active }),
  (update_project 100 (some (changes ProjectStatus.active)) stored).1,
)
unfolding update_project update_project_in require_authenticated_user require_tenant_membership
    require_tenant_capability load_authorized_project get_authorized_project require_project_access
    require_project_capability can_assign_project_role resolve_capabilities add_all
    capabilities_for_tenant_role capabilities_for_project_role merge_capabilities withdraw
    capabilities_for_role is_same tenant_role_capabilities project_role_capabilities
    mutating_project_capabilities
restored_by_owner = refl

update_project-Updates_example :
    (ctx : ProjectContext) × IsUpdate
      (changes ProjectStatus.active)
      stored
      (update_project 100 (some (changes ProjectStatus.active)) stored).1
      100
      (record bridge { status = ProjectStatus.active })
      ctx
update_project-Updates_example =
    update_project-Updates (changes ProjectStatus.active) 100 stored _ _ restored_by_owner
