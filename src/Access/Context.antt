-- ===== src/Access/Context.antt =====
-- apps/web/src/server/authz/context.ts: what a request needs, before it touches a table. A refusal
-- may clear the cookie or write to the log, so that a request leaves a world also where it throws.
use claim_it_all.Prelude.{
  ℕ, Bool, true, false, ◌&&◌, Option, none, some, List, ◌==◌, if◌then◌else◌, find, any, includes,
}
use claim_it_all.Prelude.Text.{text_eq, codes}
use claim_it_all.Authz.Roles.{TenantRole, ProjectRole}
use claim_it_all.Authz.Capabilities.{Capability, project_read}
use claim_it_all.Authz.Permissions.{
  resolve_capabilities, has_capability, tenant_role_can_access_all_tenant_projects,
}
use claim_it_all.Service.Result.{
  Result, ok, thrown, not_found, forbidden, unauthenticated, ◌>>=◌, or_throw, guard, ◌>>◌,
}
use claim_it_all.Access.Types.{
  SessionUser, Tenant, Entity, TenantMembership, Project, ProjectMembership, AuditAction,
  of_capability, AuditRow, World, TenantContext, ProjectContext, is_active, is_open,
  write_audit_log,
}

-- `await` of a request that leaves a world.
infixl 5 ◌>>>◌
abbrev pub ◌>>>◌ :
    {A B : Type 0} → Result A × World → (A → World → Result B × World) → Result B × World
(thrown e, w) >>> rest = (thrown e, w)
(ok a, w) >>> rest = rest a w

unfoldable pub require_authenticated_user : World → Result SessionUser
require_authenticated_user w = or_throw w.session unauthenticated >>= λ user.
    guard (text_eq user.status (codes "ACTIVE")) forbidden >> ok user

abbrev pub log : TenantContext → Option ℕ → AuditAction → Entity → World → World
log ctx project_id action entity = write_audit_log (record {
  tenant_id = ctx.tenant_id;
  project_id = project_id;
  actor_user_id = ctx.user.id;
  action = action;
  entity = entity;
})

-- `tenant: { status: { in: … } }`, on the organization that the row refers to.
abbrev pub tenant_is_open : World → ℕ → Bool
tenant_is_open w tenant_id = any (λ (t : Tenant). t.id == tenant_id && is_open t.status) w.tenants

abbrev pub is_membership : World → ℕ → ℕ → TenantMembership → Bool
is_membership w tenant_id user_id m =
    m.tenant_id == tenant_id
    && (m.user_id == user_id && (is_active m.status && tenant_is_open w m.tenant_id))

abbrev tenant_context : SessionUser → TenantMembership → TenantContext
tenant_context user m = record {
  user = user;
  tenant_id = m.tenant_id;
  membership = m;
  tenant_role = m.role;
  capabilities = resolve_capabilities m.role none none;
}

-- `clearActiveTenantId`, which the request does where it went by the cookie.
abbrev pub clear_active_tenant_id : Option ℕ → World → World
clear_active_tenant_id none w = record w { active_tenant = none }
clear_active_tenant_id (some given) w = w

abbrev pub with_membership :
    SessionUser → Option ℕ → Option TenantMembership → World → Result TenantContext × World
with_membership user tenant_id none w = (thrown forbidden, clear_active_tenant_id tenant_id w)
with_membership user tenant_id (some m) w = (ok (tenant_context user m), w)

abbrev pub resolved_tenant_id : Option ℕ → World → Option ℕ
resolved_tenant_id none w = w.active_tenant
resolved_tenant_id (some given) w = some given

abbrev pub membership_in : SessionUser → Option ℕ → Option ℕ → World → Result TenantContext × World
membership_in user tenant_id none w = (thrown forbidden, w)
membership_in user tenant_id (some resolved) w =
    with_membership user tenant_id (find (is_membership w resolved user.id) w.memberships) w

unfoldable pub require_tenant_membership : Option ℕ → World → Result TenantContext × World
require_tenant_membership tenant_id w = (require_authenticated_user w, w) >>> λ user w.
    membership_in user tenant_id (resolved_tenant_id tenant_id w) w

unfoldable pub require_tenant_role :
    (TenantRole → TenantRole → Bool)
    → List TenantRole
    → Option ℕ
    → World
    → Result TenantContext × World
require_tenant_role eq roles tenant_id w = require_tenant_membership tenant_id w >>> λ ctx w.
    if includes eq roles ctx.tenant_role then (ok ctx, w) else (thrown forbidden, w)

abbrev pub denied : TenantContext → Option ℕ → Capability → AuditRow
denied ctx project_id capability = record {
  tenant_id = ctx.tenant_id;
  project_id = project_id;
  actor_user_id = ctx.user.id;
  action = AuditAction.authz_denied;
  entity = of_capability capability;
}

unfoldable pub require_tenant_capability :
    Capability → Option ℕ → World → Result TenantContext × World
require_tenant_capability capability tenant_id w =
    require_tenant_membership tenant_id w >>> λ ctx w.
    if has_capability ctx.capabilities capability
    then (ok ctx, w)
    else (thrown forbidden, write_audit_log (denied ctx none capability) w)

abbrev pub is_project : ℕ → ℕ → Project → Bool
is_project project_id tenant_id p = p.id == project_id && p.tenant_id == tenant_id

abbrev pub is_project_membership : ℕ → ℕ → ℕ → ProjectMembership → Bool
is_project_membership project_id tenant_id user_id m =
    m.project_id == project_id
    && (m.tenant_id == tenant_id && (m.user_id == user_id && is_active m.status))

abbrev pub role_of : Option ProjectMembership → Option ProjectRole
role_of none = none
role_of (some m) = some m.role

abbrev pub project_context : TenantContext → Project → Option ProjectMembership → ProjectContext
project_context ctx project membership = record {
  tenant = ctx;
  project = project;
  project_role = role_of membership;
  capabilities = resolve_capabilities ctx.tenant_role (role_of membership) (some project.status);
}

-- `!projectMembership && !hasTenantWideAccess`
abbrev pub with_project_membership :
    TenantContext → Project → Option ProjectMembership → Result ProjectContext
with_project_membership ctx project none =
    guard (tenant_role_can_access_all_tenant_projects ctx.tenant_role) not_found
    >> ok (project_context ctx project none)
with_project_membership ctx project (some m) = ok (project_context ctx project (some m))

unfoldable pub load_authorized_project : TenantContext → ℕ → World → Result ProjectContext
load_authorized_project ctx project_id w =
    or_throw (find (is_project project_id ctx.tenant_id) w.projects) not_found >>= λ project.
    with_project_membership ctx project
      (find (is_project_membership project.id ctx.tenant_id ctx.user.id) w.project_memberships)

unfoldable pub get_authorized_project : ℕ → World → Result ProjectContext × World
get_authorized_project project_id w =
    require_tenant_membership none w >>> λ ctx w. (load_authorized_project ctx project_id w, w)

unfoldable pub require_project_access : ℕ → World → Result ProjectContext × World
require_project_access project_id w = get_authorized_project project_id w >>> λ ctx w.
    if has_capability ctx.capabilities project_read then (ok ctx, w) else (thrown not_found, w)

abbrev pub manages_projects : TenantRole → Bool
manages_projects TenantRole.tenant_owner = true
manages_projects TenantRole.tenant_admin = true
manages_projects TenantRole.project_manager = true
manages_projects _ = false

abbrev pub has_role :
    (ProjectRole → ProjectRole → Bool) → List ProjectRole → Option ProjectRole → Bool
has_role eq roles none = false
has_role eq roles (some role) = includes eq roles role

unfoldable pub require_project_role :
    (ProjectRole → ProjectRole → Bool)
    → ℕ
    → List ProjectRole
    → World
    → Result ProjectContext × World
require_project_role eq project_id roles w = require_project_access project_id w >>> λ ctx w.
    if has_role eq roles ctx.project_role
    then (ok ctx, w)
    else if manages_projects ctx.tenant.tenant_role
    then (ok ctx, w)
    else (thrown forbidden, w)

unfoldable pub require_project_capability : ℕ → Capability → World → Result ProjectContext × World
require_project_capability project_id capability w =
    require_project_access project_id w >>> λ ctx w.
    if has_capability ctx.capabilities capability
    then (ok ctx, w)
    else (thrown forbidden, write_audit_log (denied ctx.tenant (some ctx.project.id) capability) w)
