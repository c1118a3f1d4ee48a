-- ===== src/Access/Projects.antt =====
-- apps/web/src/server/services/projects.ts: projects. An input is what the schema's `safeParse`
-- gives, `none` where it fails. The order of the listed rows is left out.
use claim_it_all.Prelude.{
  ℕ, ◌+◌, Bool, not, ◌&&◌, ◌||◌, Option, none, some, List, [], ◌∷◌, ◌++◌, ◌==◌, if◌then◌else◌, find,
  any, keep, or_else, is_some, update_where,
}
use claim_it_all.Prelude.Text.{Text, text_eq}
use claim_it_all.Authz.Roles.{ProjectRole, ProjectStatus}
use claim_it_all.Authz.Capabilities.{
  Capability, project_create, project_read, project_update, project_archive,
}
use claim_it_all.Authz.Permissions.{
  has_capability, tenant_role_can_access_all_tenant_projects, is_archived,
}
use claim_it_all.Service.Result.{
  Result, ok, forbidden, validation_error, unique_violation, record_not_found, ◌>>=◌, or_throw,
  guard, ◌>>◌,
}
use claim_it_all.Service.Context.{with_tenant_transaction}
use claim_it_all.Access.Types.{
  MembershipStatus, Project, ProjectMembership, AuditAction, of_project, World, TenantContext,
  ProjectContext, is_active,
}
use claim_it_all.Access.Context.{
  ◌>>>◌, log, is_project, require_tenant_capability, require_project_capability,
}

-- The rows that `listProjectsForActiveTenant` asks for.
abbrev pub is_listed_member : TenantContext → Project → ProjectMembership → Bool
is_listed_member ctx p m = m.project_id == p.id && (m.user_id == ctx.user.id && is_active m.status)

abbrev pub is_listed : TenantContext → World → Project → Bool
is_listed ctx w p =
    p.tenant_id == ctx.tenant_id
    && (tenant_role_can_access_all_tenant_projects ctx.tenant_role
        || any (is_listed_member ctx p) w.project_memberships)

unfoldable pub list_projects_for_active_tenant : World → Result (List Project) × World
list_projects_for_active_tenant w = require_tenant_capability project_read none w >>> λ ctx w.
    (ok (keep (is_listed ctx w) w.projects), w)

pub record CreateProject : Type 0 where
  pub name : Text
  pub code : Text
  pub description : Option Text
  pub country_code : Text
  pub default_currency : Text
  pub timezone : Text
  pub status : Option ProjectStatus

abbrev pub new_project : ℕ → CreateProject → ℕ → Project
new_project tenant_id input id = record {
  id = id;
  tenant_id = tenant_id;
  name = input.name;
  code = input.code;
  description = input.description;
  country_code = input.country_code;
  default_currency = input.default_currency;
  timezone = input.timezone;
  status = or_else input.status ProjectStatus.draft;
}

abbrev pub new_member : ℕ → ℕ → ℕ → ProjectRole → ℕ → ProjectMembership
new_member tenant_id project_id user_id role id = record {
  id = id;
  tenant_id = tenant_id;
  project_id = project_id;
  user_id = user_id;
  role = role;
  status = MembershipStatus.active;
}

abbrev pub after_create : TenantContext → CreateProject → World → World
after_create ctx input w = record w {
  next_id = w.next_id + 2;
  projects = w.projects ++ new_project ctx.tenant_id input w.next_id ∷ [];
  project_memberships =
      w.project_memberships
      ++ new_member ctx.tenant_id w.next_id ctx.user.id ProjectRole.project_admin (w.next_id + 1)
        ∷ [];
}

-- The transaction of `createProject`, for which a code that the organization has is an error.
unfoldable pub create_project_in : TenantContext → CreateProject → World → Result (Project × World)
create_project_in ctx input w =
    let created = new_project ctx.tenant_id input w.next_id in
    guard
      (not (
        any (λ (p : Project). p.tenant_id == ctx.tenant_id && text_eq p.code input.code)
          w.projects))
      unique_violation
    >> ok (
      created,
      log ctx (some created.id) AuditAction.project_created (of_project created.id)
          (after_create ctx input w),
    )

unfoldable pub create_project : Option CreateProject → World → Result Project × World
create_project parsed w = require_tenant_capability project_create none w >>> λ ctx w.
    (or_throw parsed validation_error, w) >>> λ input w.
    with_tenant_transaction (create_project_in ctx input w) w

unfoldable pub get_project : ℕ → World → Result Project × World
get_project project_id w =
    require_project_capability project_id project_read w >>> λ ctx w. (ok ctx.project, w)

-- A column that may be set to null is an option of an option.
pub record UpdateProject : Type 0 where
  pub name : Option Text
  pub description : Option (Option Text)
  pub country_code : Option Text
  pub default_currency : Option Text
  pub timezone : Option Text
  pub status : Option ProjectStatus

abbrev pub change_project : UpdateProject → Project → Project
change_project input p = record p {
  name = or_else input.name p.name;
  description = or_else input.description p.description;
  country_code = or_else input.country_code p.country_code;
  default_currency = or_else input.default_currency p.default_currency;
  timezone = or_else input.timezone p.timezone;
  status = or_else input.status p.status;
}

abbrev pub is_restore : Project → UpdateProject → Bool
is_restore p input =
    is_archived (some p.status) && (is_some input.status && not (is_archived input.status))

abbrev update_action : Bool → Bool → AuditAction
update_action archives restores =
    if archives
    then AuditAction.project_archived
    else if restores
    then AuditAction.project_restored
    else AuditAction.project_updated

abbrev pub after_update : ProjectContext → UpdateProject → World → World
after_update ctx input w = record w {
  projects =
      update_where (is_project ctx.project.id ctx.tenant.tenant_id) (change_project input)
        w.projects;
}

-- The transaction of `updateProject`.
unfoldable pub update_project_in :
    ProjectContext → UpdateProject → Bool → World → Result (Project × World)
update_project_in ctx input restores w =
    or_throw (find (is_project ctx.project.id ctx.tenant.tenant_id) w.projects) record_not_found
    >>= λ found. ok (
      change_project input found,
      log ctx.tenant (some found.id) (update_action (is_archived input.status) restores)
          (of_project found.id) (after_update ctx input w),
    )

-- What is tested besides the capability to update or to restore.
abbrev pub may_update : Project → UpdateProject → ProjectContext → Result (Unit {0})
may_update project input ctx =
    guard (not (is_archived input.status) || has_capability ctx.capabilities project_archive)
      forbidden
    >> guard (not (is_archived (some project.status)) || is_restore project input) forbidden

abbrev pub capability_for : Project → UpdateProject → Capability
capability_for project input = if is_restore project input then project_archive else project_update

unfoldable pub update_project : ℕ → Option UpdateProject → World → Result Project × World
update_project project_id parsed w = (or_throw parsed validation_error, w) >>> λ input w.
    require_project_capability project_id project_read w >>> λ access w.
    require_project_capability project_id (capability_for access.project input) w >>> λ ctx w.
    (may_update access.project input ctx, w) >>> λ _ w.
    with_tenant_transaction (update_project_in ctx input (is_restore access.project input) w) w
