-- ===== src/Authz/Roles.antt =====
-- packages/authz/src/roles.ts: the roles, their ranks and who may assign them.
pub mod Laws
use claim_it_all.Prelude.{
  ℕ, Bool, true, false, not, ◌&&◌, ◌||◌, Option, none, some, leb, if◌then◌else◌,
}

pub data TenantRole : Type 0 where
  tenant_owner tenant_admin commercial_manager contracts_manager : TenantRole
  project_manager reviewer viewer : TenantRole

pub data ProjectRole : Type 0 where
  project_admin commercial_lead contracts_lead project_manager : ProjectRole
  reviewer contributor viewer : ProjectRole

pub data ProjectStatus : Type 0 where
  draft active suspended closed archived : ProjectStatus

unfoldable pub tenant_role_rank : TenantRole → ℕ
tenant_role_rank TenantRole.tenant_owner = 100
tenant_role_rank TenantRole.tenant_admin = 90
tenant_role_rank TenantRole.commercial_manager = 50
tenant_role_rank TenantRole.contracts_manager = 50
tenant_role_rank TenantRole.project_manager = 40
tenant_role_rank TenantRole.reviewer = 20
tenant_role_rank TenantRole.viewer = 10

unfoldable pub project_role_rank : ProjectRole → ℕ
project_role_rank ProjectRole.project_admin = 100
project_role_rank ProjectRole.commercial_lead = 70
project_role_rank ProjectRole.contracts_lead = 70
project_role_rank ProjectRole.project_manager = 60
project_role_rank ProjectRole.reviewer = 40
project_role_rank ProjectRole.contributor = 30
project_role_rank ProjectRole.viewer = 10

abbrev pub is_owner : TenantRole → Bool
is_owner TenantRole.tenant_owner = true
is_owner _ = false

abbrev pub is_admin : TenantRole → Bool
is_admin TenantRole.tenant_admin = true
is_admin _ = false

-- Whoever passes the two guards passes the comparison of ranks too, by the numbers of the table.
unfoldable pub can_assign_tenant_role : TenantRole → TenantRole → Bool
unfolding tenant_role_rank
can_assign_tenant_role actor_role target_role =
    if not (is_owner actor_role) && not (is_admin actor_role)
    then false
    else if is_admin actor_role && is_owner target_role
    then false
    else leb (tenant_role_rank target_role) (tenant_role_rank actor_role)

abbrev pub tenant_can_manage : Option TenantRole → Bool
tenant_can_manage (some TenantRole.tenant_owner) = true
tenant_can_manage (some TenantRole.tenant_admin) = true
tenant_can_manage (some TenantRole.project_manager) = true
tenant_can_manage _ = false

abbrev is_project_admin : Option ProjectRole → Bool
is_project_admin (some ProjectRole.project_admin) = true
is_project_admin _ = false

unfoldable pub can_assign_project_role : Option TenantRole → Option ProjectRole → ProjectRole → Bool
unfolding project_role_rank
can_assign_project_role actor_tenant_role actor_project_role target_role =
    if tenant_can_manage actor_tenant_role
    then true
    else if is_project_admin actor_project_role
    then leb (project_role_rank target_role) (project_role_rank ProjectRole.project_admin)
    else false
