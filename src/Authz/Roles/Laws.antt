-- ===== src/Authz/Roles/Laws.antt =====
-- Who assigns which role.
use claim_it_all.Prelude.{Option, some, ◌≡◌, ◌⊎◌}
use claim_it_all.Authz.Roles.{TenantRole}

-- `Manages` names the roles of the tenant that manage its projects.
abbrev pub Manages : Option TenantRole → Type 0
Manages tenant =
    (tenant ≡ some TenantRole.tenant_owner)
    ⊎ (tenant ≡ some TenantRole.tenant_admin)
    ⊎ (tenant ≡ some TenantRole.project_manager)
