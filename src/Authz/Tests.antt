-- ===== src/Authz/Tests.antt =====
-- Roles and capabilities at work.
use claim_it_all.Prelude.{true, false, not, ◌&&◌, ◌||◌, none, some, ◌≡◌, ◌⊎◌, inl, refl}
use claim_it_all.Authz.Roles.{TenantRole, ProjectRole, ProjectStatus}
use claim_it_all.Authz.Capabilities.{
  is_same, project_read, project_archive, document_archive, document_read,
}
use claim_it_all.Authz.Grants.{
  tenant_role_capabilities, project_role_capabilities, mutating_project_capabilities,
}
use claim_it_all.Authz.Permissions.{
  has, add_all, resolve_capabilities, merge_capabilities, capabilities_for_role,
  capabilities_for_tenant_role, capabilities_for_project_role, withdraw,
}
use claim_it_all.Authz.Permissions.Laws.{
  granted_by_project, is_frozen, resolve_capabilities_lem, viewer_reads_only, archived_is_frozen,
  resolve_capabilities_top,
}

-- A reviewer of the tenant who contributes to an active project.
resolve_capabilities_lem_example :
    has
      (resolve_capabilities TenantRole.reviewer
        (some ProjectRole.contributor)
        (some ProjectStatus.active))
      document_read
    ≡ ((has (tenant_role_capabilities TenantRole.reviewer) document_read
          || granted_by_project (some ProjectRole.contributor) document_read)
        && not (is_frozen (some ProjectStatus.active) document_read))
resolve_capabilities_lem_example =
    resolve_capabilities_lem TenantRole.reviewer (some ProjectRole.contributor)
      (some ProjectStatus.active) document_read

viewer_reads_only_example : has mutating_project_capabilities project_read ≡ false
unfolding resolve_capabilities merge_capabilities capabilities_for_role capabilities_for_tenant_role
    add_all is_same tenant_role_capabilities
viewer_reads_only_example = viewer_reads_only none project_read (inl refl)

archived_is_frozen_example :
    (project_archive ≡ project_archive) ⊎ (project_archive ≡ document_archive)
unfolding resolve_capabilities merge_capabilities capabilities_for_role capabilities_for_tenant_role
    withdraw add_all is_same tenant_role_capabilities mutating_project_capabilities
archived_is_frozen_example =
    archived_is_frozen TenantRole.tenant_owner none project_archive refl refl

-- What a viewer of the tenant who is a viewer of the project reads, an administrator of it reads.
resolve_capabilities_top_example :
    has
      (resolve_capabilities TenantRole.viewer
        (some ProjectRole.project_admin)
        (some ProjectStatus.active))
      document_read
    ≡ true
unfolding resolve_capabilities merge_capabilities capabilities_for_role capabilities_for_tenant_role
    capabilities_for_project_role add_all is_same tenant_role_capabilities project_role_capabilities
resolve_capabilities_top_example =
    (resolve_capabilities_top TenantRole.viewer (some ProjectStatus.active) document_read).1
      ProjectRole.viewer refl
