-- ===== src/Authz/Permissions.antt =====
-- packages/authz/src/permissions.ts: the capabilities of a request. A `Set` is the list of its
-- elements in the order in which they were added.
pub mod Laws
use claim_it_all.Prelude.{
  Bool, true, false, not, ◌&&◌, Option, none, some, List, [], ◌∷◌, ◌++◌, keep, includes,
  if◌then◌else◌,
}
use claim_it_all.Authz.Roles.{TenantRole, ProjectRole, ProjectStatus}
use claim_it_all.Authz.Capabilities.{Capability, is_same, project_archive, document_archive}
use claim_it_all.Authz.Grants.{
  tenant_role_capabilities, project_role_capabilities, mutating_project_capabilities,
}

-- `set.has(c)`, `set.add(c)` and `set.delete(c)`
abbrev pub has : List Capability → Capability → Bool
has set c = includes is_same set c

abbrev pub add : List Capability → Capability → List Capability
add set c = if has set c then set else set ++ c ∷ []

abbrev pub delete : List Capability → Capability → List Capability
delete set c = keep (λ d. not (is_same d c)) set

unfoldable pub add_all : List Capability → List Capability → List Capability
add_all set [] = set
add_all set (c ∷ cs) = add_all (add set c) cs

unfoldable pub capabilities_for_tenant_role : TenantRole → List Capability
unfolding add_all
capabilities_for_tenant_role role = add_all [] (tenant_role_capabilities role)

unfoldable pub capabilities_for_project_role : ProjectRole → List Capability
unfolding add_all
capabilities_for_project_role role = add_all [] (project_role_capabilities role)

abbrev pub add_set : List Capability → Option (List Capability) → List Capability
add_set merged none = merged
add_set merged (some set) = add_all merged set

abbrev merge_into : List Capability → List (Option (List Capability)) → List Capability
merge_into merged [] = merged
merge_into merged (set ∷ sets) = merge_into (add_set merged set) sets

unfoldable pub merge_capabilities : List (Option (List Capability)) → List Capability
unfolding add_all
merge_capabilities sets = merge_into [] sets

abbrev pub has_capability : List Capability → Capability → Bool
has_capability capabilities capability = has capabilities capability

abbrev pub is_archived : Option ProjectStatus → Bool
is_archived (some ProjectStatus.archived) = true
is_archived _ = false

abbrev pub is_withdrawn : Capability → Bool
is_withdrawn c = not (is_same c project_archive) && not (is_same c document_archive)

-- The loop that withdraws the mutating capabilities of an archived project.
unfoldable pub withdraw : List Capability → List Capability → List Capability
withdraw merged [] = merged
withdraw merged (c ∷ cs) = withdraw (if is_withdrawn c then delete merged c else merged) cs

unfoldable pub capabilities_for_role : Option ProjectRole → Option (List Capability)
capabilities_for_role none = none
capabilities_for_role (some role) = some (capabilities_for_project_role role)

unfoldable pub resolve_capabilities :
    TenantRole → Option ProjectRole → Option ProjectStatus → List Capability
unfolding merge_capabilities withdraw capabilities_for_role
resolve_capabilities tenant_role project_role project_status =
    let merged =
      merge_capabilities (
        some (capabilities_for_tenant_role tenant_role)
        ∷ capabilities_for_role project_role
        ∷ []) in
    if is_archived project_status then withdraw merged mutating_project_capabilities else merged

abbrev pub tenant_role_can_access_all_tenant_projects : TenantRole → Bool
tenant_role_can_access_all_tenant_projects TenantRole.tenant_owner = true
tenant_role_can_access_all_tenant_projects TenantRole.tenant_admin = true
tenant_role_can_access_all_tenant_projects TenantRole.commercial_manager = true
tenant_role_can_access_all_tenant_projects TenantRole.contracts_manager = true
tenant_role_can_access_all_tenant_projects TenantRole.project_manager = true
tenant_role_can_access_all_tenant_projects _ = false
