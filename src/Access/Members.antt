-- ===== src/Access/Members.antt =====
-- apps/web/src/server/services/projects.ts: the members of a project.
use claim_it_all.Prelude.{
  ℕ, ◌+◌, Bool, ◌&&◌, Option, none, some, List, [], ◌∷◌, ◌++◌, ◌==◌, if◌then◌else◌, find, keep,
  is_some, update_where,
}
use claim_it_all.Authz.Roles.{ProjectRole, can_assign_project_role}
use claim_it_all.Authz.Capabilities.{project_members_read, project_members_manage}
use claim_it_all.Service.Result.{
  Result, ok, thrown, not_found, forbidden, validation_error, ◌>>=◌, or_throw,
}
use claim_it_all.Service.Context.{with_tenant_transaction}
use claim_it_all.Access.Projects.{new_member}
use claim_it_all.Access.Types.{
  TenantMembership, MembershipStatus, ProjectMembership, AuditAction, of_membership, World,
  TenantContext, ProjectContext, is_active,
}
use claim_it_all.Access.Context.{◌>>>◌, log, is_project, require_project_capability}

unfoldable pub list_project_members : ℕ → World → Result (List ProjectMembership) × World
list_project_members project_id w =
    require_project_capability project_id project_members_read w >>> λ ctx w. (
      ok (
          keep
            (λ (m : ProjectMembership).
              m.project_id == ctx.project.id && m.tenant_id == ctx.tenant.tenant_id)
            w.project_memberships),
      w,
    )

-- The key of `@@unique([projectId, userId])`.
abbrev pub is_member_row : ℕ → ℕ → ProjectMembership → Bool
is_member_row project_id user_id m = m.project_id == project_id && m.user_id == user_id

abbrev pub change_member : ℕ → ProjectRole → ProjectMembership → ProjectMembership
change_member tenant_id role m = record m {
  role = role;
  status = MembershipStatus.active;
  tenant_id = tenant_id;
}

-- `upsert`, and the row that it hands back.
abbrev pub upsert_member :
    TenantContext
    → ℕ
    → ℕ
    → ProjectRole
    → Option ProjectMembership
    → World
    → ProjectMembership × World
upsert_member ctx project_id user_id role none w =
    let created = new_member ctx.tenant_id project_id user_id role w.next_id in
    (
      created,
      record w {
        next_id = w.next_id + 1;
        project_memberships = w.project_memberships ++ created ∷ [];
      },
    )
upsert_member ctx project_id user_id role (some existing) w = (
  change_member ctx.tenant_id role existing,
  record w {
    project_memberships =
        update_where (is_member_row project_id user_id) (change_member ctx.tenant_id role)
          w.project_memberships;
  },
)

abbrev pub is_tenant_member : ℕ → ℕ → TenantMembership → Bool
is_tenant_member tenant_id user_id m =
    m.tenant_id == tenant_id && (m.user_id == user_id && is_active m.status)

-- The transaction of `addProjectMember`.
unfoldable pub add_project_member_in :
    ProjectContext → ℕ → ProjectRole → World → Result (ProjectMembership × World)
add_project_member_in ctx user_id role w =
    or_throw (find (is_tenant_member ctx.tenant.tenant_id user_id) w.memberships) not_found >>= λ _.
    or_throw (find (is_project ctx.project.id ctx.tenant.tenant_id) w.projects) not_found
    >>= λ project.
        let existing = find (is_member_row project.id user_id) w.project_memberships in
        let (created, after) = upsert_member ctx.tenant project.id user_id role existing w in
        ok (
          created,
          log ctx.tenant (some project.id)
              (if is_some existing then AuditAction.member_changed else AuditAction.member_created)
              (of_membership (some created.id)) after,
        )

abbrev pub assigned_by : ProjectContext → ℕ → ProjectRole → World → Result ProjectMembership × World
assigned_by ctx user_id role w =
    if can_assign_project_role (some ctx.tenant.tenant_role) ctx.project_role role
    then with_tenant_transaction (add_project_member_in ctx user_id role w) w
    else (
      thrown forbidden,
      log ctx.tenant (some ctx.project.id) AuditAction.authz_denied (of_membership none) w,
    )

unfoldable pub add_project_member :
    ℕ → Option (ℕ × ProjectRole) → World → Result ProjectMembership × World
add_project_member project_id parsed w =
    require_project_capability project_id project_members_manage w >>> λ ctx w.
    (or_throw parsed validation_error, w) >>> λ input w. assigned_by ctx input.0 input.1 w
