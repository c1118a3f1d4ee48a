-- ===== src/Access/Fairness.antt =====
-- Each request keeps the tables governed, and keeps to the user's own organization.
use claim_it_all.Prelude.{
  ℕ, Bool, true, Option, none, some, ◌≡◌, refl, find, Some, arith, sym, if_either,
}
use mathlib.Core.Path.{subst}
use claim_it_all.Authz.Roles.{ProjectRole, can_assign_project_role}
use claim_it_all.Authz.Capabilities.{Capability, project_create, project_read}
use claim_it_all.Service.Result.{
  Result, ok, thrown, Error, or_throw, or_throw-returns, guard-returns, left_by, unique_violation,
  record_not_found, not_found, validation_error,
}
use claim_it_all.Service.Context.{with_tenant_transaction, transaction-keeps}
use claim_it_all.Service.Rows.{find_test, find-Some}
use claim_it_all.Access.Types.{
  TenantMembership, Project, ProjectMembership, World, TenantContext, ProjectContext, AuditAction,
  Entity,
}
use claim_it_all.Access.Context.{log, ◌>>>◌, is_project, require_project_capability}
use claim_it_all.Access.Tenants.{select_active_tenant}
use claim_it_all.Access.Projects.{
  after_create, after_update, CreateProject, create_project_in, create_project, UpdateProject,
  is_restore, may_update, update_project_in, update_project, change_project,
}
use claim_it_all.Access.Members.{
  is_member_row, is_tenant_member, upsert_member, add_project_member_in, assigned_by,
}
use claim_it_all.Access.Contexts.{HasTenant, HasProject}
use claim_it_all.Access.Refusals.{membership_left, tenant_left, project_left}
use claim_it_all.Access.Governed.{Fair, unchanged, cleared-Fair, logged}
use claim_it_all.Access.Changes.{project_ids, created-Fair, updated-Fair, added-Fair, changed-Fair}

log-Fair :
    (w v : World) (ctx : TenantContext) (id : Option ℕ) (action : AuditAction) (entity : Entity)
    → HasTenant w ctx
    → Fair w v
    → Fair w (log ctx id action entity v)
log-Fair w v ctx id action entity m f = logged w v ctx _ m refl f

create_in-Fair :
    (w after : World) (ctx : TenantContext) (input : CreateProject) (p : Project)
    → HasTenant w ctx
    → create_project_in ctx input w ≡ ok (p, after)
    → Fair w after
unfolding create_project_in
create_in-Fair w after ctx input p m e =
    let (_, more) = guard-returns _ unique_violation _ e in
    left_by (Fair w) more (
      log-Fair w (after_create ctx input w) ctx _ _ _ m
        (created-Fair w ctx m _ _ refl refl refl refl refl))

update_in-Fair :
    (w after : World) (ctx : ProjectContext) (input : UpdateProject) (restores : Bool) (p : Project)
    → HasTenant w ctx.tenant
    → update_project_in ctx input restores w ≡ ok (p, after)
    → Fair w after
unfolding update_project_in
update_in-Fair w after ctx input restores p m e =
    let (_, _, more) =
      or_throw-returns (find (is_project ctx.project.id ctx.tenant.tenant_id) w.projects)
        record_not_found _ e in
    left_by (Fair w) more (
      log-Fair w (after_update ctx input w) ctx.tenant _ _ _ m
        (updated-Fair w ctx.tenant m ctx.project.id (change_project input) (λ p. refl) (λ p. refl)))

upsert-Fair :
    (w : World) (ctx : TenantContext) (project : Project) (user : ℕ) (role : ProjectRole)
    (existing : Option ProjectMembership)
    → HasTenant w ctx
    → find (is_project project.id ctx.tenant_id) w.projects ≡ some project
    → Some
        (λ (t : TenantMembership). (t.tenant_id ≡ ctx.tenant_id) × (t.user_id ≡ user))
        w.memberships
    → Fair w (upsert_member ctx project.id user role existing w).1
upsert-Fair w ctx project user role none m p s =
    added-Fair w ctx m project user _ p s refl refl refl
upsert-Fair w ctx project user role (some existing) m p s =
    changed-Fair w ctx m project user role p s

member_ids :
    (tenant user : ℕ) (t : TenantMembership)
    → is_tenant_member tenant user t ≡ true
    → (t.tenant_id ≡ tenant) × (t.user_id ≡ user)
member_ids tenant user t e = (ground arith, ground arith)

add_in-Fair :
    (w after : World) (ctx : ProjectContext) (user : ℕ) (role : ProjectRole) (x : ProjectMembership)
    → HasTenant w ctx.tenant
    → add_project_member_in ctx user role w ≡ ok (x, after)
    → Fair w after
unfolding add_project_member_in
add_in-Fair w after ctx user role x m e =
    let (member, found, more) =
      or_throw-returns (find (is_tenant_member ctx.tenant.tenant_id user) w.memberships) not_found _
        e in
    let (project, p, most) =
      or_throw-returns (find (is_project ctx.project.id ctx.tenant.tenant_id) w.projects) not_found
        _ more in
    let own =
      (project_ids ctx.project.id ctx.tenant.tenant_id project
        (find_test (is_project ctx.project.id ctx.tenant.tenant_id) w.projects project p)).0 in
    let t = find_test (is_tenant_member ctx.tenant.tenant_id user) w.memberships member found in
    let existing = find (is_member_row project.id user) w.project_memberships in
    left_by (Fair w) most (
      log-Fair w (upsert_member ctx.tenant project.id user role existing w).1 ctx.tenant _ _ _ m (
        upsert-Fair w ctx.tenant project user role existing m
          (subst (λ i. find (is_project i ctx.tenant.tenant_id) w.projects ≡ some project) (sym own)
            p)
          (find-Some _ _ w.memberships member found
            (member_ids ctx.tenant.tenant_id user member t))))

pub input_left :
    {A B : Type 0} (P : Result B × World → Type 0) (w : World) (parsed : Option A) (error : Error)
    (rest : A → World → Result B × World)
    → P (thrown error, w)
    → ((input : A) → P (rest input w))
    → P ((or_throw parsed error, w) >>> rest)
input_left P w none error rest h f = h
input_left P w (some input) error rest h f = f input

pub create-Fair : (w : World) (parsed : Option CreateProject) → Fair w (create_project parsed w).1
unfolding create_project
create-Fair w parsed =
    tenant_left (λ o. Fair w o.1) w (λ _. unchanged w) (λ _. cleared-Fair w) project_create none _
      (λ ctx m. logged w w ctx _ m refl (unchanged w))
      (λ ctx m _.
        input_left (λ o. Fair w o.1) w parsed validation_error _ (unchanged w)
          (λ input.
            transaction-keeps (Fair w) (create_project_in ctx input w) w
              (λ p after e. create_in-Fair w after ctx input p m e) (unchanged w)))

-- A request for a project, of which all that a rest with access does is fair.
pub project-Fair :
    {A : Type 0} (w : World) (id : ℕ) (capability : Capability)
    (rest : ProjectContext → World → Result A × World)
    → ((ctx : ProjectContext) → HasProject w ctx → Fair w (rest ctx w).1)
    → Fair w (require_project_capability id capability w >>> rest).1
project-Fair w id capability rest f =
    project_left (λ o. Fair w o.1) w (λ _. unchanged w) (λ _. cleared-Fair w) id capability rest
      (λ ctx (m, _, _, _, _). logged w w ctx.tenant _ m refl (unchanged w)) (λ ctx h _ _. f ctx h)

guard_left :
    {B : Type 0} (P : Result B × World → Type 0) (w : World) (r : Result (Unit {0}))
    (rest : Unit {0} → World → Result B × World)
    → ((e : Error) → P (thrown e, w))
    → (r ≡ ok tt → P (rest tt w))
    → P ((r, w) >>> rest)
guard_left P w (thrown e) rest h f = h e
guard_left P w (ok u) rest h f = f refl

pub update-Fair :
    (w : World) (id : ℕ) (parsed : Option UpdateProject) → Fair w (update_project id parsed w).1
unfolding update_project
update-Fair w id parsed =
    input_left (λ o. Fair w o.1) w parsed validation_error _ (unchanged w)
      (λ input. project-Fair w id project_read _ (λ access _.
        project-Fair w id _ _ (λ ctx (m, _, _, _, _).
          let restores = is_restore access.project input in
          guard_left (λ o. Fair w o.1) w (may_update access.project input ctx)
            (λ _ w. with_tenant_transaction (update_project_in ctx input restores w) w)
            (λ _. unchanged w)
            (λ _.
              transaction-keeps (Fair w) (update_project_in ctx input restores w) w
                (λ p after e. update_in-Fair w after ctx input restores p m e) (unchanged w)))))

pub assigned-Fair :
    (w : World) (ctx : ProjectContext) (user : ℕ) (role : ProjectRole)
    → HasTenant w ctx.tenant
    → Fair w (assigned_by ctx user role w).1
assigned-Fair w ctx user role m =
    if_either (λ (o : Result ProjectMembership × World). Fair w o.1)
      (can_assign_project_role (some ctx.tenant.tenant_role) ctx.project_role role) _ _
      (transaction-keeps (Fair w) (add_project_member_in ctx user role w) w
        (λ x after e. add_in-Fair w after ctx user role x m e) (unchanged w))
      (log-Fair w w ctx.tenant _ _ _ m (unchanged w))

pub select-Fair : (w : World) (parsed : Option ℕ) → Fair w (select_active_tenant parsed w).1
unfolding select_active_tenant
select-Fair w parsed =
    input_left (λ o. Fair w o.1) w parsed validation_error _ (unchanged w)
      (λ id.
        membership_left (λ o. Fair w o.1) w (λ _. unchanged w) (λ _. cleared-Fair w) (some id) _
          (λ ctx m.
            log-Fair w (record w { active_tenant = some ctx.tenant_id }) ctx _ _ _ m (unchanged w)))
