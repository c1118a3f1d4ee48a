-- ===== src/Access/Allowed.antt =====
-- Who gets access to a project.
use claim_it_all.Prelude.{
  ℕ, Bool, true, ◌||◌, Option, none, some, ◌≡◌, refl, inl, inr, find, is_some, arith, ◌==◌, sym, ap,
  ◌∙◌, ◌⊎◌, Some, ◌&&◌,
}
use mathlib.Core.Path.{subst}
use claim_it_all.Prelude.Text.{text_eq, codes}
use claim_it_all.Authz.Capabilities.{Capability}
use claim_it_all.Authz.Permissions.{
  has_capability, tenant_role_can_access_all_tenant_projects, resolve_capabilities,
}
use claim_it_all.Service.Result.{Result, ok, thrown, ok_inj}
use claim_it_all.Service.Rows.{find_test, find-Some, Some-mono, any-Some}
use claim_it_all.Access.Types.{
  World, ProjectContext, Project, ProjectMembership, Tenant, TenantMembership, MembershipStatus,
  is_open, is_active,
}
use claim_it_all.Access.Context.{
  ◌>>>◌, is_project, is_project_membership, require_project_capability, is_membership,
  tenant_is_open, role_of,
}
use claim_it_all.Access.Contexts.{HasProject}
use claim_it_all.Access.Refusals.{project_left}

>>>-pass : {A : Type 0} (r : Result A × World) → (r >>> (λ a w. (ok a, w))) ≡ r
>>>-pass (thrown e, w) = refl
>>>-pass (ok a, w) = refl

pub authorized :
    (id : ℕ) (capability : Capability) (w after : World) (ctx : ProjectContext)
    → require_project_capability id capability w ≡ (ok ctx, after)
    → (after ≡ w)
      × HasProject w ctx
      × (ctx.project.id ≡ id)
      × (has_capability ctx.capabilities capability ≡ true)
authorized id capability w after ctx e =
    project_left
      (λ o.
        o ≡ (ok ctx, after)
        → (after ≡ w)
          × HasProject w ctx
          × (ctx.project.id ≡ id)
          × (has_capability ctx.capabilities capability ≡ true))
      w (λ _ f. cc) (λ _ f. cc) id capability (λ c v. (ok c, v)) (λ _ _ f. cc)
      (λ found h i c f.
        let same_context : found ≡ ctx = ok_inj (ap (λ o. o.0) f) in
        (
          sym (ap (λ o. o.1) f),
          subst (HasProject w) same_context h,
          subst (λ x. x.project.id ≡ id) same_context i,
          subst (λ x. has_capability x.capabilities capability ≡ true) same_context c,
        ))
      (>>>-pass (require_project_capability id capability w) ∙ e)

-- An active user, with an active membership in an open organization, of a project of it, who is an
-- active member of the project too or has a role that reaches all projects, and whose two roles give
-- the capability in a project of its status.
abbrev pub IsAllowed : World → ℕ → Capability → ProjectContext → Type 0
IsAllowed w id capability ctx =
    (w.session ≡ some ctx.tenant.user)
    × (text_eq ctx.tenant.user.status (codes "ACTIVE") ≡ true)
    × Some
        (λ (m : TenantMembership).
          (m.tenant_id ≡ ctx.tenant.tenant_id)
          × (m.user_id ≡ ctx.tenant.user.id)
          × (m.status ≡ MembershipStatus.active)
          × (m.role ≡ ctx.tenant.tenant_role))
        w.memberships
    × Some (λ (t : Tenant). (t.id ≡ ctx.tenant.tenant_id) × (is_open t.status ≡ true)) w.tenants
    × Some (λ p. p ≡ ctx.project) w.projects
    × (ctx.project.id ≡ id)
    × (ctx.project.tenant_id ≡ ctx.tenant.tenant_id)
    × (((ctx.project_role ≡ none)
          × (tenant_role_can_access_all_tenant_projects ctx.tenant.tenant_role ≡ true))
        ⊎ Some
            (λ (m : ProjectMembership).
              (m.project_id ≡ id)
              × (m.tenant_id ≡ ctx.tenant.tenant_id)
              × (m.user_id ≡ ctx.tenant.user.id)
              × (m.status ≡ MembershipStatus.active)
              × (ctx.project_role ≡ some m.role))
            w.project_memberships)
    × (has_capability
          (resolve_capabilities ctx.tenant.tenant_role ctx.project_role (some ctx.project.status))
          capability
        ≡ true)

active_only : (s : MembershipStatus) → is_active s ≡ true → s ≡ MembershipStatus.active
active_only MembershipStatus.active e = refl
active_only MembershipStatus.invited e = cc
active_only MembershipStatus.disabled e = cc

membership_facts :
    (w : World) (tenant user : ℕ) (m : TenantMembership)
    → is_membership w tenant user m ≡ true
    → (m.tenant_id ≡ tenant)
      × (m.user_id ≡ user)
      × (m.status ≡ MembershipStatus.active)
      × (tenant_is_open w m.tenant_id ≡ true)
membership_facts w tenant user m e =
    (ground arith, ground arith, active_only m.status (ground arith), ground arith)

open_facts :
    (id : ℕ) (t : Tenant)
    → (t.id == id && is_open t.status) ≡ true
    → (t.id ≡ id) × (is_open t.status ≡ true)
open_facts id t e = (ground arith, ground arith)

project_facts : (id tenant : ℕ) (p : Project) → is_project id tenant p ≡ true → p.tenant_id ≡ tenant
project_facts id tenant p e = ground arith

member_facts :
    (id tenant user : ℕ) (m : ProjectMembership)
    → is_project_membership id tenant user m ≡ true
    → (m.project_id ≡ id)
      × (m.tenant_id ≡ tenant)
      × (m.user_id ≡ user)
      × (m.status ≡ MembershipStatus.active)
member_facts id tenant user m e =
    (ground arith, ground arith, ground arith, active_only m.status (ground arith))

allowed_role :
    (w : World) (ctx : ProjectContext) (wide : Bool) (found : Option ProjectMembership)
    → find
        (is_project_membership ctx.project.id ctx.tenant.tenant_id ctx.tenant.user.id)
        w.project_memberships
      ≡ found
    → (is_some found || wide) ≡ true
    → ctx.project_role ≡ role_of found
    → ((ctx.project_role ≡ none) × (wide ≡ true))
      ⊎ Some
          (λ (m : ProjectMembership).
            (m.project_id ≡ ctx.project.id)
            × (m.tenant_id ≡ ctx.tenant.tenant_id)
            × (m.user_id ≡ ctx.tenant.user.id)
            × (m.status ≡ MembershipStatus.active)
            × (ctx.project_role ≡ some m.role))
          w.project_memberships
allowed_role w ctx wide none e f r = inl (r, f)
allowed_role w ctx wide (some m) e f r =
    let (a, b, c, d) = member_facts ctx.project.id ctx.tenant.tenant_id ctx.tenant.user.id m (
      find_test (is_project_membership ctx.project.id ctx.tenant.tenant_id ctx.tenant.user.id)
        w.project_memberships m e) in
    inr (find-Some _ _ w.project_memberships m e (a, b, c, d, r))

pub allowed :
    (w : World) (capability : Capability) (ctx : ProjectContext)
    → HasProject w ctx
    → has_capability ctx.capabilities capability ≡ true
    → IsAllowed w ctx.project.id capability ctx
allowed w capability ctx ((s, a, m, t, r, _), p, f, g, c) h =
    let (b1, b2, b3, b4) =
      membership_facts w ctx.tenant.tenant_id ctx.tenant.user.id ctx.tenant.membership t in
    (
      s,
      a,
      Some-mono _ _
          (λ x e. (
            ap (λ y. y.tenant_id) e ∙ b1,
            ap (λ y. y.user_id) e ∙ b2,
            ap (λ y. y.status) e ∙ b3,
            ap (λ y. y.role) e ∙ sym r,
          ))
          w.memberships m,
      Some-mono _ _
          (λ x e. let (d1, d2) = open_facts ctx.tenant.membership.tenant_id x e in (d1 ∙ b1, d2))
          w.tenants (any-Some _ w.tenants b4),
      find-Some (λ x. x ≡ ctx.project) _ w.projects ctx.project p refl,
      refl,
      project_facts ctx.project.id ctx.tenant.tenant_id ctx.project
          (find_test (is_project ctx.project.id ctx.tenant.tenant_id) w.projects ctx.project p),
      allowed_role w ctx _ _ refl f g,
      subst (λ x. has_capability x capability ≡ true) c h,
    )

-- A request for a project succeeds only for an active user who is an active member of an open
-- organization that the project is in, and an active member of the project or of a role that
-- reaches all projects, and whose roles in the organization and in the project, with the status of
-- the project, give the capability. It changes nothing.
pub require_project_capability-Allows :
    (id : ℕ) (capability : Capability) (w after : World) (ctx : ProjectContext)
    → require_project_capability id capability w ≡ (ok ctx, after)
    → (after ≡ w) × IsAllowed w id capability ctx
require_project_capability-Allows id capability w after ctx e =
    let (same_world, h, i, c) = authorized id capability w after ctx e in
    (same_world, subst (λ j. IsAllowed w j capability ctx) i (allowed w capability ctx h c))
