-- ===== src/Access/Contexts.antt =====
-- What a context that a request gets says of the tables.
use claim_it_all.Prelude.{
  ℕ, true, ◌||◌, Option, none, some, ◌≡◌, refl, find, is_some, Some, arith, sym, ◌∙◌,
}
use mathlib.Core.Path.{subst}
use claim_it_all.Prelude.Text.{text_eq, codes}
use claim_it_all.Authz.Permissions.{
  resolve_capabilities, tenant_role_can_access_all_tenant_projects,
}
use claim_it_all.Service.Result.{
  Result, ok, thrown, not_found, forbidden, unauthenticated, or_throw-returns, guard-returns,
  holds_of,
}
use claim_it_all.Service.Rows.{find_test}
use claim_it_all.Access.Types.{
  SessionUser, TenantMembership, Project, ProjectMembership, World, TenantContext, ProjectContext,
}
use claim_it_all.Access.Context.{
  ◌>>>◌, require_authenticated_user, is_membership, is_project, is_project_membership, role_of,
  project_context, with_project_membership, load_authorized_project,
}

-- The user of the session is active, and so is their membership, in an organization that is open.
abbrev pub HasTenant : World → TenantContext → Type 0
HasTenant w ctx =
    (w.session ≡ some ctx.user)
    × (text_eq ctx.user.status (codes "ACTIVE") ≡ true)
    × Some (λ m. m ≡ ctx.membership) w.memberships
    × (is_membership w ctx.tenant_id ctx.user.id ctx.membership ≡ true)
    × (ctx.tenant_role ≡ ctx.membership.role)
    × (ctx.capabilities ≡ resolve_capabilities ctx.membership.role none none)

abbrev pub member_of : World → ProjectContext → Option ProjectMembership
member_of w ctx =
    find (is_project_membership ctx.project.id ctx.tenant.tenant_id ctx.tenant.user.id)
      w.project_memberships

-- The project is the organization's, and the user is an active member of it, or has a role in the
-- organization that reaches all of its projects.
abbrev pub HasProject : World → ProjectContext → Type 0
HasProject w ctx =
    HasTenant w ctx.tenant
    × (find (is_project ctx.project.id ctx.tenant.tenant_id) w.projects ≡ some ctx.project)
    × ((is_some (member_of w ctx)
          || tenant_role_can_access_all_tenant_projects ctx.tenant.tenant_role)
        ≡ true)
    × (ctx.project_role ≡ role_of (member_of w ctx))
    × (ctx.capabilities
        ≡ resolve_capabilities ctx.tenant.tenant_role ctx.project_role (some ctx.project.status))

abbrev pub cleared : World → World
cleared w = record w { active_tenant = none }

pub is_membership_own :
    (w : World) (tenant user : ℕ) (m : TenantMembership)
    → is_membership w tenant user m ≡ true
    → is_membership w m.tenant_id user m ≡ true
is_membership_own w tenant user m e = ground arith

is_project_own : (id tenant : ℕ) (p : Project) → is_project id tenant p ≡ true → p.id ≡ id
is_project_own id tenant p e = ground arith

pub >>>-assoc :
    {A B C : Type 0} (r : Result A × World) (f : A → World → Result B × World)
    (g : B → World → Result C × World)
    → (r >>> f >>> g) ≡ (r >>> (λ a w. f a w >>> g))
>>>-assoc (thrown e, w) f g = refl
>>>-assoc (ok a, w) f g = refl

pub authenticated :
    (w : World) (user : SessionUser)
    → require_authenticated_user w ≡ ok user
    → (w.session ≡ some user) × (text_eq user.status (codes "ACTIVE") ≡ true)
unfolding require_authenticated_user
authenticated w user e =
    let (found, s, more) = or_throw-returns w.session unauthenticated _ e in
    let (a, same_user) = guard-returns _ forbidden (ok found) more in
    holds_of (λ u. (w.session ≡ some u) × (text_eq u.status (codes "ACTIVE") ≡ true)) same_user
      (s, a)

joined :
    (w : World) (ctx : TenantContext) (project : Project) (found : ProjectContext)
    → HasTenant w ctx
    → find (is_project project.id ctx.tenant_id) w.projects ≡ some project
    → (member : Option ProjectMembership)
    → find (is_project_membership project.id ctx.tenant_id ctx.user.id) w.project_memberships
      ≡ member
    → with_project_membership ctx project member ≡ ok found
    → HasProject w found × (found.project.id ≡ project.id)
joined w ctx project found h p none m e =
    let (wide, same_context) =
      guard-returns _ not_found (ok (project_context ctx project none)) e in
    holds_of (λ c. HasProject w c × (c.project.id ≡ project.id)) same_context
      ((h, p, rw m wide, rw m refl, refl), refl)
joined w ctx project found h p (some x) m e =
    holds_of (λ c. HasProject w c × (c.project.id ≡ project.id)) e
      ((h, p, rw m refl, rw m refl, refl), refl)

pub loaded :
    (w : World) (ctx : TenantContext) (project_id : ℕ) (found : ProjectContext)
    → HasTenant w ctx
    → load_authorized_project ctx project_id w ≡ ok found
    → HasProject w found × (found.project.id ≡ project_id)
unfolding load_authorized_project
loaded w ctx project_id found h e =
    let (project, p, more) =
      or_throw-returns (find (is_project project_id ctx.tenant_id) w.projects) not_found _ e in
    let own =
      is_project_own project_id ctx.tenant_id project
        (find_test (is_project project_id ctx.tenant_id) w.projects project p) in
    let (f, q) =
      joined w ctx project found h
        (subst (λ i. find (is_project i ctx.tenant_id) w.projects ≡ some project) (sym own) p) _
        refl more in
    (f, q ∙ own)
