-- ===== src/Access/Listed.antt =====
-- Which projects are hidden from a user, and which the list shows.
use claim_it_all.Prelude.{
  ℕ, Bool, true, false, ◌||◌, Option, none, some, List, [], ◌∷◌, ◌≡◌, ◌↔◌, refl, inl, inr, find,
  any, is_some, Bool-cases, All, All-mono, arith, ◌==◌, ==_iff, sym, ap, ◌∙◌,
}
use claim_it_all.Authz.Capabilities.{Capability}
use claim_it_all.Authz.Permissions.{tenant_role_can_access_all_tenant_projects}
use claim_it_all.Service.Result.{ok, thrown, not_found}
use claim_it_all.Service.Rows.{find_test}
use claim_it_all.Access.Types.{World, TenantContext, ProjectContext, Project, ProjectMembership}
use claim_it_all.Access.Context.{
  is_project, is_project_membership, project_context, with_project_membership,
  load_authorized_project, get_authorized_project, require_tenant_membership,
  require_project_access, require_project_capability,
}
use claim_it_all.Access.Projects.{is_listed_member, is_listed}
use claim_it_all.Access.Changes.{owned}
use claim_it_all.Access.Governed.{IsGoverned}

not_loaded :
    (w : World) (ctx : TenantContext) (id : ℕ)
    → tenant_role_can_access_all_tenant_projects ctx.tenant_role ≡ false
    → find (is_project_membership id ctx.tenant_id ctx.user.id) w.project_memberships ≡ none
    → (found : Option Project) → find (is_project id ctx.tenant_id) w.projects ≡ found
    → load_authorized_project ctx id w ≡ thrown not_found
unfolding load_authorized_project
not_loaded w ctx id narrow absent none e = rw e refl
not_loaded w ctx id narrow absent (some p) e =
    let same_id : p.id ≡ id = own_id (find_test (is_project id ctx.tenant_id) w.projects p e) in
    rw (e, same_id, absent, narrow) refl
  where
    own_id : is_project id ctx.tenant_id p ≡ true → p.id ≡ id
    own_id t = ground arith

-- A member of an organization who is not a member of the project, and whose role does not reach all
-- projects, gets the same answer whatever the table of the projects has: the project is not found.
pub require_project_capability_hides :
    (id : ℕ) (capability : Capability) (w : World) (ctx : TenantContext)
    → require_tenant_membership none w ≡ (ok ctx, w)
    → tenant_role_can_access_all_tenant_projects ctx.tenant_role ≡ false
    → find (is_project_membership id ctx.tenant_id ctx.user.id) w.project_memberships ≡ none
    → require_project_capability id capability w ≡ (thrown not_found, w)
unfolding require_project_capability require_project_access get_authorized_project
require_project_capability_hides id capability w ctx e narrow absent =
    rw (e, not_loaded w ctx id narrow absent _ refl) refl

same_tests :
    {Row : Type 0} (p q : Row → Bool) (xs : List Row)
    → All (λ x. p x ≡ q x) xs
    → any p xs ≡ is_some (find q xs)
same_tests p q [] h = refl
same_tests p q (x ∷ xs) (e, h) = elim (Bool-cases (q x)) [
  | inl t ↦ rw (e, t) refl
  | inr t ↦ rw (e, t) (same_tests p q xs h)
]

opened :
    (ctx : TenantContext) (p : Project) (member : Option ProjectMembership)
    → ((tenant_role_can_access_all_tenant_projects ctx.tenant_role || is_some member) ≡ true)
      ↔ ((found : ProjectContext) × (with_project_membership ctx p member ≡ ok found))
opened ctx p none = elim (Bool-cases (tenant_role_can_access_all_tenant_projects ctx.tenant_role)) [
  | inl t ↦ rw t (λ _. (project_context ctx p none, refl), λ _. refl)
  | inr t ↦ rw t (λ f. cc, λ (c, f). cc)
]
opened ctx p (some m) = (λ _. (project_context ctx p (some m), refl), λ _. ground arith)

listed_member :
    (ctx : TenantContext) (p : Project) (owner : ℕ → ℕ) (m : ProjectMembership)
    → m.tenant_id ≡ owner m.project_id
    → ctx.tenant_id ≡ owner p.id
    → is_listed_member ctx p m ≡ is_project_membership p.id ctx.tenant_id ctx.user.id m
listed_member ctx p owner m e f = elim (Bool-cases (m.project_id == p.id)) [
  | inl t ↦
      let g : m.tenant_id ≡ ctx.tenant_id = e ∙ ap owner ((==_iff m.project_id p.id).0 t) ∙ sym f in
      ground (arith, g, t)
  | inr t ↦ ground (arith, t)
]

own_tenant :
    (id tenant : ℕ) (p : Project) → is_project id tenant p ≡ true → (p.tenant_id == tenant) ≡ true
own_tenant id tenant p e = ground arith

-- In governed tables, the list of the projects of the organization shows a project of it, which its
-- identifier finds, exactly if the user can open it.
pub is_listed_iff :
    (w : World) (ctx : TenantContext) (p : Project)
    → IsGoverned w
    → find (is_project p.id ctx.tenant_id) w.projects ≡ some p
    → (is_listed ctx w p ≡ true)
      ↔ ((found : ProjectContext) × (load_authorized_project ctx p.id w ≡ ok found))
unfolding load_authorized_project
is_listed_iff w ctx p (owner, ps, xs) e =
    let (_, o) = owned w ctx.tenant_id w.next_id owner p e ps in
    let members =
      same_tests (is_listed_member ctx p) (is_project_membership p.id ctx.tenant_id ctx.user.id)
        w.project_memberships
        (All-mono _ _ (λ m (_, f, _). listed_member ctx p owner m f o) w.project_memberships xs) in
    let t =
      own_tenant p.id ctx.tenant_id p (find_test (is_project p.id ctx.tenant_id) w.projects p e) in
    rw (e, t, members) (opened ctx p _)
