-- ===== src/Access/Refusals.antt =====
-- What a request leaves: where it is refused, and where it goes on with a context.
use claim_it_all.Prelude.{
  ℕ, true, Option, none, some, ◌≡◌, refl, inl, inr, find, Bool-cases, sym, ◌∙◌,
}
use mathlib.Core.Path.{subst}
use claim_it_all.Prelude.Text.{text_eq, codes}
use claim_it_all.Authz.Capabilities.{Capability, project_read}
use claim_it_all.Authz.Permissions.{has_capability}
use claim_it_all.Service.Result.{Result, Error, ok, thrown, not_found, forbidden}
use claim_it_all.Service.Rows.{find_test, find-Some}
use claim_it_all.Access.Types.{
  SessionUser, TenantMembership, World, TenantContext, ProjectContext, write_audit_log,
}
use claim_it_all.Access.Context.{
  ◌>>>◌, require_authenticated_user, is_membership, with_membership, membership_in,
  resolved_tenant_id, require_tenant_membership, denied, require_tenant_capability,
  load_authorized_project, get_authorized_project, require_project_access,
  require_project_capability,
}
use claim_it_all.Access.Contexts.{
  HasTenant, HasProject, cleared, is_membership_own, >>>-assoc, authenticated, loaded,
}

module _ {B : Type 0} (P : Result B × World → Type 0) (w : World)
    (stays : (e : Error) → P (thrown e, w)) where
  module _ (clears : (e : Error) → P (thrown e, cleared w)) where
    found_left :
        (user : SessionUser) (tenant_id : Option ℕ) (resolved : ℕ)
        (rest : TenantContext → World → Result B × World)
        → w.session ≡ some user
        → text_eq user.status (codes "ACTIVE") ≡ true
        → ((ctx : TenantContext) → HasTenant w ctx → P (rest ctx w))
        → (found : Option TenantMembership)
        → find (is_membership w resolved user.id) w.memberships ≡ found
        → P (with_membership user tenant_id found w >>> rest)
    found_left user none resolved rest s a f none e = clears forbidden
    found_left user (some given) resolved rest s a f none e = stays forbidden
    found_left user tenant_id resolved rest s a f (some m) e =
        let t = find_test (is_membership w resolved user.id) w.memberships m e in
        f _ (
          s,
          a,
          find-Some (λ x. x ≡ m) _ w.memberships m e refl,
          is_membership_own w resolved user.id m t,
          refl,
          refl,
        )

    resolved_left :
        (user : SessionUser) (tenant_id resolved : Option ℕ)
        (rest : TenantContext → World → Result B × World)
        → w.session ≡ some user
        → text_eq user.status (codes "ACTIVE") ≡ true
        → ((ctx : TenantContext) → HasTenant w ctx → P (rest ctx w))
        → P (membership_in user tenant_id resolved w >>> rest)
    resolved_left user tenant_id none rest s a f = stays forbidden
    resolved_left user tenant_id (some resolved) rest s a f =
        found_left user tenant_id resolved rest s a f _ refl

    user_left :
        (tenant_id : Option ℕ) (rest : TenantContext → World → Result B × World)
        → ((ctx : TenantContext) → HasTenant w ctx → P (rest ctx w))
        → (r : Result SessionUser) → require_authenticated_user w ≡ r
        → P (
            (r, w)
            >>> (λ user w. membership_in user tenant_id (resolved_tenant_id tenant_id w) w)
            >>> rest)
    user_left tenant_id rest f (thrown e) r = stays e
    user_left tenant_id rest f (ok user) r =
        let (s, a) = authenticated w user r in
        resolved_left user tenant_id (resolved_tenant_id tenant_id w) rest s a f

    -- A request for an organization fails, maybe with the cookie cleared, or goes on as a member.
    pub membership_left :
        (tenant_id : Option ℕ) (rest : TenantContext → World → Result B × World)
        → ((ctx : TenantContext) → HasTenant w ctx → P (rest ctx w))
        → P (require_tenant_membership tenant_id w >>> rest)
    unfolding require_tenant_membership
    membership_left tenant_id rest f = user_left tenant_id rest f _ refl

    pub tenant_left :
        (capability : Capability) (tenant_id : Option ℕ)
        (rest : TenantContext → World → Result B × World)
        → ((ctx : TenantContext)
            → HasTenant w ctx
            → P (thrown forbidden, write_audit_log (denied ctx none capability) w))
        → ((ctx : TenantContext)
            → HasTenant w ctx
            → has_capability ctx.capabilities capability ≡ true
            → P (rest ctx w))
        → P (require_tenant_capability capability tenant_id w >>> rest)
    unfolding require_tenant_capability
    tenant_left capability tenant_id rest logs f =
        subst P (sym (>>>-assoc (require_tenant_membership tenant_id w) _ rest)) (
          membership_left tenant_id _ (λ ctx h.
            elim (Bool-cases (has_capability ctx.capabilities capability)) [
              | inl e ↦ rw e (f ctx h e)
              | inr e ↦ rw e (logs ctx h)
            ]))

    loaded_left :
        (project_id : ℕ) (ctx : TenantContext) (rest : ProjectContext → World → Result B × World)
        → HasTenant w ctx
        → ((ctx : ProjectContext) → HasProject w ctx → ctx.project.id ≡ project_id → P (rest ctx w))
        → (r : Result ProjectContext) → load_authorized_project ctx project_id w ≡ r
        → P ((r, w) >>> rest)
    loaded_left project_id ctx rest h f (thrown e) r = stays e
    loaded_left project_id ctx rest h f (ok found) r =
        let (p, q) = loaded w ctx project_id found h r in f found p q

    pub access_left :
        (project_id : ℕ) (rest : ProjectContext → World → Result B × World)
        → ((ctx : ProjectContext) → HasProject w ctx → ctx.project.id ≡ project_id → P (rest ctx w))
        → P (require_project_access project_id w >>> rest)
    unfolding require_project_access get_authorized_project
    access_left project_id rest f =
        subst P
          (sym (
            >>>-assoc (get_authorized_project project_id w) _ rest
            ∙ >>>-assoc (require_tenant_membership none w) _ _))
          (membership_left none _ (λ ctx h.
            loaded_left project_id ctx _ h
              (λ found p q. elim (Bool-cases (has_capability found.capabilities project_read)) [
                | inl e ↦ rw e (f found p q)
                | inr e ↦ rw e (stays not_found)
              ])
              _ refl))

    -- A request for a project fails, maybe with the cookie cleared or with a row in the log, or goes
    -- on with access to the project and the capability.
    pub project_left :
        (project_id : ℕ) (capability : Capability)
        (rest : ProjectContext → World → Result B × World)
        → ((ctx : ProjectContext)
            → HasProject w ctx
            → P (
              thrown forbidden,
              write_audit_log (denied ctx.tenant (some ctx.project.id) capability) w,
            ))
        → ((ctx : ProjectContext)
            → HasProject w ctx
            → ctx.project.id ≡ project_id
            → has_capability ctx.capabilities capability ≡ true
            → P (rest ctx w))
        → P (require_project_capability project_id capability w >>> rest)
    unfolding require_project_capability
    project_left project_id capability rest logs f =
        subst P (sym (>>>-assoc (require_project_access project_id w) _ rest)) (
          access_left project_id _ (λ ctx h q.
            elim (Bool-cases (has_capability ctx.capabilities capability)) [
              | inl e ↦ rw e (f ctx h q e)
              | inr e ↦ rw e (logs ctx h)
            ]))
