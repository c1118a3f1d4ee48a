-- ===== src/Access/Governed.antt =====
-- The projects of the organizations and their members, as every sequence of requests keeps them.
use claim_it_all.Prelude.{
  ℕ, ◌<◌, Bool, true, false, some, List, [], ◌∷◌, ◌≡◌, refl, inl, inr, Some, All, arith, ◌==◌, sym,
  ap, ◌∙◌, ◌&&◌, keep,
}
use mathlib.Core.Path.{subst}
use claim_it_all.Service.Rows.{keep-append_other}
use claim_it_all.Access.Types.{
  SessionUser, TenantMembership, Project, ProjectMembership, AuditRow, World, TenantContext,
  is_active, write_audit_log,
}
use claim_it_all.Access.Context.{is_membership}
use claim_it_all.Access.Contexts.{HasTenant, cleared}

-- Every project has one organization, which its memberships have too, and a member of a project
-- has a membership of the organization. Identifiers have been given before.
abbrev pub IsPlaced : ℕ → (ℕ → ℕ) → Project → Type 0
IsPlaced next owner p = (p.id < next) × (p.tenant_id ≡ owner p.id)

abbrev pub Belongs : ProjectMembership → TenantMembership → Type 0
Belongs m t = (t.tenant_id ≡ m.tenant_id) × (t.user_id ≡ m.user_id)

abbrev pub IsJoined : ℕ → (ℕ → ℕ) → List TenantMembership → ProjectMembership → Type 0
IsJoined next owner tenant m =
    (m.project_id < next) × (m.tenant_id ≡ owner m.project_id) × Some (Belongs m) tenant

abbrev pub IsGoverned : World → Type 0
IsGoverned w =
    (owner : ℕ → ℕ) × All (IsPlaced w.next_id owner) w.projects
    × All (IsJoined w.next_id owner w.memberships) w.project_memberships

-- What a request does not reach: the rows of an organization that the user is not active in.
abbrev pub is_active_member : ℕ → ℕ → TenantMembership → Bool
is_active_member tenant_id user_id m =
    m.tenant_id == tenant_id && (m.user_id == user_id && is_active m.status)

abbrev pub IsOutside : World → ℕ → Type 0
IsOutside w tenant =
    (user : SessionUser)
    → w.session ≡ some user
    → All (λ m. is_active_member tenant user.id m ≡ false) w.memberships

abbrev pub belongings : ℕ → World → List Project × List ProjectMembership × List AuditRow
belongings tenant w = (
  keep (λ (p : Project). p.tenant_id == tenant) w.projects,
  keep (λ (m : ProjectMembership). m.tenant_id == tenant) w.project_memberships,
  keep (λ (r : AuditRow). r.tenant_id == tenant) w.audit,
)

abbrev pub Isolates : World → World → Type 0
Isolates w after = (tenant : ℕ) → IsOutside w tenant → belongings tenant after ≡ belongings tenant w

abbrev pub Fair : World → World → Type 0
Fair w after = IsGoverned w → IsGoverned after × Isolates w after

other_tenant :
    (a t user : ℕ) (m : TenantMembership) (w : World)
    → is_membership w a user m ≡ true
    → is_active_member t user m ≡ false
    → (a == t) ≡ false
other_tenant a t user m w h o = ground arith

not_outside :
    (w : World) (ctx : TenantContext) (t : ℕ) (ms : List TenantMembership)
    → Some (λ m. m ≡ ctx.membership) ms
    → is_membership w ctx.tenant_id ctx.user.id ctx.membership ≡ true
    → All (λ m. is_active_member t ctx.user.id m ≡ false) ms
    → (ctx.tenant_id == t) ≡ false
not_outside w ctx t [] s h o = absurd s
not_outside w ctx t (m ∷ ms) (inl e) h (p, o) =
    other_tenant ctx.tenant_id t ctx.user.id ctx.membership w h
      (subst (λ x. is_active_member t ctx.user.id x ≡ false) e p)
not_outside w ctx t (m ∷ ms) (inr s) h (p, o) = not_outside w ctx t ms s h o

pub outside :
    (w : World) (ctx : TenantContext) (t : ℕ)
    → HasTenant w ctx
    → IsOutside w t
    → (ctx.tenant_id == t) ≡ false
outside w ctx t (s, _, m, h, _, _) o = not_outside w ctx t w.memberships m h (o ctx.user s)

pub unchanged : (w : World) → Fair w w
unchanged w h = (h, λ t o. refl)

pub cleared-Fair : (w : World) → Fair w (cleared w)
cleared-Fair w h = (h, λ t o. refl)

-- A row in the log of the user's own organization.
pub logged :
    (w v : World) (ctx : TenantContext) (row : AuditRow)
    → HasTenant w ctx
    → row.tenant_id ≡ ctx.tenant_id
    → Fair w v
    → Fair w (write_audit_log row v)
logged w v ctx row m e f h =
    let (g, i) = f h in
    (
      g,
      λ t o.
          let same_rows =
            keep-append_other (λ (r : AuditRow). r.tenant_id == t) v.audit row
              (subst (λ a. (a == t) ≡ false) (sym e) (outside w ctx t m o)) in
          ap
            (λ rows. (
              keep (λ (p : Project). p.tenant_id == t) v.projects,
              keep (λ (m : ProjectMembership). m.tenant_id == t) v.project_memberships,
              rows,
            ))
            same_rows
          ∙ i t o,
    )
