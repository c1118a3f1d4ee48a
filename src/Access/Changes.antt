-- ===== src/Access/Changes.antt =====
-- What the bodies of the requests for projects and members do to the tables.
use claim_it_all.Prelude.{
  ℕ, ◌+◌, ◌<◌, true, false, some, [], ◌∷◌, ◌++◌, ◌≡◌, refl, find, Some, All, All-append, All-mono,
  All-update_where, find-All, arith, ◌==◌, sym, ap, ◌∙◌, if◌then◌else◌, update_where,
}
use mathlib.Core.Path.{subst}
use claim_it_all.Authz.Roles.{ProjectRole}
use claim_it_all.Service.Rows.{Some-mono, keep-append_other, keep-update_other}
use claim_it_all.Access.Types.{TenantMembership, Project, ProjectMembership, World, TenantContext}
use claim_it_all.Access.Context.{is_membership, is_project}
use claim_it_all.Access.Members.{is_member_row, change_member}
use claim_it_all.Access.Contexts.{HasTenant}
use claim_it_all.Access.Governed.{IsPlaced, Belongs, IsJoined, Fair, outside}

triple :
    {A B C : Type 0} {a a' : A} {b b' : B} {c : C}
    → a ≡ a'
    → b ≡ b'
    → ◌≡◌ {A = A × B × C} (a, b, c) (a', b', c)
triple e f = rw (e, f) refl

project_other :
    (id a t : ℕ) (p : Project)
    → is_project id a p ≡ true
    → (a == t) ≡ false
    → (p.tenant_id == t) ≡ false
project_other id a t p e f = ground arith

own_ids :
    (w : World) (a user : ℕ) (m : TenantMembership)
    → is_membership w a user m ≡ true
    → (m.tenant_id ≡ a) × (m.user_id ≡ user)
own_ids w a user m e = (ground arith, ground arith)

member_ids :
    (project user : ℕ) (m : ProjectMembership)
    → is_member_row project user m ≡ true
    → (m.project_id ≡ project) × (m.user_id ≡ user)
member_ids project user m e = (ground arith, ground arith)

pub project_ids :
    (id a : ℕ) (p : Project) → is_project id a p ≡ true → (p.id ≡ id) × (p.tenant_id ≡ a)
project_ids id a p e = (ground arith, ground arith)

-- The organization of a project that was found is the project's owner.
pub owned :
    (w : World) (a next : ℕ) (owner : ℕ → ℕ) (p : Project)
    → find (is_project p.id a) w.projects ≡ some p
    → All (IsPlaced next owner) w.projects
    → (p.id < next) × (a ≡ owner p.id)
owned w a next owner p e ps =
    let ((l, o), t) = find-All _ (is_project p.id a) w.projects p e ps in
    (l, sym ((project_ids p.id a p t).1) ∙ o)

module _ (w : World) (ctx : TenantContext) (m : HasTenant w ctx) where
  own_membership :
      Some
        (λ (t : TenantMembership). (t.tenant_id ≡ ctx.tenant_id) × (t.user_id ≡ ctx.user.id))
        w.memberships
  own_membership =
      let (_, _, s, h, _, _) = m in
      Some-mono (λ t. t ≡ ctx.membership) _
        (λ t e.
          subst (λ x. (x.tenant_id ≡ ctx.tenant_id) × (x.user_id ≡ ctx.user.id)) (sym e)
            (own_ids w ctx.tenant_id ctx.user.id ctx.membership h))
        w.memberships s

  enlarged :
      (owner : ℕ → ℕ) (p : Project)
      → IsPlaced w.next_id owner p
      → IsPlaced (w.next_id + 2) (λ i. if i == w.next_id then ctx.tenant_id else owner i) p
  enlarged owner p (l, e) = (omega (arith, l), ground (arith, l, e))

  enlarged_member :
      (owner : ℕ → ℕ) (p : ProjectMembership)
      → IsJoined w.next_id owner w.memberships p
      → IsJoined
          (w.next_id + 2)
          (λ i. if i == w.next_id then ctx.tenant_id else owner i)
          w.memberships
          p
  enlarged_member owner p (l, e, s) = (omega (arith, l), ground (arith, l, e), s)

  pub created-Fair :
      (p : Project) (x : ProjectMembership)
      → p.id ≡ w.next_id
      → p.tenant_id ≡ ctx.tenant_id
      → x.project_id ≡ w.next_id
      → x.tenant_id ≡ ctx.tenant_id
      → x.user_id ≡ ctx.user.id
      → Fair w (record w {
        next_id = w.next_id + 2;
        projects = w.projects ++ p ∷ [];
        project_memberships = w.project_memberships ++ x ∷ [];
      })
  created-Fair p x pi pt xp xt xu (owner, ps, xs) =
      let owner' : ℕ → ℕ = λ i. if i == w.next_id then ctx.tenant_id else owner i in
      (
        (
          owner',
          All-append _ w.projects (p ∷ []) (All-mono _ _ (enlarged owner) w.projects ps)
              ((omega (arith, pi), ground (arith, pi, pt)), tt),
          All-append _ w.project_memberships (x ∷ [])
              (All-mono _ _ (enlarged_member owner) w.project_memberships xs)
              (
                (
                  omega (arith, xp),
                  ground (arith, xp, xt),
                  Some-mono _ (Belongs x) (λ t (a, b). (a ∙ sym xt, b ∙ sym xu)) w.memberships
                      own_membership,
                ),
                tt,
              ),
        ),
        λ t o.
            let e = outside w ctx t m o in
            triple (keep-append_other (λ (p : Project). p.tenant_id == t) w.projects p (rw pt e)) (
              keep-append_other (λ (m : ProjectMembership). m.tenant_id == t) w.project_memberships
                x (rw xt e)),
      )

  pub updated-Fair :
      (id : ℕ) (change : Project → Project)
      → ((p : Project) → (change p).id ≡ p.id)
      → ((p : Project) → (change p).tenant_id ≡ p.tenant_id)
      → Fair w
          (record w { projects = update_where (is_project id ctx.tenant_id) change w.projects })
  updated-Fair id change i same_tenant (owner, ps, xs) = (
    (
      owner,
      All-update_where _ _ (is_project id ctx.tenant_id) change
          (λ p (l, e) _. (rw (i p) l, rw (i p, same_tenant p) e)) (λ p h _. h) w.projects ps,
      xs,
    ),
    λ t o.
        let e = outside w ctx t m o in
        triple
          (keep-update_other (λ (p : Project). p.tenant_id == t) (is_project id ctx.tenant_id)
            change (λ p h. rw (same_tenant p) (project_other id ctx.tenant_id t p h e)) w.projects
            (All-mono _ _ (λ p _ h. project_other id ctx.tenant_id t p h e) w.projects ps))
          refl,
  )

  pub added-Fair :
      (project : Project) (user : ℕ) (x : ProjectMembership)
      → find (is_project project.id ctx.tenant_id) w.projects ≡ some project
      → Some
          (λ (t : TenantMembership). (t.tenant_id ≡ ctx.tenant_id) × (t.user_id ≡ user))
          w.memberships
      → x.project_id ≡ project.id
      → x.tenant_id ≡ ctx.tenant_id
      → x.user_id ≡ user
      → Fair w (record w {
        next_id = w.next_id + 1;
        project_memberships = w.project_memberships ++ x ∷ [];
      })
  added-Fair project user x p s xp xt xu (owner, ps, xs) =
      let (l, o) = owned w ctx.tenant_id w.next_id owner project p ps in
      (
        (
          owner,
          All-mono _ _ (λ p (l, e). (omega (arith, l), e)) w.projects ps,
          All-append _ w.project_memberships (x ∷ [])
              (All-mono _ _ (λ y (l, e, s). (omega (arith, l), e, s)) w.project_memberships xs)
              (
                (
                  omega (arith, l, xp),
                  xt ∙ o ∙ sym (ap owner xp),
                  Some-mono _ (Belongs x) (λ t (a, b). (a ∙ sym xt, b ∙ sym xu)) w.memberships s,
                ),
                tt,
              ),
        ),
        λ t out. triple refl (
            keep-append_other (λ (m : ProjectMembership). m.tenant_id == t) w.project_memberships x
              (rw xt (outside w ctx t m out))),
      )

  pub changed-Fair :
      (project : Project) (user : ℕ) (role : ProjectRole)
      → find (is_project project.id ctx.tenant_id) w.projects ≡ some project
      → Some
          (λ (t : TenantMembership). (t.tenant_id ≡ ctx.tenant_id) × (t.user_id ≡ user))
          w.memberships
      → Fair w (record w {
        project_memberships =
            update_where
              (is_member_row project.id user)
              (change_member ctx.tenant_id role)
              w.project_memberships;
      })
  changed-Fair project user role p s (owner, ps, xs) =
      let (l, o) = owned w ctx.tenant_id w.next_id owner project p ps in
      (
        (
          owner,
          ps,
          All-update_where _ _ (is_member_row project.id user) (change_member ctx.tenant_id role)
              (λ y (k, e, _) h.
                let (a, b) = member_ids project.id user y h in
                (
                  k,
                  o ∙ sym (ap owner a),
                  Some-mono _ (Belongs (change_member ctx.tenant_id role y))
                      (λ t (c, d). (c, d ∙ sym b)) w.memberships s,
                ))
              (λ y h _. h) w.project_memberships xs,
        ),
        λ t out.
            let e = outside w ctx t m out in
            triple refl (
              keep-update_other (λ (m : ProjectMembership). m.tenant_id == t)
                (is_member_row project.id user) (change_member ctx.tenant_id role) (λ y _. e)
                w.project_memberships
                (All-mono _ _
                  (λ y (_, f, _) h.
                    subst (λ a. (a == t) ≡ false)
                      (o ∙ sym (ap owner ((member_ids project.id user y h).0)) ∙ sym f) e)
                  w.project_memberships xs)),
      )
