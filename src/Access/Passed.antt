-- ===== src/Access/Passed.antt =====
-- What `updateProject` has come through where it changes a project.
use claim_it_all.Prelude.{
  ℕ, Bool, true, false, not, ◌||◌, some, ◌≡◌, refl, inl, inr, Bool-cases, arith, sym, ap, ◌∙◌,
}
use mathlib.Core.Path.{subst}
use claim_it_all.Authz.Capabilities.{Capability, project_read, project_archive}
use claim_it_all.Authz.Permissions.{has_capability, is_archived}
use claim_it_all.Service.Result.{Result, Error, ok, thrown, guard, guard-returns, forbidden, ok_inj}
use claim_it_all.Service.Context.{transaction-ok}
use claim_it_all.Access.Types.{World, ProjectContext, Project}
use claim_it_all.Access.Context.{◌>>>◌, require_project_access, require_project_capability}
use claim_it_all.Access.Projects.{
  UpdateProject, is_restore, may_update, capability_for, update_project_in, update_project,
}
use claim_it_all.Access.Allowed.{authorized}
use claim_it_all.Access.Contexts.{HasProject}

>>>-returns :
    {A B : Type 0} (r : Result A × World) (rest : A → World → Result B × World) {b : B}
    {after : World}
    → (r >>> rest) ≡ (ok b, after)
    → (a : A) × (v : World) × (r ≡ (ok a, v)) × (rest a v ≡ (ok b, after))
>>>-returns (thrown x, v) rest e = cc e
>>>-returns (ok a, v) rest e = (a, v, refl, e)

accessed :
    (id : ℕ) (capability : Capability) (w after : World) (ctx : ProjectContext)
    → require_project_capability id capability w ≡ (ok ctx, after)
    → require_project_access id w ≡ (ok ctx, after)
unfolding require_project_capability
accessed id capability w after ctx e =
    let (found, v, r, more) = >>>-returns (require_project_access id w) _ e in
    elim (Bool-cases (has_capability found.capabilities capability)) [
      | inl t ↦ r ∙ (rw t at more)
      | inr t ↦ cc (rw t at more)
    ]

guard-ok : (test : Bool) (error : Error) → guard test error ≡ ok tt → test ≡ true
guard-ok false error e = cc
guard-ok true error e = refl

or_of : (a b : Bool) → a ≡ true → (not a || b) ≡ true → b ≡ true
or_of a b e f = ground arith

module _ (input : UpdateProject) where
  tested :
      (project : Project) (ctx : ProjectContext)
      → may_update project input ctx ≡ ok tt
      → (is_archived input.status ≡ true → has_capability ctx.capabilities project_archive ≡ true)
        × (is_archived (some project.status) ≡ true → is_restore project input ≡ true)
  tested project ctx e =
      let (a, more) = guard-returns _ forbidden _ e in
      let b = guard-ok _ forbidden more in (λ t. or_of _ _ t a, λ t. or_of _ _ t b)

  -- What the code has found and tested, in the order in which it does.
  pub passed :
      (id : ℕ) (w after : World) (p : Project)
      → update_project id (some input) w ≡ (ok p, after)
      → (ctx : ProjectContext) × (require_project_access id w ≡ (ok ctx, w))
        × HasProject w ctx
        × (ctx.project.id ≡ id)
        × (has_capability ctx.capabilities (capability_for ctx.project input) ≡ true)
        × (is_archived input.status ≡ true → has_capability ctx.capabilities project_archive ≡ true)
        × (is_archived (some ctx.project.status) ≡ true → is_restore ctx.project input ≡ true)
        × (update_project_in ctx input (is_restore ctx.project input) w ≡ ok (p, after))
  unfolding update_project
  passed id w after p e =
      let (access, v, r, e1) = >>>-returns (require_project_capability id project_read w) _ e in
      let (same_v, _, _, _) = authorized id project_read w v access r in
      let (ctx, u, r', e2) =
        >>>-returns (require_project_capability id (capability_for access.project input) v) _ e1 in
      let r2 : require_project_capability id (capability_for access.project input) w ≡ (ok ctx, u) =
        subst
          (λ z. require_project_capability id (capability_for access.project input) z ≡ (ok ctx, u))
          same_v r' in
      let (same_u, h, own, c) = authorized id (capability_for access.project input) w u ctx r2 in
      let opens = accessed id (capability_for access.project input) w u ctx r2 in
      let same_context : access ≡ ctx =
        ok_inj (ap (λ o. o.0) (sym (accessed id project_read w v access r) ∙ opens)) in
      let (_, x, g, e3) = >>>-returns (may_update access.project input ctx, u) _ e2 in
      let same_x : x ≡ w = sym (ap (λ o. o.1) g) ∙ same_u in
      let (archives, restores) = tested access.project ctx (ap (λ o. o.0) g) in
      let same_project : access.project ≡ ctx.project = ap (λ y. y.project) same_context in
      (
        ctx,
        subst (λ z. require_project_access id w ≡ (ok ctx, z)) same_u opens,
        h,
        own,
        subst (λ q. has_capability ctx.capabilities (capability_for q input) ≡ true) same_project c,
        archives,
        subst (λ q. is_archived (some q.status) ≡ true → is_restore q input ≡ true) same_project
            restores,
        subst (λ q. update_project_in ctx input (is_restore q input) w ≡ ok (p, after)) same_project
            (subst
              (λ z. update_project_in ctx input (is_restore access.project input) z ≡ ok (p, after))
              same_x (transaction-ok _ x after p e3)),
      )
