-- ===== src/Access/Updates.antt =====
-- What a change of a project requires.
use claim_it_all.Prelude.{
  none, Option, List, ◌≢◌, ◌&&◌, ◌==◌, is_some, or_else, keep, update_where, Some, All, [], ◌∷◌, ℕ,
  Bool, true, false, not, some, ◌≡◌, refl, inl, inr, find, Bool-cases, arith, sym, ap, ◌∙◌,
}
use mathlib.Core.Path.{subst}
use claim_it_all.Authz.Capabilities.{Capability, project_update, project_archive}
use claim_it_all.Authz.Permissions.{has_capability, is_archived}
use claim_it_all.Service.Result.{ok, ok_inj}
use claim_it_all.Service.Rows.{find_test, find-Some, Some-update_where, keep-update_other}
use claim_it_all.Authz.Roles.{ProjectStatus}
use claim_it_all.Access.Types.{World, ProjectContext, Project}
use claim_it_all.Access.Context.{is_project, require_project_access}
use claim_it_all.Access.Projects.{
  UpdateProject, change_project, is_restore, capability_for, update_project_in, update_project,
}
use claim_it_all.Access.Allowed.{IsAllowed, allowed}
use claim_it_all.Access.Passed.{passed}

archived_only : (s : ProjectStatus) → is_archived (some s) ≡ true → s ≡ ProjectStatus.archived
archived_only ProjectStatus.archived e = refl
archived_only _ e = cc e

-- A status that was asked for, and that is not the status of an archived project.
abbrev pub IsOpened : Option ProjectStatus → Type 0
IsOpened asked = (s : ProjectStatus) × (asked ≡ some s) × (s ≢ ProjectStatus.archived)

opened :
    (b : Bool) (asked : Option ProjectStatus)
    → (b && (is_some asked && not (is_archived asked))) ≡ true
    → IsOpened asked
opened b none e = absurd (ground arith)
opened b (some ProjectStatus.archived) e = absurd (ground arith)
opened b (some s) e = (s, refl, λ f. cc f)

module _ (input : UpdateProject) where
  -- The columns that the input names have its values, and the others those of before.
  abbrev pub IsChanged : Project → Project → Type 0
  IsChanged old p =
      (p.id ≡ old.id)
      × (p.tenant_id ≡ old.tenant_id)
      × (p.code ≡ old.code)
      × (p.name ≡ or_else input.name old.name)
      × (p.description ≡ or_else input.description old.description)
      × (p.country_code ≡ or_else input.country_code old.country_code)
      × (p.default_currency ≡ or_else input.default_currency old.default_currency)
      × (p.timezone ≡ or_else input.timezone old.timezone)
      × (p.status ≡ or_else input.status old.status)

  abbrev is_other : ProjectContext → Project → Bool
  is_other ctx q = not (q.id == ctx.project.id && q.tenant_id == ctx.tenant.tenant_id)

  abbrev others : ProjectContext → World → List Project
  others ctx w = keep (is_other ctx) w.projects

  -- What an update of a project, by a user with a context, has come through, and what it leaves.
  abbrev pub IsUpdate : World → World → ℕ → Project → ProjectContext → Type 0
  IsUpdate w after id p ctx =
      (require_project_access id w ≡ (ok ctx, w))
      × (ctx.project.status ≢ ProjectStatus.archived → IsAllowed w id project_update ctx)
      × (ctx.project.status ≡ ProjectStatus.archived
          → IsAllowed w id project_archive ctx × IsOpened input.status)
      × (input.status ≡ some ProjectStatus.archived → IsAllowed w id project_archive ctx)
      × IsChanged ctx.project p
      × Some (λ q. q ≡ p) after.projects
      × (others ctx after ≡ others ctx w)

  changed :
      (w after : World) (ctx : ProjectContext) (restores : Bool) (p : Project)
      → find (is_project ctx.project.id ctx.tenant.tenant_id) w.projects ≡ some ctx.project
      → update_project_in ctx input restores w ≡ ok (p, after)
      → (change_project input ctx.project ≡ p)
        × (update_where
              (is_project ctx.project.id ctx.tenant.tenant_id)
              (change_project input)
              w.projects
            ≡ after.projects)
  unfolding update_project_in
  changed w after ctx restores p f e =
      let same = ok_inj (rw f at e) in (ap (λ o. o.0) same, ap (λ o. o.1.projects) same)

  not_other :
      (ctx : ProjectContext) (q : Project)
      → is_project ctx.project.id ctx.tenant.tenant_id q ≡ true
      → is_other ctx q ≡ false
  not_other ctx q e = ground arith

  others_tested :
      (ctx : ProjectContext) (qs : List Project)
      → All
          (λ q. is_project ctx.project.id ctx.tenant.tenant_id q ≡ true → is_other ctx q ≡ false)
          qs
  others_tested ctx [] = tt
  others_tested ctx (q ∷ qs) = (not_other ctx q, others_tested ctx qs)

  left :
      (w after : World) (ctx : ProjectContext) (restores : Bool) (p : Project)
      → find (is_project ctx.project.id ctx.tenant.tenant_id) w.projects ≡ some ctx.project
      → update_project_in ctx input restores w ≡ ok (p, after)
      → IsChanged ctx.project p
        × Some (λ q. q ≡ p) after.projects
        × (others ctx after ≡ others ctx w)
  left w after ctx restores p f e =
      let (same_row, same_table) = changed w after ctx restores p f e in
      let test : Project → Bool = is_project ctx.project.id ctx.tenant.tenant_id in
      (
        subst (IsChanged ctx.project) same_row
            (refl, refl, refl, refl, refl, refl, refl, refl, refl),
        subst (Some (λ q. q ≡ p)) same_table (
            Some-update_where (λ q. q ≡ ctx.project) (λ q. q ≡ p) test (change_project input)
              (λ q g _. ap (change_project input) g ∙ same_row)
              (λ q g missed. cc (sym missed ∙ ap test g ∙ find_test test w.projects ctx.project f))
              w.projects (find-Some (λ q. q ≡ ctx.project) test w.projects ctx.project f refl)),
        subst (λ ps. keep (is_other ctx) ps ≡ others ctx w) same_table
            (keep-update_other (is_other ctx) test (change_project input) (λ q h. not_other ctx q h)
              w.projects (others_tested ctx w.projects)),
      )

  for_update :
      (p : Project) → p.status ≢ ProjectStatus.archived → capability_for p input ≡ project_update
  for_update p ne = elim (Bool-cases (is_archived (some p.status))) [
    | inl e ↦ absurd (ne (archived_only p.status e))
    | inr e ↦ rw e refl
  ]

  for_restore : (p : Project) → is_restore p input ≡ true → capability_for p input ≡ project_archive
  for_restore p e = rw e refl

  -- A project is changed by a user with access to it and the capability to update it, or to archive
  -- it where it is archived: such a project only changes in an update that gives it another status.
  -- One who gives it the status of an archived project has the capability to archive it too. The
  -- columns that the input names change, and no other; the project is stored like that, and the other
  -- projects stay as they are.
  pub update_project-Updates :
      (id : ℕ) (w after : World) (p : Project)
      → update_project id (some input) w ≡ (ok p, after)
      → (ctx : ProjectContext) × IsUpdate w after id p ctx
  update_project-Updates id w after p e =
      let (ctx, opens, h, own, capable, archives, restored, body) = passed input id w after p e in
      let (columns, row, rest) = left w after ctx (is_restore ctx.project input) p h.1 body in
      let may : (capability : Capability)
          → has_capability ctx.capabilities capability ≡ true
          → IsAllowed w id capability ctx =
        λ capability t.
          subst (λ i. IsAllowed w i capability ctx) own (allowed w capability ctx h t) in
      (
        ctx,
        (
          opens,
          λ ne. may project_update (
              subst (λ k. has_capability ctx.capabilities k ≡ true) (for_update ctx.project ne)
                capable),
          λ a.
              let t = restored (ap (λ s. is_archived (some s)) a) in
              (
                may project_archive (
                    subst (λ k. has_capability ctx.capabilities k ≡ true)
                      (for_restore ctx.project t) capable),
                opened (is_archived (some ctx.project.status)) input.status t,
              ),
          λ a. may project_archive (archives (ap is_archived a)),
          columns,
          row,
          rest,
        ),
      )
