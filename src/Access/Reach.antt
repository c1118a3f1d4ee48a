-- ===== src/Access/Reach.antt =====
-- The requests as steps, what one keeps from the user, and what every sequence of them keeps.
use claim_it_all.Prelude.{
  ℕ, ◌+◌, Option, none, List, [], ◌∷◌, ◌++◌, map, refl, inl, inr, Some, All-mono, arith,
}
use claim_it_all.Authz.Roles.{TenantRole, ProjectRole}
use claim_it_all.Authz.Capabilities.{project_read, project_members_read, project_members_manage}
use claim_it_all.Service.Result.{validation_error}
use claim_it_all.Service.Rows.{Some-append}
use claim_it_all.Access.Types.{
  MembershipStatus, SessionUser, Tenant, TenantMembership, ProjectMembership, World,
}
use claim_it_all.Access.Tenants.{select_active_tenant}
use claim_it_all.Access.Projects.{
  list_projects_for_active_tenant, CreateProject, create_project, get_project, UpdateProject,
  update_project,
}
use claim_it_all.Access.Members.{list_project_members, add_project_member}
use claim_it_all.Access.Refusals.{tenant_left}
use claim_it_all.Access.Governed.{
  Belongs, IsGoverned, Isolates, Fair, unchanged, cleared-Fair, logged,
}
use claim_it_all.Access.Fairness.{
  create-Fair, project-Fair, update-Fair, assigned-Fair, select-Fair, input_left,
}

-- What other services do: they change the organizations, and the roles and states of their members,
-- and add members.
pub record Elsewhere : Type 0 where
  pub used_ids : ℕ
  pub tenants : List Tenant
  pub new_role : TenantMembership → TenantRole
  pub new_status : TenantMembership → MembershipStatus
  pub new_members : List TenantMembership

abbrev pub change_membership : Elsewhere → TenantMembership → TenantMembership
change_membership elsewhere m = record m {
  role = elsewhere.new_role m;
  status = elsewhere.new_status m;
}

abbrev pub after_others : Elsewhere → World → World
after_others elsewhere w = record w {
  next_id = w.next_id + elsewhere.used_ids;
  tenants = elsewhere.tenants;
  memberships = map (change_membership elsewhere) w.memberships ++ elsewhere.new_members;
}

-- The next request comes with another session, and another cookie.
abbrev pub as_user : Option SessionUser → Option ℕ → World → World
as_user session active_tenant w = record w { session = session; active_tenant = active_tenant }

-- A request, with any input, takes the tables to others.
pub data Request : World → World → Type 0 where
  select : {w : World} (parsed : Option ℕ) → Request w (select_active_tenant parsed w).1
  list_projects : {w : World} → Request w (list_projects_for_active_tenant w).1
  create : {w : World} (parsed : Option CreateProject) → Request w (create_project parsed w).1
  read : {w : World} (project_id : ℕ) → Request w (get_project project_id w).1
  update :
      {w : World} (project_id : ℕ) (parsed : Option UpdateProject)
      → Request w (update_project project_id parsed w).1
  list_members : {w : World} (project_id : ℕ) → Request w (list_project_members project_id w).1
  add_member :
      {w : World} (project_id : ℕ) (parsed : Option (ℕ × ProjectRole))
      → Request w (add_project_member project_id parsed w).1

-- Requests, by anybody, and what the other services do between them.
pub data Steps : World → World → Type 0 where
  done : {w : World} → Steps w w
  request : {a b c : World} → Request a b → Steps b c → Steps a c
  sign_in :
      {a c : World} (session : Option SessionUser) (active_tenant : Option ℕ)
      → Steps (as_user session active_tenant a) c
      → Steps a c
  others : {a c : World} (elsewhere : Elsewhere) → Steps (after_others elsewhere a) c → Steps a c

Request-Fair : (w after : World) → Request w after → Fair w after
unfolding list_projects_for_active_tenant get_project list_project_members add_project_member
Request-Fair w _ (select parsed) = select-Fair w parsed
Request-Fair w _ list_projects =
    tenant_left (λ o. Fair w o.1) w (λ _. unchanged w) (λ _. cleared-Fair w) project_read none _
      (λ ctx m. logged w w ctx _ m refl (unchanged w)) (λ ctx m _. unchanged w)
Request-Fair w _ (create parsed) = create-Fair w parsed
Request-Fair w _ (read id) = project-Fair w id project_read _ (λ ctx _. unchanged w)
Request-Fair w _ (update id parsed) = update-Fair w id parsed
Request-Fair w _ (list_members id) = project-Fair w id project_members_read _ (λ ctx _. unchanged w)
Request-Fair w _ (add_member id parsed) =
    project-Fair w id project_members_manage _ (λ ctx (m, _, _, _, _).
      input_left (λ o. Fair w o.1) w parsed validation_error _ (unchanged w)
        (λ input. assigned-Fair w ctx input.0 input.1 m))

still_member :
    (elsewhere : Elsewhere) (x : ProjectMembership) (ts : List TenantMembership)
    → Some (Belongs x) ts
    → Some (Belongs x) (map (change_membership elsewhere) ts)
still_member elsewhere x [] h = absurd h
still_member elsewhere x (t ∷ ts) (inl h) = inl h
still_member elsewhere x (t ∷ ts) (inr h) = inr (still_member elsewhere x ts h)

others-IsGoverned :
    (elsewhere : Elsewhere) (w : World) → IsGoverned w → IsGoverned (after_others elsewhere w)
others-IsGoverned elsewhere w (owner, ps, xs) = (
  owner,
  All-mono _ _ (λ p (l, e). (omega (arith, l), e)) w.projects ps,
  All-mono _ _
      (λ x (l, e, s). (
        omega (arith, l),
        e,
        Some-append (Belongs x) (map (change_membership elsewhere) w.memberships)
            elsewhere.new_members (still_member elsewhere x w.memberships s),
      ))
      w.project_memberships xs,
)

-- In governed tables, a request changes nothing of an organization in which the user of its session
-- has no active membership: not its projects, not their members and not its log.
pub Request-Isolates : {w after : World} → IsGoverned w → Request w after → Isolates w after
Request-Isolates {w} {after} h r = (Request-Fair w after r h).1

-- If every project has one organization, which all of its memberships have too, and every member of
-- a project has a membership of that organization, this is so after any sequence of requests, by
-- anybody, with what other services do between them.
pub Steps-IsGoverned : {w after : World} → IsGoverned w → Steps w after → IsGoverned after
Steps-IsGoverned h done = h
Steps-IsGoverned {w} h (request {b} r more) = Steps-IsGoverned ((Request-Fair w b r h).0) more
Steps-IsGoverned h (sign_in session active_tenant more) = Steps-IsGoverned h more
Steps-IsGoverned {w} h (others elsewhere more) =
    Steps-IsGoverned (others-IsGoverned elsewhere w h) more
