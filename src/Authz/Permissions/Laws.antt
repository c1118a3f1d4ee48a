-- ===== src/Authz/Permissions/Laws.antt =====
-- Which capabilities a request has.
use claim_it_all.Prelude.{
  Bool, true, false, not, ◌&&◌, ◌||◌, Option, none, some, List, [], ◌∷◌, ◌++◌, ◌≡◌, ◌∙◌, ◌⊎◌, refl,
  sym, ap, arith, all, keep, if◌then◌else◌, Bool-cases, inl, inr, all_iff_includes,
}
use claim_it_all.Authz.Roles.{TenantRole, ProjectRole, ProjectStatus}
use claim_it_all.Authz.Capabilities.{
  Capability, is_same, is_same_iff, project_archive, document_archive,
}
use claim_it_all.Authz.Grants.{
  tenant_role_capabilities, project_role_capabilities, mutating_project_capabilities,
}
use claim_it_all.Authz.Permissions.{
  has, add, delete, add_all, capabilities_for_tenant_role, capabilities_for_project_role,
  merge_capabilities, is_archived, is_withdrawn, withdraw, capabilities_for_role,
  resolve_capabilities,
}

has-append : (xs ys : List Capability) (a : Capability) → has (xs ++ ys) a ≡ (has xs a || has ys a)
has-append [] ys a = refl
has-append (x ∷ xs) ys a = ground (arith, has-append xs ys a)

is_same_sym : (a b : Capability) → is_same a b ≡ is_same b a
unfolding is_same
is_same_sym a b = ground arith

has_same : (set : List Capability) (c a : Capability) → is_same c a ≡ true → has set c ≡ has set a
has_same set c a e = ap (has set) ((is_same_iff c a).0 e)

has-add :
    (set : List Capability) (c a : Capability) → has (add set c) a ≡ (has set a || is_same c a)
has-add set c a = elim (Bool-cases (has set c)) [
  | inr e ↦ rw e (has-append set (c ∷ []) a ∙ ground arith)
  | inl e ↦ elim (Bool-cases (is_same c a)) [
    | inl f ↦ ground (arith, has_same set c a f)
    | inr f ↦ ground arith
  ]
]

has-add_all :
    (set cs : List Capability) (a : Capability) → has (add_all set cs) a ≡ (has set a || has cs a)
unfolding add_all
has-add_all set [] a = ground arith
has-add_all set (c ∷ cs) a = has-add_all (add set c) cs a ∙ ground (arith, has-add set c a)

has-keep :
    (p : Capability → Bool) (set : List Capability) (a : Capability)
    → has (keep p set) a ≡ (has set a && p a)
has-keep p [] a = refl
has-keep p (x ∷ xs) a = elim (Bool-cases (is_same x a)) [
  | inl e ↦ ground (arith, has-keep p xs a, ap p ((is_same_iff x a).0 e))
  | inr e ↦ ground (arith, has-keep p xs a)
]

-- What the loop takes away.
abbrev taken : List Capability → Capability → Bool
taken cs a = has cs a && is_withdrawn a

taken-cons :
    (c a : Capability) (cs : List Capability)
    → taken (c ∷ cs) a ≡ ((is_same c a && is_withdrawn c) || taken cs a)
taken-cons c a cs = elim (Bool-cases (is_same c a)) [
  | inl e ↦ rw (e, ap is_withdrawn ((is_same_iff c a).0 e)) (ground arith)
  | inr e ↦ rw e refl
]

has-delete :
    (set : List Capability) (c a : Capability)
    → has (if is_withdrawn c then delete set c else set) a
      ≡ (has set a && not (is_same c a && is_withdrawn c))
has-delete set c a = elim (Bool-cases (is_withdrawn c)) [
  | inl e ↦ rw e (has-keep (λ d. not (is_same d c)) set a ∙ rw (is_same_sym a c) (ground arith))
  | inr e ↦ rw e (ground arith)
]

and_twice : (b s t : Bool) → ((b && not s) && not t) ≡ (b && not (s || t))
and_twice b s t = ground arith

has-withdraw :
    (set cs : List Capability) (a : Capability)
    → has (withdraw set cs) a ≡ (has set a && not (taken cs a))
unfolding withdraw
has-withdraw set [] a = ground arith
has-withdraw set (c ∷ cs) a =
    has-withdraw (if is_withdrawn c then delete set c else set) cs a
    ∙ ap (λ b. b && not (taken cs a)) (has-delete set c a)
    ∙ and_twice (has set a) (is_same c a && is_withdrawn c) (taken cs a)
    ∙ ap (λ b. has set a && not b) (sym (taken-cons c a cs))

or_false : (b : Bool) → b ≡ (b || false)
or_false b = ground arith

conj_true : (b : Bool) → b ≡ (b && not false)
conj_true b = ground arith

abbrev pub granted_by_project : Option ProjectRole → Capability → Bool
granted_by_project none c = false
granted_by_project (some role) c = has (project_role_capabilities role) c

has-merge :
    (role : TenantRole) (project_role : Option ProjectRole) (a : Capability)
    → has
        (merge_capabilities
          (some (capabilities_for_tenant_role role) ∷ capabilities_for_role project_role ∷ []))
        a
      ≡ (has (tenant_role_capabilities role) a || granted_by_project project_role a)
unfolding merge_capabilities capabilities_for_tenant_role capabilities_for_project_role
    capabilities_for_role
has-merge role none a =
    has-add_all [] (add_all [] (tenant_role_capabilities role)) a
    ∙ has-add_all [] (tenant_role_capabilities role) a
    ∙ or_false (has (tenant_role_capabilities role) a)
has-merge role (some r) a =
    has-add_all (add_all [] (add_all [] (tenant_role_capabilities role)))
      (add_all [] (project_role_capabilities r)) a
    ∙ rw
        (
          has-add_all [] (add_all [] (tenant_role_capabilities role)) a,
          has-add_all [] (tenant_role_capabilities role) a,
          has-add_all [] (project_role_capabilities r) a,
        )
        refl

-- What an archived project withdraws: every mutating capability but the two for archiving.
abbrev pub is_frozen : Option ProjectStatus → Capability → Bool
is_frozen status c = is_archived status && (has mutating_project_capabilities c && is_withdrawn c)

-- A request has exactly the capabilities of its tenant role and those of its role in the project,
-- without the mutating ones of an archived project, of which only the two for archiving are left.
pub resolve_capabilities_lem :
    (tenant_role : TenantRole) (project_role : Option ProjectRole) (status : Option ProjectStatus)
    (c : Capability)
    → has (resolve_capabilities tenant_role project_role status) c ≡ (
        (has (tenant_role_capabilities tenant_role) c || granted_by_project project_role c)
        && not (is_frozen status c))
unfolding resolve_capabilities
resolve_capabilities_lem tenant_role project_role status c =
    elim (Bool-cases (is_archived status)) [
      | inl e ↦ rw e (
          has-withdraw _ mutating_project_capabilities c
          ∙ ap (λ b. b && not (taken mutating_project_capabilities c))
              (has-merge tenant_role project_role c))
      | inr e ↦ rw e (has-merge tenant_role project_role c ∙ conj_true _)
    ]

-- Inclusions of the tables, tested on their elements.
included :
    (p : Capability → Bool) (table : List Capability) (c : Capability)
    → all p table ≡ true
    → has table c ≡ true
    → p c ≡ true
included p table c e h = (all_iff_includes is_same is_same_iff p table).0 e c h

reads_only : Capability → Bool
reads_only c = not (has mutating_project_capabilities c)

-- Tables are read under these tests.
viewer_reads : all reads_only (tenant_role_capabilities TenantRole.viewer) ≡ true
unfolding reads_only is_same tenant_role_capabilities mutating_project_capabilities
viewer_reads = refl

project_viewer_reads : all reads_only (project_role_capabilities ProjectRole.viewer) ≡ true
unfolding reads_only is_same project_role_capabilities mutating_project_capabilities
project_viewer_reads = refl

owner_tops :
    (role : TenantRole)
    → all (has (tenant_role_capabilities TenantRole.tenant_owner)) (tenant_role_capabilities role)
      ≡ true
unfolding is_same tenant_role_capabilities
owner_tops TenantRole.viewer = refl
owner_tops _ = refl

project_admin_tops :
    (role : ProjectRole)
    → all
        (has (project_role_capabilities ProjectRole.project_admin))
        (project_role_capabilities role)
      ≡ true
unfolding is_same project_role_capabilities
project_admin_tops ProjectRole.contributor = refl
project_admin_tops _ = refl

resolved :
    (granted frozen : Bool) → (granted && not frozen) ≡ true → (granted ≡ true) × (frozen ≡ false)
resolved granted frozen e = ground arith

left_only : (b : Bool) → (b || false) ≡ true → b ≡ true
left_only b e = ground arith

either_table :
    (p : Capability → Bool) (t u : List Capability) (c : Capability)
    → all p t ≡ true
    → all p u ≡ true
    → (has t c || has u c) ≡ true
    → p c ≡ true
either_table p t u c e f h = elim (Bool-cases (has t c)) [
  | inl x ↦ included p t c e x
  | inr x ↦ included p u c f (rw x at h)
]

reads_only_lem :
    (c : Capability) → reads_only c ≡ true → has mutating_project_capabilities c ≡ false
unfolding reads_only
reads_only_lem c e = ground arith

-- A viewer of the tenant, with no role in a project or with that of a viewer, has no capability that
-- changes a project.
pub viewer_reads_only :
    (status : Option ProjectStatus) (c : Capability)
    → (has (resolve_capabilities TenantRole.viewer none status) c ≡ true)
      ⊎ (has (resolve_capabilities TenantRole.viewer (some ProjectRole.viewer) status) c ≡ true)
    → has mutating_project_capabilities c ≡ false
viewer_reads_only status c (inl h) =
    let (granted, _) =
      resolved _ _ (sym (resolve_capabilities_lem TenantRole.viewer none status c) ∙ h) in
    reads_only_lem c (
      included reads_only (tenant_role_capabilities TenantRole.viewer) c viewer_reads
        (left_only _ granted))
viewer_reads_only status c (inr h) =
    let (granted, _) =
      resolved _ _
        (sym (resolve_capabilities_lem TenantRole.viewer (some ProjectRole.viewer) status c) ∙ h) in
    reads_only_lem c (
      either_table reads_only (tenant_role_capabilities TenantRole.viewer)
        (project_role_capabilities ProjectRole.viewer) c viewer_reads project_viewer_reads granted)

-- In an archived project every capability that changes a project is gone, but for the two that
-- archive, whatever the roles.
pub archived_is_frozen :
    (tenant_role : TenantRole) (project_role : Option ProjectRole) (c : Capability)
    → has (resolve_capabilities tenant_role project_role (some ProjectStatus.archived)) c ≡ true
    → has mutating_project_capabilities c ≡ true
    → (c ≡ project_archive) ⊎ (c ≡ document_archive)
archived_is_frozen tenant_role project_role c h m =
    let (_, thawed) = resolved _ _ (
      sym (resolve_capabilities_lem tenant_role project_role (some ProjectStatus.archived) c)
      ∙ h) in
    elim (Bool-cases (is_same c project_archive)) [
      | inl e ↦ inl ((is_same_iff c project_archive).0 e)
      | inr e ↦ elim (Bool-cases (is_same c document_archive)) [
        | inl f ↦ inr ((is_same_iff c document_archive).0 f)
        | inr f ↦ cc (rw (m, e, f) at thawed)
      ]
    ]

-- What more is granted, more is left of in a project of the same status.
more_left :
    (tenant_role tenant_top : TenantRole) (project_role project_top : Option ProjectRole)
    (status : Option ProjectStatus) (c : Capability)
    → ((has (tenant_role_capabilities tenant_role) c || granted_by_project project_role c) ≡ true
        → (has (tenant_role_capabilities tenant_top) c || granted_by_project project_top c) ≡ true)
    → has (resolve_capabilities tenant_role project_role status) c ≡ true
    → has (resolve_capabilities tenant_top project_top status) c ≡ true
more_left tenant_role tenant_top project_role project_top status c more h =
    let (granted, thawed) =
      resolved _ _ (sym (resolve_capabilities_lem tenant_role project_role status c) ∙ h) in
    resolve_capabilities_lem tenant_top project_top status c ∙ rw (thawed, more granted) refl

or_mono :
    (a b c d : Bool)
    → (a ≡ true → c ≡ true)
    → (b ≡ true → d ≡ true)
    → (a || b) ≡ true
    → (c || d) ≡ true
or_mono a b c d f g e = ground arith

-- In a project of any status, an owner of the tenant can do whatever any other role of the tenant
-- can, with the same role in the project or none, and an administrator of the project whatever any
-- other role in it can, with the same role of the tenant.
pub resolve_capabilities_top :
    (tenant_role : TenantRole) (status : Option ProjectStatus) (c : Capability)
    → ((project_role : Option ProjectRole)
        → has (resolve_capabilities tenant_role project_role status) c ≡ true
        → has (resolve_capabilities TenantRole.tenant_owner project_role status) c ≡ true)
      × ((project_role : ProjectRole)
          → has (resolve_capabilities tenant_role (some project_role) status) c ≡ true
          → has (resolve_capabilities tenant_role (some ProjectRole.project_admin) status) c ≡ true)
resolve_capabilities_top tenant_role status c = (
  λ project_role. more_left tenant_role TenantRole.tenant_owner project_role project_role status c (
      or_mono (has (tenant_role_capabilities tenant_role) c) (granted_by_project project_role c)
        (has (tenant_role_capabilities TenantRole.tenant_owner) c)
        (granted_by_project project_role c)
        (included _ (tenant_role_capabilities tenant_role) c (owner_tops tenant_role)) (λ e. e)),
  λ project_role.
      more_left tenant_role tenant_role (some project_role) (some ProjectRole.project_admin) status
        c
        (or_mono (has (tenant_role_capabilities tenant_role) c)
          (has (project_role_capabilities project_role) c)
          (has (tenant_role_capabilities tenant_role) c)
          (has (project_role_capabilities ProjectRole.project_admin) c) (λ e. e)
          (included _ (project_role_capabilities project_role) c
            (project_admin_tops project_role))),
)
