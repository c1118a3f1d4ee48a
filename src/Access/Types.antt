-- ===== src/Access/Types.antt =====
-- The rows of organizations, projects and their members (apps/web/prisma/schema.prisma), and what
-- a request works on.
use claim_it_all.Prelude.{ℕ, Bool, true, false, Option, List, ◌++◌, [], ◌∷◌}
use claim_it_all.Prelude.Text.{Text}
use claim_it_all.Authz.Roles.{TenantRole, ProjectRole, ProjectStatus}
use claim_it_all.Authz.Capabilities.{Capability}

pub data TenantStatus : Type 0 where
  provisioning active suspended pilot_ending offboarding archived : TenantStatus

pub data MembershipStatus : Type 0 where
  active invited disabled : MembershipStatus

pub record SessionUser : Type 0 where
  pub id : ℕ
  pub email : Text
  pub name : Text
  pub status : Text

pub record Tenant : Type 0 where
  pub id : ℕ
  pub name : Text
  pub slug : Text
  pub status : TenantStatus

pub record TenantMembership : Type 0 where
  pub tenant_id : ℕ
  pub user_id : ℕ
  pub role : TenantRole
  pub status : MembershipStatus

pub record Project : Type 0 where
  pub id : ℕ
  pub tenant_id : ℕ
  pub name : Text
  pub code : Text
  pub description : Option Text
  pub country_code : Text
  pub default_currency : Text
  pub timezone : Text
  pub status : ProjectStatus

pub record ProjectMembership : Type 0 where
  pub id : ℕ
  pub tenant_id : ℕ
  pub project_id : ℕ
  pub user_id : ℕ
  pub role : ProjectRole
  pub status : MembershipStatus

-- `project.membership.role_changed` is written `member_changed`.
pub data AuditAction : Type 0 where
  authz_denied tenant_selected project_created : AuditAction
  project_updated project_archived project_restored : AuditAction
  member_created member_changed : AuditAction

-- `entityType` and `entityId` of a row of the log.
pub data Entity : Type 0 where
  of_capability : Capability → Entity
  of_tenant of_project : ℕ → Entity
  of_membership : Option ℕ → Entity

pub record AuditRow : Type 0 where
  pub tenant_id : ℕ
  pub project_id : Option ℕ
  pub actor_user_id : ℕ
  pub action : AuditAction
  pub entity : Entity

-- `session` is the user of the session that the request came with, and `active_tenant` the
-- organization in its cookie, once the cookie's signature is verified. `next_id` is the next of the
-- fresh identifiers that the database gives its new rows.
pub record World : Type 0 where
  pub session : Option SessionUser
  pub active_tenant : Option ℕ
  pub next_id : ℕ
  pub tenants : List Tenant
  pub memberships : List TenantMembership
  pub projects : List Project
  pub project_memberships : List ProjectMembership
  pub audit : List AuditRow

pub record TenantContext : Type 0 where
  pub user : SessionUser
  pub tenant_id : ℕ
  pub membership : TenantMembership
  pub tenant_role : TenantRole
  pub capabilities : List Capability

-- The context of the organization, with the capabilities in the project in place of its own.
pub record ProjectContext : Type 0 where
  pub tenant : TenantContext
  pub project : Project
  pub project_role : Option ProjectRole
  pub capabilities : List Capability

abbrev pub is_active : MembershipStatus → Bool
is_active MembershipStatus.active = true
is_active _ = false

-- `status in ['ACTIVE', 'PROVISIONING', 'PILOT_ENDING']`
abbrev pub is_open : TenantStatus → Bool
is_open TenantStatus.active = true
is_open TenantStatus.provisioning = true
is_open TenantStatus.pilot_ending = true
is_open _ = false

abbrev pub write_audit_log : AuditRow → World → World
write_audit_log row w = record w { audit = w.audit ++ row ∷ [] }
