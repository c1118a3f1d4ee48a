-- ===== src/Dispatch/Store.antt =====
-- The tables of the dispatch service, the context of a request and the service's surroundings.
use claim_it_all.Prelude.{
  ℕ, Bool, true, false, not, ◌&&◌, List, [], ◌∷◌, ◌++◌, ◌==◌, find, update_where,
}
use claim_it_all.Authz.Roles.{ProjectStatus}
use claim_it_all.Authz.Capabilities.{Capability}
use claim_it_all.Dispatch.Types.{
  PackageStatus, Package, Snapshot, CoverMessage, Authorization, Attempt, Recipient, ManualRecord,
  ProviderEvent, Evidence, Acknowledgment, ReceiptAssessment, DeemedAssessment, AuditRow,
  AuditAction,
}
use claim_it_all.Service.Context.{ProjectContext, with_capability, in_scope}
use claim_it_all.Service.Result.{not_found, conflict, Result, guard, or_throw}

-- `next_id` is the next of the fresh identifiers that the database gives its new rows.
pub record Db : Type 0 where
  pub next_id : ℕ
  pub packages : List Package
  pub snapshots : List Snapshot
  pub covers : List CoverMessage
  pub authorizations : List Authorization
  pub attempts : List Attempt
  pub recipients : List Recipient
  pub manual_records : List ManualRecord
  pub events : List ProviderEvent
  pub evidence : List Evidence
  pub acknowledgments : List Acknowledgment
  pub assessments : List ReceiptAssessment
  pub deemed : List DeemedAssessment
  pub audit : List AuditRow

abbrev pub write_audit_log : ProjectContext → AuditAction → ℕ → Db → Db
write_audit_log ctx action entity_id db = record db {
  audit =
      db.audit
      ++ (record {
        tenant_id = ctx.tenant_id;
        project_id = ctx.project_id;
        actor_user_id = ctx.user_id;
        action = action;
        entity_id = entity_id;
      })
        ∷ [];
}

unfoldable pub as_capable :
    {A : Type 0} → ProjectContext → Capability → (Db → Result (A × Db)) → Db → Result A × Db
unfolding with_capability
as_capable ctx capability =
    with_capability ctx capability (write_audit_log ctx AuditAction.authz_denied 0)

unfoldable pub load_package : ProjectContext → ℕ → Db → Result Package
load_package ctx notice_package_id db =
    or_throw
      (find (λ (p : Package). p.id == notice_package_id && in_scope ctx p.tenant_id p.project_id)
        db.packages)
      not_found

abbrev pub is_archived : ProjectStatus → Bool
is_archived ProjectStatus.archived = true
is_archived _ = false

unfoldable pub assert_project_mutable : ProjectStatus → Result (Unit {0})
assert_project_mutable status = guard (not (is_archived status)) conflict

-- `tx.noticeDispatchAuthorization.findFirst`
abbrev pub is_authorization : ProjectContext → ℕ → ℕ → Authorization → Bool
is_authorization ctx notice_package_id authorization_id a =
    a.id == authorization_id
    && a.notice_package_id == notice_package_id
    && in_scope ctx a.tenant_id a.project_id

unfoldable pub find_authorization : ProjectContext → ℕ → ℕ → Db → Result Authorization
find_authorization ctx notice_package_id authorization_id db =
    or_throw (find (is_authorization ctx notice_package_id authorization_id) db.authorizations)
      not_found

-- `tx.noticePackage.update({ where: { id }, data: { status } })`
abbrev pub set_package_status : ℕ → PackageStatus → Db → Db
set_package_status id status db = record db {
  packages =
      update_where (λ (p : Package). p.id == id) (λ p. record p { status = status }) db.packages;
}

abbrev pub update_authorization : ℕ → (Authorization → Authorization) → Db → Db
update_authorization id change db = record db {
  authorizations = update_where (λ (a : Authorization). a.id == id) change db.authorizations;
}

abbrev pub update_attempt : ℕ → (Attempt → Attempt) → Db → Db
update_attempt id change db = record db {
  attempts = update_where (λ (a : Attempt). a.id == id) change db.attempts;
}
