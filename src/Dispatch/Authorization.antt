-- ===== src/Dispatch/Authorization.antt =====
-- `requestDispatchAuthorization`, `authorizeDispatch`, `rejectDispatchAuthorization` and
-- `revokeDispatchAuthorization`. An input is none where its schema refuses it.
use claim_it_all.Prelude.{
  ℕ, ◌+◌, Bool, true, false, not, ◌&&◌, ◌||◌, Option, none, some, [], ◌∷◌, ◌++◌, keep, find, length,
  ◌==◌,
}
use claim_it_all.Prelude.Text.{Text}
use claim_it_all.Authz.Capabilities.{
  notice_dispatch_request_authorization, notice_dispatch_authorize, notice_dispatch_revoke,
}
use claim_it_all.Delivery.Types.{AuthorizationStatus, RecipientSnapshot}
use claim_it_all.Dispatch.Types.{PackageStatus, Package, Snapshot, Authorization, AuditAction}
use claim_it_all.Service.Result.{
  not_found, forbidden, conflict, validation_error, Result, ok, guard, or_throw, ◌>>=◌, ◌>>◌,
}
use claim_it_all.Dispatch.Store.{
  Db, write_audit_log, as_capable, load_package, assert_project_mutable, find_authorization,
  set_package_status, update_authorization,
}
use claim_it_all.Service.Context.{ProjectContext, in_scope}
use claim_it_all.Dispatch.Snapshot.{Surroundings, coalesce}

unfoldable pub find_snapshot : ProjectContext → ℕ → ℕ → Db → Result Snapshot
find_snapshot ctx notice_package_id snapshot_id db =
    or_throw
      (find
        (λ (s : Snapshot).
          s.id == snapshot_id
          && s.notice_package_id == notice_package_id
          && in_scope ctx s.tenant_id s.project_id)
        db.snapshots)
      not_found

abbrev pub new_authorization : ProjectContext → ℕ → Snapshot → Option Text → ℕ → Authorization
new_authorization ctx notice_package_id snapshot rationale id =
    let recipients = snapshot.recipient_snapshot ++ snapshot.copied_recipient_snapshot in
    record {
      id = id;
      tenant_id = ctx.tenant_id;
      project_id = ctx.project_id;
      notice_package_id = notice_package_id;
      dispatch_package_snapshot = snapshot;
      requested_by_user_id = ctx.user_id;
      authorized_by_user_id = none;
      authorized_at = none;
      reviewed_by_user_id = none;
      reviewed_at = none;
      status = AuthorizationStatus.requested;
      selected_channel = snapshot.channel;
      recipient_count =
          length (keep (λ (r : RecipientSnapshot). not r.copied_recipient) recipients);
      copied_recipient_count =
          length (keep (λ (r : RecipientSnapshot). r.copied_recipient) recipients);
      rationale = rationale;
      recipients_reviewed = false;
      method_reviewed = false;
      attachments_reviewed = false;
      deadline_reviewed = false;
      scope_reviewed = false;
      delivery_risk_acknowledged = false;
      expires_at = none;
    }

abbrev pub with_authorization : ProjectContext → Authorization → Db → Db
with_authorization ctx auth db =
    write_audit_log ctx AuditAction.request_authorization auth.id
      (record db { next_id = db.next_id + 1; authorizations = db.authorizations ++ auth ∷ [] })

-- The input's rationale, which may be missing.
unfoldable pub request_in :
    ProjectContext → ℕ → ℕ → Option (Option Text) → Db → Result (Authorization × Db)
request_in ctx notice_package_id snapshot_id input db = do
  rationale ← or_throw input validation_error
  pkg ← load_package ctx notice_package_id db
  assert_project_mutable pkg.project_status
  snapshot ← find_snapshot ctx notice_package_id snapshot_id db
  let auth = new_authorization ctx notice_package_id snapshot rationale db.next_id
  ok (auth, with_authorization ctx auth db)

abbrev pub request_dispatch_authorization :
    ProjectContext → ℕ → ℕ → Option (Option Text) → Db → Result Authorization × Db
request_dispatch_authorization ctx notice_package_id snapshot_id input =
    as_capable ctx notice_dispatch_request_authorization
      (request_in ctx notice_package_id snapshot_id input)

pub record AuthorizeInput : Type 0 where
  pub recipients_reviewed : Bool
  pub method_reviewed : Bool
  pub attachments_reviewed : Bool
  pub deadline_reviewed : Bool
  pub scope_reviewed : Bool
  pub delivery_risk_acknowledged : Bool
  pub rationale : Option Text
  pub expires_at : Option ℕ

abbrev pub is_open : AuthorizationStatus → Bool
is_open AuthorizationStatus.requested = true
is_open AuthorizationStatus.under_review = true
is_open _ = false

abbrev pub is_authorized : AuthorizationStatus → Bool
is_authorized AuthorizationStatus.authorized = true
is_authorized _ = false

abbrev pub all_reviewed : AuthorizeInput → Bool
all_reviewed checks =
    checks.recipients_reviewed && checks.method_reviewed && checks.attachments_reviewed
    && checks.deadline_reviewed && checks.scope_reviewed && checks.delivery_risk_acknowledged

-- `dispatchSodEnabled() && pkg.sodEnforced`, and one of the two tests after it.
abbrev pub is_segregated : Surroundings → Package → ℕ → ℕ → Bool
is_segregated env pkg other user = not (env.sod_enabled && pkg.sod_enforced) || not (other == user)

abbrev pub authorize_row :
    Surroundings → ProjectContext → AuthorizeInput → Authorization → Authorization
authorize_row env ctx checks auth = record auth {
  status = AuthorizationStatus.authorized;
  authorized_by_user_id = some ctx.user_id;
  authorized_at = some env.now;
  reviewed_by_user_id = some ctx.user_id;
  reviewed_at = some env.now;
  recipients_reviewed = true;
  method_reviewed = true;
  attachments_reviewed = true;
  deadline_reviewed = true;
  scope_reviewed = true;
  delivery_risk_acknowledged = true;
  rationale = coalesce checks.rationale auth.rationale;
  expires_at = coalesce checks.expires_at auth.expires_at;
}

-- What the three decisions write: the row, the package's status and the log.
abbrev pub decide :
    ProjectContext
    → ℕ
    → Authorization
    → (Authorization → Authorization)
    → PackageStatus
    → AuditAction
    → Db
    → Db
decide ctx notice_package_id auth change status action db =
    write_audit_log ctx action auth.id
      (set_package_status notice_package_id status (update_authorization auth.id change db))

unfoldable pub authorize_in :
    Surroundings → ProjectContext → ℕ → ℕ → Option AuthorizeInput → Db → Result (Authorization × Db)
authorize_in env ctx notice_package_id authorization_id input db = do
  checks ← or_throw input validation_error
  pkg ← load_package ctx notice_package_id db
  assert_project_mutable pkg.project_status
  auth ← find_authorization ctx notice_package_id authorization_id db
  guard (is_open auth.status) conflict
  guard (is_segregated env pkg auth.requested_by_user_id ctx.user_id) forbidden
  guard (is_segregated env pkg auth.dispatch_package_snapshot.created_by_user_id ctx.user_id)
      forbidden
  guard (all_reviewed checks) validation_error
  ok (
    authorize_row env ctx checks auth,
    decide ctx notice_package_id auth (authorize_row env ctx checks)
        PackageStatus.authorized_for_dispatch AuditAction.authorize db,
  )

abbrev pub authorize_dispatch :
    Surroundings → ProjectContext → ℕ → ℕ → Option AuthorizeInput → Db → Result Authorization × Db
authorize_dispatch env ctx notice_package_id authorization_id input =
    as_capable ctx notice_dispatch_authorize
      (authorize_in env ctx notice_package_id authorization_id input)

abbrev pub reject_row : Surroundings → ProjectContext → Text → Authorization → Authorization
reject_row env ctx rationale auth = record auth {
  status = AuthorizationStatus.rejected;
  reviewed_by_user_id = some ctx.user_id;
  reviewed_at = some env.now;
  rationale = some rationale;
}

unfoldable pub reject_in :
    Surroundings → ProjectContext → ℕ → ℕ → Option Text → Db → Result (Authorization × Db)
reject_in env ctx notice_package_id authorization_id input db = do
  rationale ← or_throw input validation_error
  auth ← find_authorization ctx notice_package_id authorization_id db
  guard (is_open auth.status) conflict
  ok (
    reject_row env ctx rationale auth,
    decide ctx notice_package_id auth (reject_row env ctx rationale)
        PackageStatus.authorization_pending AuditAction.reject db,
  )

abbrev pub reject_dispatch_authorization :
    Surroundings → ProjectContext → ℕ → ℕ → Option Text → Db → Result Authorization × Db
reject_dispatch_authorization env ctx notice_package_id authorization_id input =
    as_capable ctx notice_dispatch_authorize
      (reject_in env ctx notice_package_id authorization_id input)

abbrev pub revoke_row : Text → Authorization → Authorization
revoke_row rationale auth = record auth {
  status = AuthorizationStatus.revoked;
  rationale = some rationale;
}

unfoldable pub revoke_in : ProjectContext → ℕ → ℕ → Option Text → Db → Result (Authorization × Db)
revoke_in ctx notice_package_id authorization_id input db = do
  rationale ← or_throw input validation_error
  auth ← find_authorization ctx notice_package_id authorization_id db
  guard (is_authorized auth.status) conflict
  ok (
    revoke_row rationale auth,
    decide ctx notice_package_id auth (revoke_row rationale) PackageStatus.authorization_pending
        AuditAction.revoke db,
  )

abbrev pub revoke_dispatch_authorization :
    ProjectContext → ℕ → ℕ → Option Text → Db → Result Authorization × Db
revoke_dispatch_authorization ctx notice_package_id authorization_id input =
    as_capable ctx notice_dispatch_revoke (revoke_in ctx notice_package_id authorization_id input)
