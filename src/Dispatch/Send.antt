-- ===== src/Dispatch/Send.antt =====
-- `sendApprovedNoticeEmail` and `recordManualDispatch`.
use claim_it_all.Prelude.{
  ℕ, ◌+◌, Bool, true, false, not, Option, none, some, List, [], ◌∷◌, ◌++◌, map, any, length,
}
use claim_it_all.Prelude.Text.{Text, codes, text_eq, starts_with}
use claim_it_all.Authz.Capabilities.{notice_dispatch_send, notice_dispatch_record_manual}
use claim_it_all.Delivery.Types.{AuthorizationStatus, AttemptStatus}
use claim_it_all.Delivery.Status.{aggregate_recipient_status}
use claim_it_all.Delivery.Retry.{classify_retry}
use claim_it_all.Delivery.Receipt.{Undispatchable, assert_authorization_dispatchable}
use claim_it_all.Dispatch.Types.{
  ManualDispatch, PackageStatus, Authorization, Attempt, Recipient, AuditAction,
}
use claim_it_all.Service.Result.{
  unique_violation, validation_error, Result, ok, guard, or_throw, ◌>>=◌, ◌>>◌,
}
use claim_it_all.Dispatch.Store.{
  Db, write_audit_log, as_capable, load_package, assert_project_mutable, find_authorization,
  set_package_status, update_authorization, update_attempt,
}
use claim_it_all.Service.Context.{ProjectContext}
use claim_it_all.Dispatch.Snapshot.{Surroundings}
use claim_it_all.Dispatch.Provider.{
  PrepareMessageInput, ProviderSendResult, Provider, retry_input, outcome_code,
  map_attempt_to_package_status,
}
use claim_it_all.Dispatch.Rows.{recipients_of, new_attempt, sent_rows, manual_rows}

-- `try { assertAuthorizationDispatchable(...) } catch (thrown) { wrapDispatchError(thrown) }`
abbrev pub is_dispatchable : Option Undispatchable → Bool
is_dispatchable none = true
is_dispatchable (some _) = false

abbrev pub can_dispatch : Surroundings → Authorization → Bool
can_dispatch env auth =
    is_dispatchable (assert_authorization_dispatchable auth.status auth.expires_at env.now)

abbrev pub is_new_key : Text → Db → Bool
is_new_key key db = not (any (λ (a : Attempt). text_eq a.idempotency_key key) db.attempts)

abbrev pub add_attempt : Attempt → Db → Db
add_attempt attempt db = record db {
  next_id = db.next_id + 1;
  attempts = db.attempts ++ attempt ∷ [];
}

abbrev pub use_authorization : ℕ → Db → Db
use_authorization id = update_authorization id (λ a. record a { status = AuthorizationStatus.used })

abbrev pub add_recipients : List Recipient → Db → Db
add_recipients rows db = record db {
  next_id = db.next_id + length rows;
  recipients = db.recipients ++ rows;
}

abbrev pub complete_attempt : Surroundings → ProviderSendResult → AttemptStatus → Attempt → Attempt
complete_attempt env result status attempt = record attempt {
  status = status;
  provider_message_id = result.provider_message_id;
  provider_submission_id = result.provider_submission_id;
  started_at = some env.now;
  completed_at = some env.now;
  retry_class = some (classify_retry (retry_input result));
  failure_code = outcome_code result.outcome;
}

abbrev pub message_for : Authorization → Text → PrepareMessageInput
message_for auth key = record {
  snapshot_id = auth.dispatch_package_snapshot.id;
  recipients = recipients_of auth;
  cover = auth.dispatch_package_snapshot.cover_message_snapshot;
  artifact_checksum = auth.dispatch_package_snapshot.bundle_checksum;
  attachment_snapshots = auth.dispatch_package_snapshot.attachment_snapshot;
  idempotency_key = key;
}

abbrev pub sent_attempt :
    Surroundings → ProjectContext → Authorization → Attempt → ProviderSendResult → Db → Attempt
sent_attempt env ctx auth attempt result db =
    let rows = sent_rows ctx auth attempt.id result result.recipients (db.next_id + 1) in
    complete_attempt env result
      (aggregate_recipient_status (map (λ (r : Recipient). r.status) rows)) attempt

-- What the sending writes, from the new attempt to the log. The package is `DISPATCH_IN_PROGRESS`
-- between the two updates.
abbrev pub after_send :
    Surroundings → ProjectContext → Authorization → Attempt → ProviderSendResult → Db → Db
after_send env ctx auth attempt result db =
    let rows = sent_rows ctx auth attempt.id result result.recipients (db.next_id + 1) in
    let status = aggregate_recipient_status (map (λ (r : Recipient). r.status) rows) in
    write_audit_log ctx AuditAction.send attempt.id (
      set_package_status auth.notice_package_id (map_attempt_to_package_status status) (
        update_attempt attempt.id (complete_attempt env result status) (
          add_recipients rows (
            set_package_status auth.notice_package_id PackageStatus.dispatch_in_progress
              (use_authorization auth.id (add_attempt attempt db))))))

unfoldable pub send_in :
    Surroundings → Option Provider → ProjectContext → ℕ → ℕ → Db → Result (Attempt × Db)
unfolding sent_rows
send_in env provider ctx notice_package_id authorization_id db = do
  pkg ← load_package ctx notice_package_id db
  assert_project_mutable pkg.project_status
  auth ← find_authorization ctx notice_package_id authorization_id db
  guard (can_dispatch env auth) validation_error
  guard (text_eq auth.selected_channel (codes "CONTROLLED_EMAIL")) validation_error
  p ← or_throw provider validation_error
  guard p.is_configured validation_error
  let attempt = new_attempt env ctx auth p.kind AttemptStatus.prepared none db
  guard (is_new_key attempt.idempotency_key db) unique_violation
  let result = p.send_message (message_for auth attempt.idempotency_key)
  ok (sent_attempt env ctx auth attempt result db, after_send env ctx auth attempt result db)

abbrev pub send_approved_notice_email :
    Surroundings → Option Provider → ProjectContext → ℕ → ℕ → Db → Result Attempt × Db
send_approved_notice_email env provider ctx notice_package_id authorization_id =
    as_capable ctx notice_dispatch_send
      (send_in env provider ctx notice_package_id authorization_id)

abbrev pub await_evidence : Attempt → Attempt
await_evidence attempt = record attempt { status = AttemptStatus.awaiting_evidence }

abbrev pub add_manual_record : ProjectContext → Attempt → ManualDispatch → Db → Db
add_manual_record ctx attempt input db = record db {
  next_id = db.next_id + 1;
  manual_records =
      db.manual_records
      ++ (record {
        id = db.next_id;
        dispatch_attempt_id = attempt.id;
        dispatched_by_user_id = ctx.user_id;
        details = input;
      })
        ∷ [];
}

abbrev pub after_manual : ProjectContext → Authorization → Attempt → ManualDispatch → Db → Db
after_manual ctx auth attempt input db =
    let rows = manual_rows ctx attempt.id input.method (recipients_of auth) (db.next_id + 1) in
    write_audit_log ctx AuditAction.record_manual attempt.id (
      set_package_status auth.notice_package_id PackageStatus.dispatched (
        update_attempt attempt.id await_evidence (
          use_authorization auth.id
            (add_manual_record ctx attempt input (add_recipients rows (add_attempt attempt db))))))

unfoldable pub record_manual_in :
    Surroundings → ProjectContext → ℕ → ℕ → Option ManualDispatch → Db → Result (Attempt × Db)
unfolding manual_rows
record_manual_in env ctx notice_package_id authorization_id input db = do
  parsed ← or_throw input validation_error
  pkg ← load_package ctx notice_package_id db
  assert_project_mutable pkg.project_status
  auth ← find_authorization ctx notice_package_id authorization_id db
  guard (can_dispatch env auth) validation_error
  guard (starts_with (codes "MANUAL_") auth.selected_channel) validation_error
  let attempt =
      new_attempt env ctx auth (codes "manual") AttemptStatus.manual_dispatch_recorded
        (some env.now) db
  guard (is_new_key attempt.idempotency_key db) unique_violation
  ok (await_evidence attempt, after_manual ctx auth attempt parsed db)

abbrev pub record_manual_dispatch :
    Surroundings → ProjectContext → ℕ → ℕ → Option ManualDispatch → Db → Result Attempt × Db
record_manual_dispatch env ctx notice_package_id authorization_id input =
    as_capable ctx notice_dispatch_record_manual
      (record_manual_in env ctx notice_package_id authorization_id input)
