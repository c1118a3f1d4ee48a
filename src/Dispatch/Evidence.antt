-- ===== src/Dispatch/Evidence.antt =====
-- `uploadDispatchEvidence`, `verifyDispatchEvidence`, `recordAcknowledgment` and
-- `verifyAcknowledgment`.
use claim_it_all.Prelude.{
  ℕ, ◌+◌, Bool, ◌&&◌, Option, none, some, List, [], ◌∷◌, ◌++◌, any, find, update_where, ◌==◌,
}
use claim_it_all.Authz.Capabilities.{
  dispatch_evidence_upload, dispatch_evidence_verify, notice_acknowledgment_record,
  notice_acknowledgment_verify,
}
use claim_it_all.Delivery.Types.{RecipientStatus}
use claim_it_all.Dispatch.Types.{
  Attempt, Recipient, VerificationStatus, UploadEvidence, Evidence, RecordAcknowledgment,
  AcknowledgmentStatus, Acknowledgment, AuditAction,
}
use claim_it_all.Service.Result.{not_found, validation_error, Result, ok, or_throw, ◌>>=◌}
use claim_it_all.Dispatch.Store.{Db, write_audit_log, as_capable}
use claim_it_all.Service.Context.{ProjectContext, in_scope}

-- `tx.noticeDispatchAttempt.findFirst`
abbrev pub is_attempt : ProjectContext → ℕ → ℕ → Attempt → Bool
is_attempt ctx notice_package_id attempt_id t =
    t.id == attempt_id
    && t.notice_package_id == notice_package_id
    && in_scope ctx t.tenant_id t.project_id

unfoldable pub find_attempt : ProjectContext → ℕ → ℕ → Db → Result Attempt
find_attempt ctx notice_package_id attempt_id db =
    or_throw (find (is_attempt ctx notice_package_id attempt_id) db.attempts) not_found

abbrev pub new_evidence : ProjectContext → UploadEvidence → ℕ → Evidence
new_evidence ctx input id = record {
  id = id;
  tenant_id = ctx.tenant_id;
  project_id = ctx.project_id;
  details = input;
  recorded_by_user_id = ctx.user_id;
  verification_status = VerificationStatus.unverified;
  verified_by_user_id = none;
}

unfoldable pub upload_in : ProjectContext → ℕ → Option UploadEvidence → Db → Result (Evidence × Db)
upload_in ctx notice_package_id input db = do
  parsed ← or_throw input validation_error
  attempt ← find_attempt ctx notice_package_id parsed.attempt_id db
  let evidence = new_evidence ctx parsed db.next_id
  ok (
    evidence,
    write_audit_log ctx AuditAction.evidence_upload evidence.id
        (record db { next_id = db.next_id + 1; evidence = db.evidence ++ evidence ∷ [] }),
  )

abbrev pub upload_dispatch_evidence :
    ProjectContext → ℕ → Option UploadEvidence → Db → Result Evidence × Db
upload_dispatch_evidence ctx notice_package_id input =
    as_capable ctx dispatch_evidence_upload (upload_in ctx notice_package_id input)

-- `dispatchAttempt: { noticePackageId }` reads the attempt of the evidence.
abbrev pub is_evidence : ProjectContext → ℕ → ℕ → Db → Evidence → Bool
is_evidence ctx notice_package_id evidence_id db e =
    e.id == evidence_id
    && in_scope ctx e.tenant_id e.project_id
    && any
        (λ (t : Attempt). t.id == e.details.attempt_id && t.notice_package_id == notice_package_id)
        db.attempts

abbrev verify_row : ProjectContext → VerificationStatus → Evidence → Evidence
verify_row ctx status e = record e {
  verification_status = status;
  verified_by_user_id = some ctx.user_id;
}

-- The input is the evidence's identifier and its new status.
unfoldable pub verify_in :
    ProjectContext → ℕ → Option (ℕ × VerificationStatus) → Db → Result (Evidence × Db)
verify_in ctx notice_package_id input db = do
  parsed ← or_throw input validation_error
  evidence ← or_throw (find (is_evidence ctx notice_package_id parsed.0 db) db.evidence) not_found
  ok (
    verify_row ctx parsed.1 evidence,
    write_audit_log ctx AuditAction.evidence_verify evidence.id (record db {
      evidence =
          update_where (λ (e : Evidence). e.id == evidence.id) (verify_row ctx parsed.1)
            db.evidence;
    }),
  )

abbrev pub verify_dispatch_evidence :
    ProjectContext → ℕ → Option (ℕ × VerificationStatus) → Db → Result Evidence × Db
verify_dispatch_evidence ctx notice_package_id input =
    as_capable ctx dispatch_evidence_verify (verify_in ctx notice_package_id input)

abbrev acknowledge_row : ℕ → Recipient → Recipient
acknowledge_row at r = record r { status = RecipientStatus.acknowledged; acknowledged_at = some at }

-- `if (recipientId) tx.noticeDispatchRecipient.update({ where: { id: recipientId } })`: a recipient of
-- any attempt of the tenant, whose rows are the ones in reach. An update of a missing row throws.
abbrev pub acknowledge : ℕ → Option ℕ → ℕ → List Recipient → Result (List Recipient)
acknowledge tenant_id none at rows = ok rows
acknowledge tenant_id (some id) at rows = do
  found ← or_throw (find (λ (r : Recipient). r.id == id && r.tenant_id == tenant_id) rows) not_found
  ok (update_where (λ (r : Recipient). r.id == found.id) (acknowledge_row at) rows)

abbrev new_acknowledgment : ProjectContext → ℕ → RecordAcknowledgment → ℕ → Acknowledgment
new_acknowledgment ctx notice_package_id input id = record {
  id = id;
  tenant_id = ctx.tenant_id;
  project_id = ctx.project_id;
  notice_package_id = notice_package_id;
  details = input;
  recorded_by_user_id = ctx.user_id;
  status = AcknowledgmentStatus.recorded;
  verified_by_user_id = none;
}

unfoldable pub acknowledge_in :
    ProjectContext → ℕ → Option RecordAcknowledgment → Db → Result (Acknowledgment × Db)
acknowledge_in ctx notice_package_id input db = do
  parsed ← or_throw input validation_error
  attempt ← find_attempt ctx notice_package_id parsed.attempt_id db
  rows ← acknowledge ctx.tenant_id parsed.recipient_id parsed.acknowledged_at db.recipients
  let ack = new_acknowledgment ctx notice_package_id parsed db.next_id
  ok (
    ack,
    write_audit_log ctx AuditAction.acknowledgment_record ack.id (record db {
      next_id = db.next_id + 1;
      acknowledgments = db.acknowledgments ++ ack ∷ [];
      recipients = rows;
    }),
  )

abbrev pub record_acknowledgment :
    ProjectContext → ℕ → Option RecordAcknowledgment → Db → Result Acknowledgment × Db
record_acknowledgment ctx notice_package_id input =
    as_capable ctx notice_acknowledgment_record (acknowledge_in ctx notice_package_id input)

abbrev confirm_row : ProjectContext → Acknowledgment → Acknowledgment
confirm_row ctx a = record a {
  status = AcknowledgmentStatus.verified;
  verified_by_user_id = some ctx.user_id;
}

unfoldable pub verify_acknowledgment_in :
    ProjectContext → ℕ → Option ℕ → Db → Result (Acknowledgment × Db)
verify_acknowledgment_in ctx notice_package_id input db = do
  acknowledgment_id ← or_throw input validation_error
  ack ←
      or_throw
        (find
          (λ (a : Acknowledgment).
            a.id == acknowledgment_id
            && a.notice_package_id == notice_package_id
            && in_scope ctx a.tenant_id a.project_id)
          db.acknowledgments)
        not_found
  ok (
    confirm_row ctx ack,
    write_audit_log ctx AuditAction.acknowledgment_verify ack.id (record db {
      acknowledgments =
          update_where (λ (a : Acknowledgment). a.id == ack.id) (confirm_row ctx)
            db.acknowledgments;
    }),
  )

abbrev pub verify_acknowledgment : ProjectContext → ℕ → Option ℕ → Db → Result Acknowledgment × Db
verify_acknowledgment ctx notice_package_id input =
    as_capable ctx notice_acknowledgment_verify
      (verify_acknowledgment_in ctx notice_package_id input)
