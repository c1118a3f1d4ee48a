-- ===== src/Dispatch/Keeps.antt =====
-- Evidence, acknowledgments and receipts leave the authorizations alone.
use claim_it_all.Prelude.{ℕ, ◌+◌, ◌&&◌, Option, ◌≡◌, arith, find, ◌==◌}
use claim_it_all.Prelude.Text.{Text}
use claim_it_all.Dispatch.Types.{
  VerificationStatus, UploadEvidence, Evidence, RecordAcknowledgment, Acknowledgment, AssessReceipt,
  ReceiptAssessment,
}
use claim_it_all.Service.Result.{ok, >>=-returns, or_throw-returns, guard-returns}
use claim_it_all.Dispatch.Store.{Db, load_package}
use claim_it_all.Service.Context.{ProjectContext, in_scope}
use claim_it_all.Dispatch.Snapshot.{Surroundings}
use claim_it_all.Dispatch.Authorization.{is_segregated}
use claim_it_all.Dispatch.Evidence.{
  find_attempt, is_evidence, acknowledge, upload_in, verify_in, acknowledge_in,
  verify_acknowledgment_in,
}
use claim_it_all.Dispatch.Receipts.{assess_in, attempt_of, is_assessment, confirm_in}
use claim_it_all.Dispatch.Once.{IsSound, Sound-grow}
use claim_it_all.Dispatch.Bodies.{left_by}

pub upload-IsSound :
    (ctx : ProjectContext) (pkg_id : ℕ) (input : Option UploadEvidence) (db : Db) (a : Evidence)
    (after : Db)
    → IsSound db
    → upload_in ctx pkg_id input db ≡ ok (a, after)
    → IsSound after
unfolding upload_in
upload-IsSound ctx pkg_id input db a after h body =
    let (parsed, _, body) = or_throw-returns input _ _ body in
    let (attempt, _, body) = >>=-returns (find_attempt ctx pkg_id parsed.attempt_id db) _ body in
    left_by body
      (Sound-grow db.next_id db.authorizations db.attempts h (db.next_id + 1) (omega arith))

pub verify-IsSound :
    (ctx : ProjectContext) (pkg_id : ℕ) (input : Option (ℕ × VerificationStatus)) (db : Db)
    (a : Evidence) (after : Db)
    → IsSound db
    → verify_in ctx pkg_id input db ≡ ok (a, after)
    → IsSound after
unfolding verify_in
verify-IsSound ctx pkg_id input db a after h body =
    let (parsed, _, body) = or_throw-returns input _ _ body in
    let (e, _, body) =
      or_throw-returns (find (is_evidence ctx pkg_id parsed.0 db) db.evidence) _ _ body in
    left_by body h

pub acknowledge-IsSound :
    (ctx : ProjectContext) (pkg_id : ℕ) (input : Option RecordAcknowledgment) (db : Db)
    (a : Acknowledgment) (after : Db)
    → IsSound db
    → acknowledge_in ctx pkg_id input db ≡ ok (a, after)
    → IsSound after
unfolding acknowledge_in
acknowledge-IsSound ctx pkg_id input db a after h body =
    let (parsed, _, body) = or_throw-returns input _ _ body in
    let (attempt, _, body) = >>=-returns (find_attempt ctx pkg_id parsed.attempt_id db) _ body in
    let (rows, _, body) =
      >>=-returns
        (acknowledge ctx.tenant_id parsed.recipient_id parsed.acknowledged_at db.recipients) _
        body in
    left_by body
      (Sound-grow db.next_id db.authorizations db.attempts h (db.next_id + 1) (omega arith))

pub verify_ack-IsSound :
    (ctx : ProjectContext) (pkg_id : ℕ) (input : Option ℕ) (db : Db) (a : Acknowledgment)
    (after : Db)
    → IsSound db
    → verify_acknowledgment_in ctx pkg_id input db ≡ ok (a, after)
    → IsSound after
unfolding verify_acknowledgment_in
verify_ack-IsSound ctx pkg_id input db a after h body =
    let (id, _, body) = or_throw-returns input _ _ body in
    let (ack, _, body) =
      or_throw-returns
        (find
          (λ (a : Acknowledgment).
            a.id == id && a.notice_package_id == pkg_id && in_scope ctx a.tenant_id a.project_id)
          db.acknowledgments)
        _ _ body in
    left_by body h

pub assess-IsSound :
    (env : Surroundings) (ctx : ProjectContext) (pkg_id : ℕ) (input : Option AssessReceipt)
    (db : Db) (a : ReceiptAssessment) (after : Db)
    → IsSound db
    → assess_in env ctx pkg_id input db ≡ ok (a, after)
    → IsSound after
unfolding assess_in
assess-IsSound env ctx pkg_id input db a after h body =
    let (parsed, _, body) = or_throw-returns input _ _ body in
    let (attempt, _, body) = >>=-returns (find_attempt ctx pkg_id parsed.attempt_id db) _ body in
    left_by body
      (Sound-grow db.next_id db.authorizations db.attempts h (db.next_id + 2) (omega arith))

pub confirm-IsSound :
    (env : Surroundings) (ctx : ProjectContext) (pkg_id : ℕ) (input : Option (ℕ × Option Text))
    (db : Db) (a : ReceiptAssessment) (after : Db)
    → IsSound db
    → confirm_in env ctx pkg_id input db ≡ ok (a, after)
    → IsSound after
unfolding confirm_in
confirm-IsSound env ctx pkg_id input db a after h body =
    let (parsed, _, body) = or_throw-returns input _ _ body in
    let (pkg, _, body) = >>=-returns (load_package ctx pkg_id db) _ body in
    let (before, _, body) =
      or_throw-returns (find (is_assessment ctx pkg_id parsed.0) db.assessments) _ _ body in
    let (attempt, _, body) = or_throw-returns (attempt_of before db) _ _ body in
    let (_, body) =
      guard-returns (is_segregated env pkg attempt.initiated_by_user_id ctx.user_id) _ _ body in
    left_by body h
