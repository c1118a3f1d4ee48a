-- ===== src/Dispatch/Receipts.antt =====
-- `assessReceipt` and `confirmContractualService`.
use claim_it_all.Prelude.{
  ℕ, ◌+◌, Bool, ◌&&◌, Option, none, some, List, [], ◌∷◌, ◌++◌, find, update_where, or_else, ◌==◌,
}
use claim_it_all.Prelude.Text.{Text}
use claim_it_all.Authz.Capabilities.{notice_receipt_assess, notice_receipt_confirm}
use claim_it_all.Delivery.Types.{ContractualServiceStatus}
use claim_it_all.Delivery.Receipt.{DeemedRule, DeemedReceipt, assess_deemed_receipt}
use claim_it_all.Dispatch.Types.{
  PackageStatus, Attempt, Recipient, AssessReceipt, ReceiptAssessment, DeemedAssessment,
  AuditAction,
}
use claim_it_all.Service.Result.{
  not_found, forbidden, validation_error, Result, ok, guard, or_throw, ◌>>=◌, ◌>>◌,
}
use claim_it_all.Dispatch.Store.{Db, write_audit_log, as_capable, load_package, set_package_status}
use claim_it_all.Service.Context.{ProjectContext, in_scope}
use claim_it_all.Dispatch.Snapshot.{Surroundings, coalesce, first}
use claim_it_all.Dispatch.Authorization.{is_segregated}
use claim_it_all.Dispatch.Webhook.{recipients_of_attempt}
use claim_it_all.Dispatch.Evidence.{find_attempt}

-- `recipientId ? recipients.find((r) => r.id === recipientId) : recipients[0]`
abbrev recipient_of : Option ℕ → List Recipient → Option Recipient
recipient_of none rows = first rows
recipient_of (some id) rows = find (λ (r : Recipient). r.id == id) rows

abbrev delivered_of : Option Recipient → Option ℕ
delivered_of none = none
delivered_of (some r) = r.delivered_at

-- `rule ? assessDeemedReceipt({ rule, sentAt, deliveredAt }) : null`
abbrev deemed_of : Option DeemedRule → Attempt → Option Recipient → Option DeemedReceipt
deemed_of none attempt recipient = none
deemed_of (some rule) attempt recipient =
    some (assess_deemed_receipt rule attempt.completed_at (delivered_of recipient) none none)

abbrev pub new_assessment :
    Surroundings → ProjectContext → ℕ → AssessReceipt → Option DeemedReceipt → ℕ → ReceiptAssessment
new_assessment env ctx notice_package_id input deemed id = record {
  id = id;
  tenant_id = ctx.tenant_id;
  project_id = ctx.project_id;
  notice_package_id = notice_package_id;
  details = input;
  deemed_receipt_result = deemed;
  contractual_service_status = ContractualServiceStatus.not_assessed;
  reviewed_by_user_id = ctx.user_id;
  reviewed_at = env.now;
  rationale = input.rationale;
}

abbrev deemed_row : AssessReceipt → ℕ → ℕ → DeemedReceipt → Option ℕ → List DeemedAssessment
deemed_row input assessment_id id deemed none = []
deemed_row input assessment_id id deemed (some at) =
    (record {
      id = id;
      receipt_assessment_id = assessment_id;
      rule_kind = or_else input.deemed_receipt_rule DeemedRule.none_rule;
      attempt_id = input.attempt_id;
      calculation_trace = deemed.trace;
      advisory_at = at;
      ambiguity = deemed.ambiguity;
    })
    ∷ []

-- `if (deemed?.advisoryAt) tx.deemedReceiptAssessment.create`
abbrev deemed_rows : AssessReceipt → ℕ → ℕ → Option DeemedReceipt → List DeemedAssessment
deemed_rows input assessment_id id none = []
deemed_rows input assessment_id id (some deemed) =
    deemed_row input assessment_id id deemed deemed.advisory_at

unfoldable pub assess_in :
    Surroundings → ProjectContext → ℕ → Option AssessReceipt → Db → Result (ReceiptAssessment × Db)
assess_in env ctx notice_package_id input db = do
  parsed ← or_throw input validation_error
  attempt ← find_attempt ctx notice_package_id parsed.attempt_id db
  let recipient = recipient_of parsed.recipient_id (recipients_of_attempt attempt.id db.recipients)
  let deemed = deemed_of parsed.deemed_receipt_rule attempt recipient
  let assessment = new_assessment env ctx notice_package_id parsed deemed db.next_id
  ok (
    assessment,
    write_audit_log ctx AuditAction.receipt_assess assessment.id (record db {
      next_id = db.next_id + 2;
      assessments = db.assessments ++ assessment ∷ [];
      deemed = db.deemed ++ deemed_rows parsed assessment.id (db.next_id + 1) deemed;
    }),
  )

abbrev pub assess_receipt :
    Surroundings → ProjectContext → ℕ → Option AssessReceipt → Db → Result ReceiptAssessment × Db
assess_receipt env ctx notice_package_id input =
    as_capable ctx notice_receipt_assess (assess_in env ctx notice_package_id input)

-- The attempt that the assessment includes.
abbrev pub attempt_of : ReceiptAssessment → Db → Option Attempt
attempt_of a db = find (λ (t : Attempt). t.id == a.details.attempt_id) db.attempts

abbrev pub is_assessment : ProjectContext → ℕ → ℕ → ReceiptAssessment → Bool
is_assessment ctx notice_package_id assessment_id a =
    a.id == assessment_id
    && a.notice_package_id == notice_package_id
    && in_scope ctx a.tenant_id a.project_id

abbrev pub service_row :
    Surroundings → ProjectContext → Option Text → ReceiptAssessment → ReceiptAssessment
service_row env ctx rationale a = record a {
  contractual_service_status = ContractualServiceStatus.human_confirmed;
  reviewed_by_user_id = ctx.user_id;
  reviewed_at = env.now;
  rationale = coalesce rationale a.rationale;
}

abbrev pub after_confirm :
    Surroundings → ProjectContext → ℕ → Option Text → ReceiptAssessment → Db → Db
after_confirm env ctx notice_package_id rationale a db =
    write_audit_log ctx AuditAction.receipt_confirm a.id (
      set_package_status notice_package_id PackageStatus.receipt_confirmed (record db {
        assessments =
            update_where (λ (b : ReceiptAssessment). b.id == a.id) (service_row env ctx rationale)
              db.assessments;
      }))

-- The input is the assessment's identifier and the rationale.
unfoldable pub confirm_in :
    Surroundings
    → ProjectContext
    → ℕ
    → Option (ℕ × Option Text)
    → Db
    → Result (ReceiptAssessment × Db)
confirm_in env ctx notice_package_id input db = do
  parsed ← or_throw input validation_error
  pkg ← load_package ctx notice_package_id db
  assessment ←
      or_throw (find (is_assessment ctx notice_package_id parsed.0) db.assessments) not_found
  attempt ← or_throw (attempt_of assessment db) not_found
  guard (is_segregated env pkg attempt.initiated_by_user_id ctx.user_id) forbidden
  ok (
    service_row env ctx parsed.1 assessment,
    after_confirm env ctx notice_package_id parsed.1 assessment db,
  )

abbrev pub confirm_contractual_service :
    Surroundings
    → ProjectContext
    → ℕ
    → Option (ℕ × Option Text)
    → Db
    → Result ReceiptAssessment × Db
confirm_contractual_service env ctx notice_package_id input =
    as_capable ctx notice_receipt_confirm (confirm_in env ctx notice_package_id input)
