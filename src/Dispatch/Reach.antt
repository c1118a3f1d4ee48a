-- ===== src/Dispatch/Reach.antt =====
-- The requests as steps of the database, and what every sequence of them keeps.
use claim_it_all.Prelude.{ℕ, Option, ◌≡◌}
use claim_it_all.Prelude.Text.{Text}
use claim_it_all.Authz.Capabilities.{Capability}
use claim_it_all.Dispatch.Types.{ManualDispatch, AuditAction}
use claim_it_all.Service.Result.{Result, ok}
use claim_it_all.Dispatch.Store.{Db, write_audit_log, as_capable}
use claim_it_all.Service.Context.{ProjectContext, transaction-keeps, with_capability-keeps}
use claim_it_all.Dispatch.Snapshot.{Surroundings, CreateSnapshot, create_dispatch_package_snapshot}
use claim_it_all.Dispatch.Authorization.{
  AuthorizeInput, request_dispatch_authorization, authorize_dispatch, reject_dispatch_authorization,
  revoke_dispatch_authorization,
}
use claim_it_all.Dispatch.Provider.{Provider}
use claim_it_all.Dispatch.Send.{send_approved_notice_email, record_manual_dispatch}
use claim_it_all.Dispatch.Once.{IsSound}
use claim_it_all.Prelude.Text.{Text}
use claim_it_all.Dispatch.Provider.{Webhook}
use claim_it_all.Dispatch.Webhook.{process_in, process_delivery_webhook}
use claim_it_all.Dispatch.Webhook.Laws.{webhook-IsSound}
use claim_it_all.Dispatch.Types.{
  VerificationStatus, UploadEvidence, RecordAcknowledgment, AssessReceipt,
}
use claim_it_all.Dispatch.Evidence.{
  upload_dispatch_evidence, verify_dispatch_evidence, record_acknowledgment, verify_acknowledgment,
}
use claim_it_all.Dispatch.Receipts.{assess_receipt, confirm_contractual_service}
use claim_it_all.Dispatch.Keeps.{
  upload-IsSound, verify-IsSound, acknowledge-IsSound, verify_ack-IsSound, assess-IsSound,
  confirm-IsSound,
}
use claim_it_all.Dispatch.Bodies.{
  snapshot-IsSound, request-IsSound, authorize-IsSound, reject-IsSound, revoke-IsSound,
  send-IsSound, manual-IsSound,
}

-- A request, by anybody, with any input, at any time, takes the database to another.
pub data Step : Db → Db → Type 0 where
  snapshot :
      {db : Db} (env : Surroundings) (ctx : ProjectContext) (pkg_id : ℕ)
      (input : Option (CreateSnapshot env))
      → Step db (create_dispatch_package_snapshot env ctx pkg_id input db).1
  request :
      {db : Db} (ctx : ProjectContext) (pkg_id id : ℕ) (input : Option (Option Text))
      → Step db (request_dispatch_authorization ctx pkg_id id input db).1
  authorize :
      {db : Db} (env : Surroundings) (ctx : ProjectContext) (pkg_id id : ℕ)
      (input : Option AuthorizeInput)
      → Step db (authorize_dispatch env ctx pkg_id id input db).1
  reject :
      {db : Db} (env : Surroundings) (ctx : ProjectContext) (pkg_id id : ℕ) (input : Option Text)
      → Step db (reject_dispatch_authorization env ctx pkg_id id input db).1
  revoke :
      {db : Db} (ctx : ProjectContext) (pkg_id id : ℕ) (input : Option Text)
      → Step db (revoke_dispatch_authorization ctx pkg_id id input db).1
  send :
      {db : Db} (env : Surroundings) (provider : Option Provider) (ctx : ProjectContext)
      (pkg_id id : ℕ)
      → Step db (send_approved_notice_email env provider ctx pkg_id id db).1
  record_manual :
      {db : Db} (env : Surroundings) (ctx : ProjectContext) (pkg_id id : ℕ)
      (input : Option ManualDispatch)
      → Step db (record_manual_dispatch env ctx pkg_id id input db).1
  upload :
      {db : Db} (ctx : ProjectContext) (pkg_id : ℕ) (input : Option UploadEvidence)
      → Step db (upload_dispatch_evidence ctx pkg_id input db).1
  verify :
      {db : Db} (ctx : ProjectContext) (pkg_id : ℕ) (input : Option (ℕ × VerificationStatus))
      → Step db (verify_dispatch_evidence ctx pkg_id input db).1
  acknowledge :
      {db : Db} (ctx : ProjectContext) (pkg_id : ℕ) (input : Option RecordAcknowledgment)
      → Step db (record_acknowledgment ctx pkg_id input db).1
  verify_ack :
      {db : Db} (ctx : ProjectContext) (pkg_id : ℕ) (input : Option ℕ)
      → Step db (verify_acknowledgment ctx pkg_id input db).1
  assess :
      {db : Db} (env : Surroundings) (ctx : ProjectContext) (pkg_id : ℕ)
      (input : Option AssessReceipt)
      → Step db (assess_receipt env ctx pkg_id input db).1
  confirm :
      {db : Db} (env : Surroundings) (ctx : ProjectContext) (pkg_id : ℕ)
      (input : Option (ℕ × Option Text))
      → Step db (confirm_contractual_service env ctx pkg_id input db).1
  webhook :
      {db : Db} (provider : Option Provider) (kind : Text) (sent : Webhook)
      → Step db (process_delivery_webhook provider kind sent db).1

pub data Steps : Db → Db → Type 0 where
  done : {db : Db} → Steps db db
  next : {a b c : Db} → Step a b → Steps b c → Steps a c

-- What a body keeps, its request keeps.
as_capable-keeps :
    {A : Type 0} (ctx : ProjectContext) (capability : Capability) (body : Db → Result (A × Db))
    (db : Db)
    → ((a : A) (after : Db) → body db ≡ ok (a, after) → IsSound after)
    → IsSound db
    → IsSound (as_capable ctx capability body db).1
unfolding as_capable
as_capable-keeps ctx capability body db keeps h =
    with_capability-keeps IsSound ctx capability (write_audit_log ctx AuditAction.authz_denied 0)
      body db keeps h h

Step-IsSound : {a b : Db} → Step a b → IsSound a → IsSound b
Step-IsSound (Step.snapshot {db = db} env ctx pkg_id input) h =
    as_capable-keeps ctx _ _ db (λ a after e. snapshot-IsSound env ctx pkg_id input db a after h e)
      h
Step-IsSound (Step.request {db = db} ctx pkg_id id input) h =
    as_capable-keeps ctx _ _ db (λ a after e. request-IsSound ctx pkg_id id input db a after h e) h
Step-IsSound (Step.authorize {db = db} env ctx pkg_id id input) h =
    as_capable-keeps ctx _ _ db
      (λ a after e. authorize-IsSound env ctx pkg_id id input db a after h e) h
Step-IsSound (Step.reject {db = db} env ctx pkg_id id input) h =
    as_capable-keeps ctx _ _ db (λ a after e. reject-IsSound env ctx pkg_id id input db a after h e)
      h
Step-IsSound (Step.revoke {db = db} ctx pkg_id id input) h =
    as_capable-keeps ctx _ _ db (λ a after e. revoke-IsSound ctx pkg_id id input db a after h e) h
Step-IsSound (Step.send {db = db} env provider ctx pkg_id id) h =
    as_capable-keeps ctx _ _ db
      (λ a after e. send-IsSound env provider ctx pkg_id id db a after h e) h
Step-IsSound (Step.record_manual {db = db} env ctx pkg_id id input) h =
    as_capable-keeps ctx _ _ db (λ a after e. manual-IsSound env ctx pkg_id id input db a after h e)
      h
Step-IsSound (Step.upload {db = db} ctx pkg_id input) h =
    as_capable-keeps ctx _ _ db (λ a after e. upload-IsSound ctx pkg_id input db a after h e) h
Step-IsSound (Step.verify {db = db} ctx pkg_id input) h =
    as_capable-keeps ctx _ _ db (λ a after e. verify-IsSound ctx pkg_id input db a after h e) h
Step-IsSound (Step.acknowledge {db = db} ctx pkg_id input) h =
    as_capable-keeps ctx _ _ db (λ a after e. acknowledge-IsSound ctx pkg_id input db a after h e) h
Step-IsSound (Step.verify_ack {db = db} ctx pkg_id input) h =
    as_capable-keeps ctx _ _ db (λ a after e. verify_ack-IsSound ctx pkg_id input db a after h e) h
Step-IsSound (Step.assess {db = db} env ctx pkg_id input) h =
    as_capable-keeps ctx _ _ db (λ a after e. assess-IsSound env ctx pkg_id input db a after h e) h
Step-IsSound (Step.confirm {db = db} env ctx pkg_id input) h =
    as_capable-keeps ctx _ _ db (λ a after e. confirm-IsSound env ctx pkg_id input db a after h e) h
Step-IsSound (Step.webhook {db = db} provider kind sent) h =
    transaction-keeps IsSound (process_in provider kind sent db) db
      (λ a after e. webhook-IsSound provider kind sent db after a h e) h

-- Whatever requests are made and webhooks come in, in whatever order, every authorization has one attempt if it is used,
-- and none otherwise, if that held before the first request.
pub Steps-IsSound : {a b : Db} → Steps a b → IsSound a → IsSound b
Steps-IsSound done h = h
Steps-IsSound (next s t) h = Steps-IsSound t (Step-IsSound s h)
