-- ===== src/Dispatch/Types.antt =====
-- The rows that the dispatch service reads and writes (apps/web/prisma/schema.prisma). An identifier
-- is a number, a time is milliseconds since 1970, a row holds the rows that its query includes.
use claim_it_all.Prelude.{ℕ, Bool, Option, List}
use claim_it_all.Prelude.Text.{Text}
use claim_it_all.Authz.Roles.{ProjectStatus}
use claim_it_all.Delivery.Receipt.{DeemedRule, DeemedReceipt, TraceLine, Ambiguity}
use claim_it_all.Delivery.Types.{
  ReceiptStatus, ContractualServiceStatus, AuthorizationStatus, AttemptStatus, RecipientStatus,
  RecipientSnapshot, AttachmentSnapshot, CoverMessageSnapshot, RetryClass,
}

pub data PackageStatus : Type 0 where
  draft evidence_incomplete ready_for_draft drafting in_review changes_requested : PackageStatus
  approved superseded withdrawn exported authorization_pending : PackageStatus
  authorized_for_dispatch dispatch_in_progress dispatched delivery_pending : PackageStatus
  delivery_partial delivery_confirmed receipt_unconfirmed receipt_confirmed : PackageStatus
  delivery_failed archived sent : PackageStatus

pub record Preparation : Type 0 where
  pub id : Text
  pub named_recipient : Option Text
  pub recipient_role : Option Text
  pub email_address : Option Text
  pub physical_address : Option Text
  pub platform_address : Option Text
  pub attention_line : Option Text
  pub selected_method : Option Text
  pub permitted_method : Option Text
  pub copied_recipient : Bool
  pub verification_status : Text

pub record Attachment : Type 0 where
  pub id : Text
  pub external_filename : Text
  pub checksum_sha256 : Option Text
  pub sequence : ℕ

pub record ExportBundle : Type 0 where
  pub id : ℕ
  pub format : Text
  pub artifact_checksum : Text
  pub draft_revision_id : ℕ

pub record Section : Type 0 where
  pub body : Text
  pub sequence : ℕ

pub record Revision : Type 0 where
  pub id : ℕ
  pub status : Text
  pub template_version : Text
  pub sections : List Section

pub record Package : Type 0 where
  pub id : ℕ
  pub tenant_id : ℕ
  pub project_id : ℕ
  pub status : PackageStatus
  pub active_approved_revision : Option Revision
  pub delivery_preparations : List Preparation
  pub attachments : List Attachment
  pub export_bundles : List ExportBundle
  pub project_status : ProjectStatus
  pub language : Text
  pub sod_enforced : Bool

pub record Snapshot : Type 0 where
  pub id : ℕ
  pub tenant_id : ℕ
  pub project_id : ℕ
  pub notice_package_id : ℕ
  pub approved_draft_revision_id : ℕ
  pub notice_export_id : ℕ
  pub bundle_checksum : Text
  pub notice_checksum : Text
  pub attachment_manifest_checksum : Text
  pub template_version : Text
  pub language : Text
  pub subject : Text
  pub recipient_snapshot : List RecipientSnapshot
  pub copied_recipient_snapshot : List RecipientSnapshot
  pub attachment_snapshot : List AttachmentSnapshot
  pub cover_message_snapshot : CoverMessageSnapshot
  pub channel : Text
  pub created_by_user_id : ℕ

pub record CoverMessage : Type 0 where
  pub snapshot_id : ℕ
  pub cover : CoverMessageSnapshot
  pub created_by_user_id : ℕ

pub record Authorization : Type 0 where
  pub id : ℕ
  pub tenant_id : ℕ
  pub project_id : ℕ
  pub notice_package_id : ℕ
  pub dispatch_package_snapshot : Snapshot
  pub requested_by_user_id : ℕ
  pub authorized_by_user_id : Option ℕ
  pub authorized_at : Option ℕ
  pub reviewed_by_user_id : Option ℕ
  pub reviewed_at : Option ℕ
  pub status : AuthorizationStatus
  pub selected_channel : Text
  pub recipient_count : ℕ
  pub copied_recipient_count : ℕ
  pub rationale : Option Text
  pub recipients_reviewed : Bool
  pub method_reviewed : Bool
  pub attachments_reviewed : Bool
  pub deadline_reviewed : Bool
  pub scope_reviewed : Bool
  pub delivery_risk_acknowledged : Bool
  pub expires_at : Option ℕ

pub record Attempt : Type 0 where
  pub id : ℕ
  pub tenant_id : ℕ
  pub project_id : ℕ
  pub notice_package_id : ℕ
  pub dispatch_authorization_id : ℕ
  pub dispatch_package_snapshot_id : ℕ
  pub attempt_number : ℕ
  pub channel : Text
  pub provider : Text
  pub status : AttemptStatus
  pub initiated_by_user_id : ℕ
  pub idempotency_key : Text
  pub started_at : Option ℕ
  pub completed_at : Option ℕ
  pub provider_message_id : Option Text
  pub provider_submission_id : Option Text
  pub retry_class : Option RetryClass
  pub failure_code : Option Text

pub record Recipient : Type 0 where
  pub id : ℕ
  pub tenant_id : ℕ
  pub project_id : ℕ
  pub dispatch_attempt_id : ℕ
  pub preparation_id : Text
  pub display_name : Text
  pub address_or_email : Option Text
  pub copied_recipient : Bool
  pub required_recipient : Bool
  pub method : Text
  pub status : RecipientStatus
  pub acknowledged_at : Option ℕ
  pub provider_recipient_id : Option Text
  pub failure_reason : Option Text
  pub sent_at : Option ℕ
  pub delivered_at : Option ℕ

-- The event's place in `redactedPayload` and `payloadChecksum` is left out.
pub record ProviderEvent : Type 0 where
  pub id : ℕ
  pub tenant_id : ℕ
  pub project_id : ℕ
  pub provider : Text
  pub provider_event_id : Text
  pub provider_message_id : Text
  pub event_type : Text
  pub occurred_at : ℕ
  pub dispatch_attempt_id : ℕ

-- `z.infer<typeof ManualDispatchSchema>`
pub record ManualDispatch : Type 0 where
  pub method : Text
  pub dispatch_at : ℕ
  pub location : Option Text
  pub courier_or_provider_name : Option Text
  pub tracking_number : Option Text
  pub hand_delivered_to_name : Option Text
  pub external_submission_reference : Option Text
  pub physical_receipt_reference : Option Text
  pub notes : Option Text

pub record ManualRecord : Type 0 where
  pub id : ℕ
  pub dispatch_attempt_id : ℕ
  pub dispatched_by_user_id : ℕ
  pub details : ManualDispatch

pub data VerificationStatus : Type 0 where
  unverified verified disputed rejected : VerificationStatus

-- `z.infer<typeof UploadEvidenceSchema>`
pub record UploadEvidence : Type 0 where
  pub attempt_id : ℕ
  pub recipient_id : Option ℕ
  pub evidence_type : Text
  pub filename : Option Text
  pub checksum_sha256 : Text
  pub storage_key : Option Text
  pub occurred_at : Option ℕ

pub record Evidence : Type 0 where
  pub id : ℕ
  pub tenant_id : ℕ
  pub project_id : ℕ
  pub details : UploadEvidence
  pub recorded_by_user_id : ℕ
  pub verification_status : VerificationStatus
  pub verified_by_user_id : Option ℕ

-- `z.infer<typeof AcknowledgmentSchema>`
pub record RecordAcknowledgment : Type 0 where
  pub attempt_id : ℕ
  pub recipient_id : Option ℕ
  pub acknowledgment_type : Text
  pub acknowledged_at : ℕ
  pub summary : Option Text
  pub source_evidence_id : Option ℕ

pub data AcknowledgmentStatus : Type 0 where
  recorded verified : AcknowledgmentStatus

pub record Acknowledgment : Type 0 where
  pub id : ℕ
  pub tenant_id : ℕ
  pub project_id : ℕ
  pub notice_package_id : ℕ
  pub details : RecordAcknowledgment
  pub recorded_by_user_id : ℕ
  pub status : AcknowledgmentStatus
  pub verified_by_user_id : Option ℕ

-- `z.infer<typeof AssessReceiptSchema>`
pub record AssessReceipt : Type 0 where
  pub attempt_id : ℕ
  pub recipient_id : Option ℕ
  pub receipt_status : ReceiptStatus
  pub receipt_at : Option ℕ
  pub source : Option Text
  pub evidence_id : Option ℕ
  pub deemed_receipt_rule : Option DeemedRule
  pub rationale : Option Text

pub record ReceiptAssessment : Type 0 where
  pub id : ℕ
  pub tenant_id : ℕ
  pub project_id : ℕ
  pub notice_package_id : ℕ
  pub details : AssessReceipt
  pub deemed_receipt_result : Option DeemedReceipt
  pub contractual_service_status : ContractualServiceStatus
  pub reviewed_by_user_id : ℕ
  pub reviewed_at : ℕ
  pub rationale : Option Text

pub record DeemedAssessment : Type 0 where
  pub id : ℕ
  pub receipt_assessment_id : ℕ
  pub rule_kind : DeemedRule
  pub attempt_id : ℕ
  pub calculation_trace : List TraceLine
  pub advisory_at : ℕ
  pub ambiguity : Option Ambiguity

pub data AuditAction : Type 0 where
  evidence_upload evidence_verify acknowledgment_record acknowledgment_verify : AuditAction
  receipt_assess receipt_confirm : AuditAction
  authz_denied snapshot_create request_authorization authorize reject revoke : AuditAction
  send record_manual : AuditAction

-- The metadata of a row of the audit log is left out.
pub record AuditRow : Type 0 where
  pub tenant_id : ℕ
  pub project_id : ℕ
  pub actor_user_id : ℕ
  pub action : AuditAction
  pub entity_id : ℕ
