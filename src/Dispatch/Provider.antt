-- ===== src/Dispatch/Provider.antt =====
-- packages/notice-delivery/src/providers.ts: what a provider is given and what it answers, and how
-- the service reads the answer.
use claim_it_all.Prelude.{ℕ, Bool, true, false, Option, none, some, List, [], ◌∷◌, find}
use claim_it_all.Prelude.Text.{Text, codes, text_eq}
use claim_it_all.Delivery.Types.{
  AttemptStatus, RecipientStatus, RecipientSnapshot, AttachmentSnapshot, CoverMessageSnapshot,
}
use claim_it_all.Delivery.Retry.{RetryInput, truthy}
use claim_it_all.Dispatch.Types.{PackageStatus}

pub record PrepareMessageInput : Type 0 where
  pub snapshot_id : ℕ
  pub recipients : List RecipientSnapshot
  pub cover : CoverMessageSnapshot
  pub artifact_checksum : Text
  pub attachment_snapshots : List AttachmentSnapshot
  pub idempotency_key : Text

pub record ProviderRecipientResult : Type 0 where
  pub preparation_id : Text
  pub status : Text
  pub provider_recipient_id : Option Text
  pub failure_reason : Option Text

pub data Outcome : Type 0 where
  accepted rejected partial connection_failure timeout_before_submit : Outcome
  timeout_after_possible_submit unknown : Outcome

pub record ProviderSendResult : Type 0 where
  pub provider_message_id : Option Text
  pub provider_submission_id : Option Text
  pub sent_at : Option ℕ
  pub recipients : List ProviderRecipientResult
  pub outcome : Outcome

pub record WebhookParseResult : Type 0 where
  pub provider_event_id : Text
  pub provider_message_id : Text
  pub event_type : Text
  pub occurred_at : ℕ
  pub recipient_statuses : List ProviderRecipientResult

-- A webhook's headers, and its body.
pub record Webhook : Type 0 where
  pub headers : List (Text × Text)
  pub raw_body : Text

pub record Provider : Type 0 where
  pub kind : Text
  pub is_configured : Bool
  pub send_message : PrepareMessageInput → ProviderSendResult
  pub verify_webhook : Option (Webhook → Bool)
  pub parse_webhook_event : Option (Text → WebhookParseResult)

-- `mapProviderRecipientStatus`
abbrev pub provider_statuses : List (Text × RecipientStatus)
provider_statuses =
    (codes "PENDING", RecipientStatus.pending)
    ∷ (codes "SUBMITTED", RecipientStatus.submitted)
    ∷ (codes "SENT", RecipientStatus.sent)
    ∷ (codes "DELIVERED", RecipientStatus.delivered)
    ∷ (codes "BOUNCED", RecipientStatus.bounced)
    ∷ (codes "REJECTED", RecipientStatus.rejected)
    ∷ (codes "FAILED", RecipientStatus.failed)
    ∷ (codes "UNKNOWN", RecipientStatus.unknown)
    ∷ []

abbrev status_or_unknown : Option (Text × RecipientStatus) → RecipientStatus
status_or_unknown none = RecipientStatus.unknown
status_or_unknown (some (name, status)) = status

unfoldable pub map_provider_recipient_status : Text → RecipientStatus
map_provider_recipient_status status =
    status_or_unknown (find (λ (p : Text × RecipientStatus). text_eq p.0 status) provider_statuses)

unfoldable pub map_attempt_to_package_status : AttemptStatus → PackageStatus
map_attempt_to_package_status AttemptStatus.delivered = PackageStatus.delivery_confirmed
map_attempt_to_package_status AttemptStatus.partially_delivered = PackageStatus.delivery_partial
map_attempt_to_package_status AttemptStatus.failed = PackageStatus.delivery_failed
map_attempt_to_package_status AttemptStatus.uncertain_manual_review = PackageStatus.delivery_pending
map_attempt_to_package_status _ = PackageStatus.dispatched

abbrev pub was_accepted : Outcome → Bool
was_accepted Outcome.accepted = true
was_accepted Outcome.partial = true
was_accepted _ = false

abbrev pub is_late_timeout : Outcome → Bool
is_late_timeout Outcome.timeout_after_possible_submit = true
is_late_timeout _ = false

abbrev pub failure_reason_of : Option ProviderRecipientResult → Option Text
failure_reason_of none = none
failure_reason_of (some r) = r.failure_reason

abbrev pub retry_input : ProviderSendResult → RetryInput
retry_input result = record {
  provider_accepted = was_accepted result.outcome;
  provider_message_id = result.provider_message_id;
  failure_code =
      failure_reason_of
        (find (λ (r : ProviderRecipientResult). truthy r.failure_reason) result.recipients);
  timed_out_after_submit = is_late_timeout result.outcome;
  checksum_mismatch = false;
  authorization_valid = true;
  artifact_present = true;
}

-- `result.outcome !== 'ACCEPTED' ? result.outcome : null`
abbrev pub outcome_code : Outcome → Option Text
outcome_code Outcome.accepted = none
outcome_code Outcome.rejected = some (codes "REJECTED")
outcome_code Outcome.partial = some (codes "PARTIAL")
outcome_code Outcome.connection_failure = some (codes "CONNECTION_FAILURE")
outcome_code Outcome.timeout_before_submit = some (codes "TIMEOUT_BEFORE_SUBMIT")
outcome_code Outcome.timeout_after_possible_submit = some (codes "TIMEOUT_AFTER_POSSIBLE_SUBMIT")
outcome_code Outcome.unknown = some (codes "UNKNOWN")
