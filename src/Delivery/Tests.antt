-- ===== src/Delivery/Tests.antt =====
-- The rules of delivery on concrete notices.
use claim_it_all.Prelude.{
  ℕ, ◌+◌, ◌*◌, ◌≤◌, ◌<◌, true, false, none, some, List, [], ◌∷◌, ◌≡◌, ◌≢◌, refl, arith, length, All,
}
use mathlib.Core.List.Perm
use claim_it_all.Prelude.Text.{codes, trim}
use claim_it_all.Delivery.Types.{
  AttemptStatus, RecipientStatus, RecipientSnapshot, AttachmentSnapshot, CoverMessageSnapshot,
}
use claim_it_all.Delivery.Status.{aggregate_recipient_status}
use claim_it_all.Delivery.Status.Laws.{aggregate_failure, SameMembers}
use claim_it_all.Delivery.Retry.{RetryInput, is_terminal_code, truthy, classify_retry}
use claim_it_all.Delivery.Retry.Laws.{classify_retry_auto_iff}
use claim_it_all.Delivery.Validate.{
  ok, has_line_break, validate_cover_message, validate_recipients_for_dispatch, by_id,
  check_attachments, validate_attachment_checksums,
}
use claim_it_all.Delivery.Validate.Html.{contains_ci}
use claim_it_all.Delivery.Validate.Laws.{
  validate_cover_message_sound, validate_recipients_iff, IsBackedBy,
  validate_attachment_checksums_sound,
}
use claim_it_all.Delivery.Risk.{RiskInput, Indicator, compute_delivery_risk}
use claim_it_all.Delivery.Risk.Laws.{IsWorst, compute_delivery_risk_lem}
use claim_it_all.Delivery.Receipt.{DeemedRule, day, is_week_day, assess_deemed_receipt}
use claim_it_all.Delivery.Receipt.Laws.{
  Answers, assess_next_working_day, assess_next_working_day_default,
}
use claim_it_all.Delivery.Keys.{build_idempotency_key}
use claim_it_all.Delivery.Keys.Laws.{build_idempotency_key-perm}

aggregate_failure_example :
    aggregate_recipient_status (RecipientStatus.failed ∷ RecipientStatus.pending ∷ [])
    ≡ AttemptStatus.delivery_pending
aggregate_failure_example =
    aggregate_failure (RecipientStatus.failed ∷ RecipientStatus.pending ∷ []) refl

abbrev confirmed : List RecipientStatus
confirmed = RecipientStatus.delivered ∷ RecipientStatus.acknowledged ∷ []

twice_SameMembers :
    SameMembers (RecipientStatus.sent ∷ RecipientStatus.sent ∷ []) (RecipientStatus.sent ∷ [])
twice_SameMembers s = ground arith

abbrev broken_connection : RetryInput
broken_connection = record {
  provider_accepted = false;
  provider_message_id = none;
  failure_code = some (codes "CONNECTION_FAILURE");
  timed_out_after_submit = false;
  checksum_mismatch = false;
  authorization_valid = true;
  artifact_present = true;
}

classify_retry_auto_iff_example :
    (broken_connection.authorization_valid ≡ true)
    × (broken_connection.artifact_present ≡ true)
    × (broken_connection.checksum_mismatch ≡ false)
    × (is_terminal_code broken_connection.failure_code ≡ false)
    × (broken_connection.provider_accepted ≡ false)
    × (truthy broken_connection.provider_message_id ≡ false)
    × (broken_connection.timed_out_after_submit ≡ false)
unfolding classify_retry is_terminal_code
classify_retry_auto_iff_example = (classify_retry_auto_iff broken_connection).0 refl

abbrev cover : CoverMessageSnapshot
cover = record {
  subject = codes "Notice";
  plain_text = codes "See annex";
  html_safe = none;
  checksum_sha256 = codes "Notice\nSee annex\n";
}

validate_cover_message_sound_example :
    (cover.subject ≡ trim (codes " Notice "))
    × (cover.plain_text ≡ trim (codes "See annex"))
    × (cover.subject ≢ [])
    × (length cover.subject ≤ 500)
    × (has_line_break cover.subject ≡ false)
    × (cover.plain_text ≢ [])
unfolding validate_cover_message contains_ci
validate_cover_message_sound_example =
    validate_cover_message_sound (λ t. t) (codes " Notice ") (codes "See annex") none cover refl

abbrev engineer : RecipientSnapshot
engineer = record {
  preparation_id = codes "p1";
  display_name = codes "Engineer";
  email_address = some (codes "e@x");
  physical_address = none;
  platform_address = none;
  attention_line = none;
  method = codes "EMAIL";
  copied_recipient = false;
  required = true;
}

validate_recipients_iff_example : validate_recipients_for_dispatch (engineer ∷ []) ≡ ok tt
validate_recipients_iff_example =
    (validate_recipients_iff (engineer ∷ [])).1 (refl, (λ _. (refl, refl, refl), tt))

abbrev annex : AttachmentSnapshot
annex = record {
  attachment_id = codes "a1";
  filename = codes "annex.pdf";
  checksum_sha256 = codes "c0";
  sequence = 1;
  mime_type = none;
}

validate_attachment_checksums_sound_example :
    (length (annex ∷ []) ≡ length (annex ∷ [])) × All (IsBackedBy (annex ∷ [])) (annex ∷ [])
unfolding validate_attachment_checksums by_id check_attachments
validate_attachment_checksums_sound_example =
    validate_attachment_checksums_sound (annex ∷ []) (annex ∷ []) refl

abbrev late : RiskInput
late = record {
  deadline_at = some 1000;
  now = 2000;
  missing_verified_recipient = false;
  provider_configured = false;
  attachment_over_limit = false;
  required_recipient_failed = false;
  receipt_unconfirmed = false;
  authorization_expired = false;
  manual_proof_missing = false;
  dispatched_after_deadline = false;
  method_not_permitted = false;
}

compute_delivery_risk_lem_example :
    ((compute_delivery_risk late).indicators
      ≡ Indicator.provider_unavailable ∷ Indicator.deadline_passed ∷ [])
    × IsWorst (compute_delivery_risk late)
compute_delivery_risk_lem_example = compute_delivery_risk_lem late

assess_next_working_day_example :
    Answers
      (λ t. true)
      5
      (assess_deemed_receipt DeemedRule.next_working_day (some 5) none none (some (λ t. true)))
assess_next_working_day_example = assess_next_working_day (λ t. true) 5 none none

-- 1970-01-02 was a Friday.
assess_next_working_day_default_example :
    (u : ℕ) × ((assess_deemed_receipt DeemedRule.next_working_day
        (some day)
        none
        none
        none).advisory_at
      ≡ some u)
    × (day < u)
    × (u ≤ day + 3 * day)
    × (is_week_day u ≡ true)
assess_next_working_day_default_example = assess_next_working_day_default day none none

-- Two recipients in the other order.
build_idempotency_key-perm_example :
    build_idempotency_key
      (λ t. t)
      (codes "id")
      (codes "MANUAL_EMAIL")
      1
      (codes "b" ∷ codes "a" ∷ [])
    ≡ build_idempotency_key
        (λ t. t)
        (codes "id")
        (codes "MANUAL_EMAIL")
        1
        (codes "a" ∷ codes "b" ∷ [])
build_idempotency_key-perm_example =
    build_idempotency_key-perm (λ t. t) (codes "id") (codes "MANUAL_EMAIL") 1
      (Perm.swap (codes "a") (codes "b") [])
