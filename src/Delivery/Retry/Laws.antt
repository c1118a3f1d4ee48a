-- ===== src/Delivery/Retry/Laws.antt =====
-- When a send may be repeated without a person.
use claim_it_all.Prelude.{true, false, ◌≡◌, ◌↔◌, arith}
use claim_it_all.Delivery.Types.{safe_auto_before_submission}
use claim_it_all.Delivery.Retry.{RetryInput, truthy, is_terminal_code, classify_retry}

-- A repeat without review is offered exactly when the authorization, artifact and checksums are
-- good, the failure is not terminal, and nothing shows that the provider may have the message: it
-- has not accepted, gave no message id, and did not time out after a submission.
pub classify_retry_auto_iff :
    (input : RetryInput)
    → (classify_retry input ≡ safe_auto_before_submission) ↔ (
        (input.authorization_valid ≡ true)
        × (input.artifact_present ≡ true)
        × (input.checksum_mismatch ≡ false)
        × (is_terminal_code input.failure_code ≡ false)
        × (input.provider_accepted ≡ false)
        × (truthy input.provider_message_id ≡ false)
        × (input.timed_out_after_submit ≡ false))
unfolding classify_retry
classify_retry_auto_iff input = ground arith
