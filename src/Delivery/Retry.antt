-- ===== src/Delivery/Retry.antt =====
-- `classifyRetry` of packages/notice-delivery/src/domain.ts. A string is false when it is empty.
pub mod Laws
use claim_it_all.Prelude.{
  Bool, true, false, ◌&&◌, ◌||◌, not, Option, none, some, List, [], ◌∷◌, any, null, if◌then◌else◌,
}
use claim_it_all.Prelude.Text.{Text, codes, text_eq}
use claim_it_all.Delivery.Types.{
  RetryClass, safe_auto_before_submission, manual_review_required, terminal,
}

pub record RetryInput : Type 0 where
  pub provider_accepted : Bool
  pub provider_message_id : Option Text
  pub failure_code : Option Text
  pub timed_out_after_submit : Bool
  pub checksum_mismatch : Bool
  pub authorization_valid : Bool
  pub artifact_present : Bool

-- A string or null as a condition.
abbrev pub truthy : Option Text → Bool
truthy none = false
truthy (some []) = false
truthy (some (c ∷ t)) = true

abbrev pub terminal_codes : List Text
terminal_codes =
    codes "INVALID_RECIPIENT"
    ∷ codes "UNAUTHORIZED_PROVIDER"
    ∷ codes "UNSUPPORTED_ATTACHMENT"
    ∷ codes "PROVIDER_REJECTION"
    ∷ codes "REVOKED"
    ∷ []

-- `failureCode && [...].includes(failureCode)`
unfoldable pub is_terminal_code : Option Text → Bool
is_terminal_code none = false
is_terminal_code (some code) = truthy (some code) && any (text_eq code) terminal_codes

unfoldable pub classify_retry : RetryInput → RetryClass
classify_retry input =
    if not input.authorization_valid || not input.artifact_present || input.checksum_mismatch
    then terminal
    else if input.timed_out_after_submit
        || (input.provider_accepted && truthy input.provider_message_id)
    then manual_review_required
    else if is_terminal_code input.failure_code
    then terminal
    else if not input.provider_accepted && not (truthy input.provider_message_id)
    then safe_auto_before_submission
    else manual_review_required
