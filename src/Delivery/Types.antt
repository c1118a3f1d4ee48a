-- ===== src/Delivery/Types.antt =====
-- packages/notice-delivery/src/types.ts. A `string | null` is an `Option Text`.
use claim_it_all.Prelude.{ℕ, Bool, Option, List, [], ◌∷◌}
use claim_it_all.Prelude.Text.{Text, codes}

abbrev pub operational_channels : List Text
operational_channels =
    codes "MANUAL_COURIER"
    ∷ codes "MANUAL_HAND_DELIVERY"
    ∷ codes "MANUAL_REGISTERED_POST"
    ∷ codes "MANUAL_EMAIL"
    ∷ codes "MANUAL_EDMS"
    ∷ codes "MANUAL_LETTER"
    ∷ codes "CONTROLLED_EMAIL"
    ∷ []

pub data AuthorizationStatus : Type 0 where
  draft requested under_review authorized rejected expired revoked used cancelled :
      AuthorizationStatus

pub data AttemptStatus : Type 0 where
  prepared queued sending submitted sent delivery_pending delivered failed cancelled : AttemptStatus
  partially_delivered manual_dispatch_recorded awaiting_evidence : AttemptStatus
  uncertain_manual_review : AttemptStatus

pub data RecipientStatus : Type 0 where
  pending submitted sent delivered bounced rejected failed acknowledged unknown : RecipientStatus
  manually_confirmed : RecipientStatus

pub data ReceiptStatus : Type 0 where
  unknown provider_accepted sent delivered acknowledged bounced refused disputed : ReceiptStatus
  manually_confirmed : ReceiptStatus

pub data ContractualServiceStatus : Type 0 where
  not_assessed evidence_incomplete potentially_satisfied review_required human_confirmed disputed :
      ContractualServiceStatus

pub data RiskLevel : Type 0 where
  low medium high critical unknown : RiskLevel

pub data RetryClass : Type 0 where
  safe_auto_before_submission manual_review_required terminal : RetryClass

pub record RecipientSnapshot : Type 0 where
  pub preparation_id : Text
  pub display_name : Text
  pub email_address : Option Text
  pub physical_address : Option Text
  pub platform_address : Option Text
  pub attention_line : Option Text
  pub method : Text
  pub copied_recipient : Bool
  pub required : Bool

pub record AttachmentSnapshot : Type 0 where
  pub attachment_id : Text
  pub filename : Text
  pub checksum_sha256 : Text
  pub sequence : ℕ
  pub mime_type : Option Text

pub record CoverMessageSnapshot : Type 0 where
  pub subject : Text
  pub plain_text : Text
  pub html_safe : Option Text
  pub checksum_sha256 : Text

pub RecipientStatus-discrete : Discrete RecipientStatus
RecipientStatus-discrete = hlevel
