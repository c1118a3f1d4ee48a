-- ===== src/Delivery/Validate.antt =====
-- The validators of packages/notice-delivery/src/domain.ts.
pub mod Html
pub mod Laws
use mathlib.Core.Logic.{inl, inr}
use claim_it_all.Prelude.{
  ℕ, Bool, true, false, ◌&&◌, ◌||◌, not, Option, none, some, List, [], ◌∷◌, ◌++◌, any, keep, null,
  length, ltb, ◌==◌, if◌then◌else◌,
}
use claim_it_all.Prelude.Text.{Text, codes, text_eq, trim}
use claim_it_all.Delivery.Types.{RecipientSnapshot, AttachmentSnapshot, CoverMessageSnapshot}
use claim_it_all.Delivery.Retry.{truthy}
use claim_it_all.Delivery.Validate.Html.{contains_ci, sanitize_dispatch_html}

pub data Reason : Type 0 where
  subject_required subject_too_long subject_header_injection body_required : Reason
  internal_content_forbidden no_recipients no_required_recipient missing_display_name : Reason
  missing_contact missing_method attachment_count_mismatch attachment_missing : Reason
  attachment_checksum_mismatch attachment_filename_mismatch : Reason

-- `{ ok: true; ... } | { ok: false; reason }`
pub data Checked {ℓ} (A : Type ℓ) : Type ℓ where
  ok : A → Checked A
  refused : Reason → Checked A

-- `/[\r\n]/.test(subject)`
abbrev pub has_line_break : Text → Bool
has_line_break = any (λ c. c == 13 || c == 10)

-- Hashing is the runtime's (node:crypto).
module _ (sha256_hex : Text → Text) where
  abbrev pub cover_checksum : Text → Text → Option Text → Text
  cover_checksum subject plain_text none =
      sha256_hex (subject ++ (codes "\n" ++ (plain_text ++ codes "\n")))
  cover_checksum subject plain_text (some html) =
      sha256_hex (subject ++ (codes "\n" ++ (plain_text ++ (codes "\n" ++ html))))

  unfoldable pub validate_cover_message : Text → Text → Option Text → Checked CoverMessageSnapshot
  validate_cover_message raw_subject raw_plain_text raw_html =
      let subject = trim raw_subject in
      let plain_text = trim raw_plain_text in
      let html_safe = if truthy raw_html then sanitize_option raw_html else none in
      if null subject
      then refused subject_required
      else if ltb 500 (length subject)
      then refused subject_too_long
      else if has_line_break subject
      then refused subject_header_injection
      else if null plain_text
      then refused body_required
      else if contains_ci (codes "[internal]") plain_text
          || contains_ci (codes "confidence") plain_text
      then refused internal_content_forbidden
      else ok (record {
        subject = subject;
        plain_text = plain_text;
        html_safe = html_safe;
        checksum_sha256 = cover_checksum subject plain_text html_safe;
      })
    where
      sanitize_option : Option Text → Option Text
      sanitize_option none = none
      sanitize_option (some html) = some (sanitize_dispatch_html html)

-- The loop over the required recipients.
pub check_recipients : List RecipientSnapshot → Checked (Unit {0})
check_recipients [] = ok tt
check_recipients (r ∷ rs) =
    let later = check_recipients rs in
    if null (trim r.display_name)
    then refused missing_display_name
    else if not (truthy r.email_address)
        && not (truthy r.physical_address)
        && not (truthy r.platform_address)
    then refused missing_contact
    else if null r.method
    then refused missing_method
    else later

unfoldable pub validate_recipients_for_dispatch : List RecipientSnapshot → Checked (Unit {0})
validate_recipients_for_dispatch recipients =
    let required = keep (λ (r : RecipientSnapshot). r.required) recipients in
    if null recipients
    then refused no_recipients
    else if null required
    then refused no_required_recipient
    else check_recipients required

-- `new Map(attachments.map((a) => [a.attachmentId, a])).get(id)`: a later entry replaces an earlier.
unfoldable pub by_id : List AttachmentSnapshot → Text → Option AttachmentSnapshot
by_id [] id = none
by_id (a ∷ rest) id = elim (by_id rest id) [
  | some later ↦ some later
  | none ↦ if text_eq a.attachment_id id then some a else none
]

abbrev pub check_attachment : Option AttachmentSnapshot → AttachmentSnapshot → Checked (Unit {0})
check_attachment none e = refused attachment_missing
check_attachment (some a) e =
    if not (text_eq a.checksum_sha256 e.checksum_sha256)
    then refused attachment_checksum_mismatch
    else if not (text_eq a.filename e.filename)
    then refused attachment_filename_mismatch
    else ok tt

abbrev pub and_then : Checked (Unit {0}) → Checked (Unit {0}) → Checked (Unit {0})
and_then (ok u) later = later
and_then (refused r) later = refused r

-- The loop over the expected attachments.
unfoldable pub check_attachments :
    List AttachmentSnapshot → List AttachmentSnapshot → Checked (Unit {0})
check_attachments attachments [] = ok tt
check_attachments attachments (e ∷ expected) =
    and_then (check_attachment (by_id attachments e.attachment_id) e)
      (check_attachments attachments expected)

unfoldable pub validate_attachment_checksums :
    List AttachmentSnapshot → List AttachmentSnapshot → Checked (Unit {0})
validate_attachment_checksums attachments expected =
    if not (length attachments == length expected)
    then refused attachment_count_mismatch
    else check_attachments attachments expected
