-- ===== src/Dispatch/Snapshot.antt =====
-- `createDispatchPackageSnapshot` and what it builds its snapshot from.
use claim_it_all.Prelude.{
  ℕ, ◌+◌, Bool, true, false, not, Option, none, some, List, [], ◌∷◌, ◌++◌, map, keep, find, null,
  leb, or_else, ◌==◌, if◌then◌else◌,
}
use claim_it_all.Prelude.Text.{Text, codes, text_eq, join}
use claim_it_all.Prelude.Sorting.{sort}
use claim_it_all.Authz.Capabilities.{notice_dispatch_prepare}
use claim_it_all.Delivery.Types.{RecipientSnapshot, AttachmentSnapshot, CoverMessageSnapshot}
use claim_it_all.Delivery.Status.{is_operational_channel, is_future_channel}
use claim_it_all.Delivery.Keys.{build_dispatch_snapshot_checksum}
use claim_it_all.Delivery.Validate.{
  Checked, refused, validate_cover_message, validate_recipients_for_dispatch,
}
use claim_it_all.Dispatch.Types.{
  PackageStatus, Preparation, Attachment, ExportBundle, Section, Revision, Package, Snapshot,
  CoverMessage, AuditAction,
}
use claim_it_all.Service.Result.{validation_error, Result, thrown, guard, or_throw, ◌>>=◌, ◌>>◌}
use claim_it_all.Dispatch.Store.{
  Db, write_audit_log, as_capable, load_package, assert_project_mutable, set_package_status,
}
use claim_it_all.Service.Context.{ProjectContext}

-- What the service takes from node:crypto, `JSON.stringify`, `uuid`, the clock and `process.env`.
pub record Surroundings : Type 0 where
  pub sha256_hex : Text → Text
  pub json_attachments : List AttachmentSnapshot → Text
  pub json_recipients : List RecipientSnapshot → Text
  pub uuid : ℕ → Text
  pub now : ℕ
  pub sod_enabled : Bool

-- `DISPATCH_PREP_STATUSES.includes(status)`
abbrev pub is_prep_status : PackageStatus → Bool
is_prep_status PackageStatus.approved = true
is_prep_status PackageStatus.exported = true
is_prep_status PackageStatus.authorization_pending = true
is_prep_status PackageStatus.authorized_for_dispatch = true
is_prep_status PackageStatus.dispatched = true
is_prep_status PackageStatus.delivery_pending = true
is_prep_status PackageStatus.delivery_partial = true
is_prep_status PackageStatus.delivery_confirmed = true
is_prep_status PackageStatus.receipt_unconfirmed = true
is_prep_status PackageStatus.receipt_confirmed = true
is_prep_status PackageStatus.delivery_failed = true
is_prep_status _ = false

-- `a ?? b`
abbrev pub coalesce : {A : Type 0} → Option A → Option A → Option A
coalesce none b = b
coalesce (some a) b = some a

abbrev snapshot_of : Preparation → RecipientSnapshot
snapshot_of prep = record {
  preparation_id = prep.id;
  display_name = or_else (coalesce prep.named_recipient prep.recipient_role) (codes "Recipient");
  email_address = prep.email_address;
  physical_address = prep.physical_address;
  platform_address = prep.platform_address;
  attention_line = prep.attention_line;
  method = or_else (coalesce prep.selected_method prep.permitted_method) [];
  copied_recipient = prep.copied_recipient;
  required = not prep.copied_recipient;
}

-- The loop of `buildRecipientSnapshots`, which fills two arrays: the required and the copied.
pub split_recipients : List Preparation → List RecipientSnapshot × List RecipientSnapshot
split_recipients [] = ([], [])
split_recipients (prep ∷ preps) =
    let (required, copied) = split_recipients preps in
    if prep.copied_recipient
    then (required, snapshot_of prep ∷ copied)
    else (snapshot_of prep ∷ required, copied)

unfoldable pub build_recipient_snapshots :
    List Preparation → List RecipientSnapshot × List RecipientSnapshot
unfolding split_recipients
build_recipient_snapshots preparations =
    split_recipients
      (keep (λ (p : Preparation). text_eq p.verification_status (codes "VERIFIED")) preparations)

abbrev has_format : Text → ExportBundle → Bool
has_format format b = text_eq b.format format

abbrev pub first : {A : Type 0} → List A → Option A
first [] = none
first (x ∷ xs) = some x

unfoldable pub select_export_bundle : List ExportBundle → ℕ → Option ExportBundle
select_export_bundle bundles revision_id =
    let for_revision = keep (λ (b : ExportBundle). b.draft_revision_id == revision_id) bundles in
    coalesce (find (has_format (codes "ATTACHMENT_ZIP")) for_revision)
      (coalesce (find (has_format (codes "PDF")) for_revision) (first for_revision))

abbrev pub checked : {A : Type 0} → Checked A → Result A
checked (Checked.ok a) = Result.ok a
checked (refused reason) = thrown validation_error

module _ (env : Surroundings) where
  open env use {sha256_hex, json_attachments, json_recipients, uuid}

  abbrev attachment_snapshot : Attachment → AttachmentSnapshot
  attachment_snapshot a = record {
    attachment_id = a.id;
    filename = a.external_filename;
    checksum_sha256 = or_else a.checksum_sha256 (sha256_hex a.external_filename);
    sequence = a.sequence;
    mime_type = none;
  }

  unfoldable pub build_attachment_snapshots : List Attachment → List AttachmentSnapshot
  build_attachment_snapshots attachments = map attachment_snapshot attachments

  unfoldable pub revision_notice_checksum : Revision → Text
  revision_notice_checksum revision =
      let sections = sort (λ (a b : Section). leb a.sequence b.sequence) revision.sections in
      let text = join (codes "\n") (map (λ (s : Section). s.body) sections) in
      sha256_hex (if null text then uuid revision.id else text)

  -- `z.infer<typeof CreateSnapshotSchema>`
  pub record CreateSnapshot : Type 0 where
    pub channel : Text
    pub subject : Text
    pub plain_text : Text
    pub html_safe : Option Text

  abbrev pub new_snapshot :
      ProjectContext
      → Package
      → Revision
      → ExportBundle
      → CoverMessageSnapshot
      → Text
      → ℕ
      → Snapshot
  new_snapshot ctx pkg revision bundle cover channel id =
      let (required, copied) = build_recipient_snapshots pkg.delivery_preparations in
      let attachments = build_attachment_snapshots pkg.attachments in
      record {
        id = id;
        tenant_id = ctx.tenant_id;
        project_id = ctx.project_id;
        notice_package_id = pkg.id;
        approved_draft_revision_id = revision.id;
        notice_export_id = bundle.id;
        bundle_checksum = bundle.artifact_checksum;
        notice_checksum = revision_notice_checksum revision;
        attachment_manifest_checksum = sha256_hex (json_attachments attachments);
        template_version = revision.template_version;
        language = pkg.language;
        subject = cover.subject;
        recipient_snapshot = required;
        copied_recipient_snapshot = copied;
        attachment_snapshot = attachments;
        cover_message_snapshot = cover;
        channel = channel;
        created_by_user_id = ctx.user_id;
      }

  abbrev snapshot_checksum : Snapshot → Text
  snapshot_checksum s = build_dispatch_snapshot_checksum sha256_hex (record {
    notice_checksum = s.notice_checksum;
    bundle_checksum = s.bundle_checksum;
    attachment_manifest_checksum = s.attachment_manifest_checksum;
    recipient_snapshot_json = json_recipients (s.recipient_snapshot ++ s.copied_recipient_snapshot);
    cover_checksum = s.cover_message_snapshot.checksum_sha256;
    channel = s.channel;
  })

  abbrev with_snapshot : ProjectContext → Snapshot → Db → Db
  with_snapshot ctx s db =
      let cover : CoverMessage = record {
        snapshot_id = s.id;
        cover = s.cover_message_snapshot;
        created_by_user_id = ctx.user_id;
      } in
      write_audit_log ctx AuditAction.snapshot_create s.id (
        set_package_status s.notice_package_id PackageStatus.authorization_pending (record db {
          next_id = db.next_id + 1;
          snapshots = db.snapshots ++ s ∷ [];
          covers = db.covers ++ cover ∷ [];
        }))

  unfoldable pub create_snapshot_in :
      ProjectContext → ℕ → Option CreateSnapshot → Db → Result ((Snapshot × Text) × Db)
  create_snapshot_in ctx notice_package_id input db = do
    parsed ← or_throw input validation_error
    pkg ← load_package ctx notice_package_id db
    assert_project_mutable pkg.project_status
    guard (is_prep_status pkg.status) validation_error
    revision ← or_throw pkg.active_approved_revision validation_error
    guard (text_eq revision.status (codes "APPROVED")) validation_error
    guard (not (is_future_channel parsed.channel)) validation_error
    guard (is_operational_channel parsed.channel) validation_error
    bundle ← or_throw (select_export_bundle pkg.export_bundles revision.id) validation_error
    cover ←
        checked
          (validate_cover_message sha256_hex parsed.subject parsed.plain_text parsed.html_safe)
    let s = new_snapshot ctx pkg revision bundle cover parsed.channel db.next_id
    checked (validate_recipients_for_dispatch (s.recipient_snapshot ++ s.copied_recipient_snapshot))
    Result.ok ((s, snapshot_checksum s), with_snapshot ctx s db)

  abbrev pub create_dispatch_package_snapshot :
      ProjectContext → ℕ → Option CreateSnapshot → Db → Result (Snapshot × Text) × Db
  create_dispatch_package_snapshot ctx notice_package_id input =
      as_capable ctx notice_dispatch_prepare (create_snapshot_in ctx notice_package_id input)
