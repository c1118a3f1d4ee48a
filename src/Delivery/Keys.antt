-- ===== src/Delivery/Keys.antt =====
-- `buildIdempotencyKey` and `buildDispatchSnapshotChecksum` of packages/notice-delivery/src/domain.ts.
pub mod Laws
use claim_it_all.Prelude.{ℕ, List, [], ◌∷◌, ◌++◌}
use claim_it_all.Prelude.Text.{Text, codes, join, decimal, text_le}
use claim_it_all.Prelude.Sorting.{sort}

pub record ChecksumParts : Type 0 where
  pub notice_checksum : Text
  pub bundle_checksum : Text
  pub attachment_manifest_checksum : Text
  pub recipient_snapshot_json : Text
  pub cover_checksum : Text
  pub channel : Text

abbrev pub bar : Text
bar = codes "|"

-- Hashing is the runtime's (node:crypto).
module _ (sha256_hex : Text → Text) where
  unfoldable pub build_idempotency_key : Text → Text → ℕ → List Text → Text
  build_idempotency_key authorization_id channel attempt_number recipient_preparation_ids =
      let recipients = join (codes ",") (sort text_le recipient_preparation_ids) in
      sha256_hex (join bar (authorization_id ∷ channel ∷ decimal attempt_number ∷ recipients ∷ []))

  unfoldable pub build_dispatch_snapshot_checksum : ChecksumParts → Text
  build_dispatch_snapshot_checksum parts = sha256_hex (
      join bar (
        parts.notice_checksum
        ∷ parts.bundle_checksum
        ∷ parts.attachment_manifest_checksum
        ∷ sha256_hex parts.recipient_snapshot_json
        ∷ parts.cover_checksum
        ∷ parts.channel
        ∷ []))
