-- ===== src/Delivery/Status.antt =====
-- packages/notice-delivery/src/domain.ts: channels, and the status of an attempt from those of its
-- recipients.
pub mod Laws
use claim_it_all.Prelude.{
  Bool, true, false, ◌&&◌, List, [], all, any, null, same, distinct, if◌then◌else◌,
}
use claim_it_all.Prelude.Text.{Text, codes, text_eq, starts_with}
use claim_it_all.Delivery.Types.{
  AttemptStatus, RecipientStatus, RecipientStatus-discrete, operational_channels,
}

unfoldable pub is_operational_channel : Text → Bool
is_operational_channel channel = any (text_eq channel) operational_channels

unfoldable pub is_future_channel : Text → Bool
is_future_channel channel = starts_with (codes "FUTURE_") channel

abbrev pub status_eq : RecipientStatus → RecipientStatus → Bool
status_eq = same RecipientStatus-discrete

-- `DELIVERED`, `ACKNOWLEDGED` or `MANUALLY_CONFIRMED`.
abbrev pub is_confirmed : RecipientStatus → Bool
is_confirmed RecipientStatus.delivered = true
is_confirmed RecipientStatus.acknowledged = true
is_confirmed RecipientStatus.manually_confirmed = true
is_confirmed _ = false

-- `SENT`, or confirmed.
abbrev pub is_sent : RecipientStatus → Bool
is_sent RecipientStatus.sent = true
is_sent RecipientStatus.delivered = true
is_sent RecipientStatus.acknowledged = true
is_sent RecipientStatus.manually_confirmed = true
is_sent _ = false

abbrev pub is_failure : RecipientStatus → Bool
is_failure RecipientStatus.failed = true
is_failure RecipientStatus.bounced = true
is_failure RecipientStatus.rejected = true
is_failure _ = false

-- What stands beside a success in a partial delivery.
abbrev pub is_failed_or_open : RecipientStatus → Bool
is_failed_or_open RecipientStatus.failed = true
is_failed_or_open RecipientStatus.bounced = true
is_failed_or_open RecipientStatus.rejected = true
is_failed_or_open RecipientStatus.pending = true
is_failed_or_open RecipientStatus.unknown = true
is_failed_or_open _ = false

abbrev pub is_submitted : RecipientStatus → Bool
is_submitted RecipientStatus.submitted = true
is_submitted _ = false

abbrev pub is_pending : RecipientStatus → Bool
is_pending RecipientStatus.pending = true
is_pending _ = false

unfoldable pub aggregate_recipient_status : List RecipientStatus → AttemptStatus
aggregate_recipient_status statuses =
    let set = distinct status_eq statuses in
    if null statuses
    then AttemptStatus.failed
    else if all is_confirmed set
    then AttemptStatus.delivered
    else if all is_sent set
    then AttemptStatus.sent
    else if all is_failure set
    then AttemptStatus.failed
    else if any is_sent statuses && any is_failed_or_open statuses
    then AttemptStatus.partially_delivered
    else if all is_submitted statuses
    then AttemptStatus.submitted
    else if all is_pending statuses
    then AttemptStatus.prepared
    else AttemptStatus.delivery_pending
