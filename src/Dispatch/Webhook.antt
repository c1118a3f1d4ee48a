-- ===== src/Dispatch/Webhook.antt =====
-- `processDeliveryWebhook`: a provider's report on the recipients of an attempt.
pub mod Laws
use claim_it_all.Prelude.{
  ℕ, ◌+◌, Bool, true, false, ◌&&◌, Option, none, some, List, [], ◌∷◌, ◌++◌, map, any, find, keep,
  update_where, ◌==◌, if◌then◌else◌,
}
use claim_it_all.Prelude.Text.{Text, text_eq}
use claim_it_all.Delivery.Types.{AttemptStatus, RecipientStatus}
use claim_it_all.Delivery.Status.{aggregate_recipient_status}
use claim_it_all.Dispatch.Types.{Attempt, Recipient, ProviderEvent}
use claim_it_all.Service.Result.{
  Error, not_found, validation_error, Result, ok, thrown, guard, or_throw, ◌>>=◌, ◌>>◌,
}
use claim_it_all.Dispatch.Store.{Db, set_package_status, update_attempt}
use claim_it_all.Service.Context.{with_tenant_transaction}
use claim_it_all.Dispatch.Provider.{
  ProviderRecipientResult, WebhookParseResult, Webhook, Provider, map_provider_recipient_status,
  map_attempt_to_package_status,
}

pub data Answer : Type 0 where
  duplicate : Answer
  processed : AttemptStatus → Answer

abbrev pub has_message_id : Text → Option Text → Bool
has_message_id message_id none = false
has_message_id message_id (some id) = text_eq id message_id

abbrev pub is_attempt_for : WebhookParseResult → Attempt → Bool
is_attempt_for parsed t = has_message_id parsed.provider_message_id t.provider_message_id

-- The unique key `provider_providerEventId`.
abbrev pub is_event : Text → WebhookParseResult → ProviderEvent → Bool
is_event kind parsed e =
    text_eq e.provider kind && text_eq e.provider_event_id parsed.provider_event_id

abbrev pub new_event : Text → WebhookParseResult → Attempt → ℕ → ProviderEvent
new_event kind parsed attempt id = record {
  id = id;
  tenant_id = attempt.tenant_id;
  project_id = attempt.project_id;
  provider = kind;
  provider_event_id = parsed.provider_event_id;
  provider_message_id = parsed.provider_message_id;
  event_type = parsed.event_type;
  occurred_at = parsed.occurred_at;
  dispatch_attempt_id = attempt.id;
}

-- `status === 'DELIVERED' ? new Date(occurredAt) : recipient.deliveredAt`
abbrev delivered_at : RecipientStatus → ℕ → Option ℕ → Option ℕ
delivered_at RecipientStatus.delivered at before = some at
delivered_at _ at before = before

-- One turn of the loop, with the recipient that `attempt.recipients` has for the result.
abbrev report_one : ℕ → ProviderRecipientResult → Option Recipient → List Recipient → List Recipient
report_one at rs none rows = rows
report_one at rs (some recipient) rows =
    let status = map_provider_recipient_status rs.status in
    update_where (λ (r : Recipient). r.id == recipient.id)
      (λ r. record r {
        status = status;
        delivered_at = delivered_at status at recipient.delivered_at;
      })
      rows

-- `loaded` are the recipients as they were before the loop.
pub report : ℕ → List Recipient → List ProviderRecipientResult → List Recipient → List Recipient
report at loaded [] rows = rows
report at loaded (rs ∷ results) rows = report at loaded results (
    report_one at rs (find (λ (r : Recipient). text_eq r.preparation_id rs.preparation_id) loaded)
      rows)

abbrev pub recipients_of_attempt : ℕ → List Recipient → List Recipient
recipients_of_attempt attempt_id rows =
    keep (λ (r : Recipient). r.dispatch_attempt_id == attempt_id) rows

abbrev pub status_of_attempt : ℕ → List Recipient → AttemptStatus
status_of_attempt attempt_id rows =
    aggregate_recipient_status
      (map (λ (r : Recipient). r.status) (recipients_of_attempt attempt_id rows))

unfoldable pub reported : WebhookParseResult → Attempt → List Recipient → List Recipient
unfolding report
reported parsed attempt rows =
    report parsed.occurred_at (recipients_of_attempt attempt.id rows) parsed.recipient_statuses rows

abbrev pub with_status : AttemptStatus → Attempt → Attempt
with_status status t = record t { status = status }

abbrev pub after_event : Text → WebhookParseResult → Attempt → Db → Db
after_event kind parsed attempt db =
    let rows = reported parsed attempt db.recipients in
    let status = status_of_attempt attempt.id rows in
    set_package_status attempt.notice_package_id (map_attempt_to_package_status status) (
      update_attempt attempt.id (with_status status) (record db {
        next_id = db.next_id + 1;
        events = db.events ++ new_event kind parsed attempt db.next_id ∷ [];
        recipients = rows;
      }))

-- `if (existing) return { duplicate: true }`
abbrev pub answered : Text → WebhookParseResult → Attempt → Db → Bool → Answer × Db
answered kind parsed attempt db true = (duplicate, db)
answered kind parsed attempt db false = (
  processed (status_of_attempt attempt.id (reported parsed attempt db.recipients)),
  after_event kind parsed attempt db,
)

-- The transaction, once the event is parsed.
unfoldable pub process_event : Text → WebhookParseResult → Db → Result (Answer × Db)
process_event kind parsed db = do
  lookup ← or_throw (find (is_attempt_for parsed) db.attempts) not_found
  attempt ← or_throw (find (λ (t : Attempt). t.id == lookup.id) db.attempts) not_found
  ok (answered kind parsed attempt db (any (is_event kind parsed) db.events))

unfoldable pub process_in : Option Provider → Text → Webhook → Db → Result (Answer × Db)
process_in provider kind webhook db = do
  p ← or_throw provider validation_error
  guard (text_eq p.kind kind) validation_error
  verify ← or_throw p.verify_webhook validation_error
  parse ← or_throw p.parse_webhook_event validation_error
  guard (verify webhook) validation_error
  process_event kind (parse webhook.raw_body) db

abbrev pub process_delivery_webhook : Option Provider → Text → Webhook → Db → Result Answer × Db
process_delivery_webhook provider kind webhook db =
    with_tenant_transaction (process_in provider kind webhook db) db
