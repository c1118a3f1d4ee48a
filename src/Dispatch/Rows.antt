-- ===== src/Dispatch/Rows.antt =====
-- The rows of a dispatch: the attempt and its recipients.
use claim_it_all.Prelude.{
  ℕ, ◌+◌, true, false, Option, none, some, List, [], ◌∷◌, ◌++◌, map, find, keep, length, ◌==◌,
}
use claim_it_all.Prelude.Text.{Text, codes, text_eq}
use claim_it_all.Delivery.Types.{AttemptStatus, RecipientStatus, RecipientSnapshot}
use claim_it_all.Delivery.Keys.{build_idempotency_key}
use claim_it_all.Dispatch.Types.{Authorization, Attempt, Recipient}
use claim_it_all.Dispatch.Store.{Db}
use claim_it_all.Service.Context.{ProjectContext}
use claim_it_all.Dispatch.Snapshot.{Surroundings, coalesce}
use claim_it_all.Dispatch.Provider.{
  ProviderRecipientResult, ProviderSendResult, map_provider_recipient_status,
}

abbrev pub attempts_of : ℕ → Db → List Attempt
attempts_of authorization_id db =
    keep (λ (a : Attempt). a.dispatch_authorization_id == authorization_id) db.attempts

abbrev pub recipients_of : Authorization → List RecipientSnapshot
recipients_of auth =
    auth.dispatch_package_snapshot.recipient_snapshot
    ++ auth.dispatch_package_snapshot.copied_recipient_snapshot

abbrev pub idempotency_key_of : Surroundings → Authorization → ℕ → Text
idempotency_key_of env auth attempt_number =
    build_idempotency_key env.sha256_hex (env.uuid auth.id) auth.selected_channel attempt_number
      (map (λ (r : RecipientSnapshot). r.preparation_id) (recipients_of auth))

-- The attempt as it is created, and the test of the table's unique keys.
abbrev pub new_attempt :
    Surroundings → ProjectContext → Authorization → Text → AttemptStatus → Option ℕ → Db → Attempt
new_attempt env ctx auth provider status at db =
    let attempt_number = length (attempts_of auth.id db) + 1 in
    record {
      id = db.next_id;
      tenant_id = ctx.tenant_id;
      project_id = ctx.project_id;
      notice_package_id = auth.notice_package_id;
      dispatch_authorization_id = auth.id;
      dispatch_package_snapshot_id = auth.dispatch_package_snapshot.id;
      attempt_number = attempt_number;
      channel = auth.selected_channel;
      provider = provider;
      status = status;
      initiated_by_user_id = ctx.user_id;
      idempotency_key = idempotency_key_of env auth attempt_number;
      started_at = at;
      completed_at = at;
      provider_message_id = none;
      provider_submission_id = none;
      retry_class = none;
      failure_code = none;
    }

abbrev pub address_of : RecipientSnapshot → Option Text
address_of r = coalesce r.email_address (coalesce r.physical_address r.platform_address)

-- The row for a recipient of the provider's answer, with the snapshot that was found for it.
abbrev pub sent_row :
    ProjectContext
    → Authorization
    → ℕ
    → ProviderSendResult
    → ProviderRecipientResult
    → Option RecipientSnapshot
    → ℕ
    → Recipient
sent_row ctx auth attempt_id result r none id = record {
  id = id;
  tenant_id = ctx.tenant_id;
  project_id = ctx.project_id;
  dispatch_attempt_id = attempt_id;
  preparation_id = r.preparation_id;
  display_name = codes "Recipient";
  address_or_email = none;
  copied_recipient = false;
  required_recipient = true;
  method = auth.selected_channel;
  status = map_provider_recipient_status r.status;
  provider_recipient_id = r.provider_recipient_id;
  failure_reason = r.failure_reason;
  sent_at = result.sent_at;
  delivered_at = none;
  acknowledged_at = none;
}
sent_row ctx auth attempt_id result r (some prep) id = record {
  id = id;
  tenant_id = ctx.tenant_id;
  project_id = ctx.project_id;
  dispatch_attempt_id = attempt_id;
  preparation_id = r.preparation_id;
  display_name = prep.display_name;
  address_or_email = address_of prep;
  copied_recipient = prep.copied_recipient;
  required_recipient = prep.required;
  method = prep.method;
  status = map_provider_recipient_status r.status;
  provider_recipient_id = r.provider_recipient_id;
  failure_reason = r.failure_reason;
  sent_at = result.sent_at;
  delivered_at = none;
  acknowledged_at = none;
}

unfoldable pub sent_rows :
    ProjectContext
    → Authorization
    → ℕ
    → ProviderSendResult
    → List ProviderRecipientResult
    → ℕ
    → List Recipient
sent_rows ctx auth attempt_id result [] id = []
sent_rows ctx auth attempt_id result (r ∷ rs) id =
    let prep =
      find (λ (p : RecipientSnapshot). text_eq p.preparation_id r.preparation_id)
        (recipients_of auth) in
    sent_row ctx auth attempt_id result r prep id ∷ sent_rows ctx auth attempt_id result rs (id + 1)

unfoldable pub manual_rows : ProjectContext → ℕ → Text → List RecipientSnapshot → ℕ → List Recipient
manual_rows ctx attempt_id method [] id = []
manual_rows ctx attempt_id method (prep ∷ preps) id =
    (record {
      id = id;
      tenant_id = ctx.tenant_id;
      project_id = ctx.project_id;
      dispatch_attempt_id = attempt_id;
      preparation_id = prep.preparation_id;
      display_name = prep.display_name;
      address_or_email = address_of prep;
      copied_recipient = prep.copied_recipient;
      required_recipient = prep.required;
      method = method;
      status = RecipientStatus.manually_confirmed;
      provider_recipient_id = none;
      failure_reason = none;
      sent_at = none;
      delivered_at = none;
      acknowledged_at = none;
    })
    ∷ manual_rows ctx attempt_id method preps (id + 1)
