-- ===== src/Dispatch/Tests.antt =====
-- Requests on a database with one package.
use claim_it_all.Prelude.{
  ℕ, Some, map, keep, true, false, none, some, List, [], ◌∷◌, ◌≡◌, refl, arith, All, ◌==◌,
}
use claim_it_all.Prelude.Text.{codes}
use claim_it_all.Authz.Permissions.{has_capability}
use claim_it_all.Delivery.Types.{ReceiptStatus, ContractualServiceStatus}
use claim_it_all.Delivery.Status.{aggregate_recipient_status}
use claim_it_all.Dispatch.Types.{Recipient, ProviderEvent, ReceiptAssessment}
use claim_it_all.Dispatch.Receipts.{service_row, confirm_in, confirm_contractual_service}
use claim_it_all.Dispatch.Confirm.{Confirmed, confirm_contractual_service-Confirms}
use claim_it_all.Authz.Roles.{ProjectStatus}
use claim_it_all.Authz.Capabilities.{
  is_same, notice_dispatch_authorize, notice_dispatch_send, notice_receipt_confirm,
}
use claim_it_all.Delivery.Types.{AuthorizationStatus, AttemptStatus, CoverMessageSnapshot}
use claim_it_all.Delivery.Receipt.{assert_authorization_dispatchable}
use claim_it_all.Dispatch.Types.{PackageStatus, Package, Snapshot, Authorization, Attempt}
use claim_it_all.Service.Result.{ok}
use claim_it_all.Dispatch.Store.{
  Db, as_capable, load_package, assert_project_mutable, find_authorization,
}
use claim_it_all.Service.Context.{ProjectContext}
use claim_it_all.Dispatch.Snapshot.{Surroundings}
use claim_it_all.Dispatch.Authorization.{
  AuthorizeInput, authorize_row, authorize_in, authorize_dispatch,
}
use claim_it_all.Dispatch.Provider.{Outcome, WebhookParseResult, Provider}
use claim_it_all.Dispatch.Rows.{new_attempt}
use claim_it_all.Dispatch.Send.{message_for, send_in, sent_attempt, send_approved_notice_email}
use claim_it_all.Dispatch.Guards.{
  Authorizes, authorize_dispatch-Authorizes, Sends, send_approved_notice_email-Sends,
}
use claim_it_all.Dispatch.Once.{IsSound}
use claim_it_all.Dispatch.Reach.{Step, done, next, Steps-IsSound}
use claim_it_all.Dispatch.Webhook.{
  duplicate, reported, status_of_attempt, after_event, process_event,
}
use claim_it_all.Dispatch.Webhook.Laws.{process_event_twice, process_event_status}

abbrev env : Surroundings
env = record {
  sha256_hex = λ t. t;
  json_attachments = λ xs. [];
  json_recipients = λ rs. [];
  uuid = λ n. n ∷ [];
  now = 100;
  sod_enabled = true;
}

abbrev ctx : ProjectContext
ctx = record {
  tenant_id = 1;
  project_id = 2;
  user_id = 9;
  capabilities = notice_dispatch_authorize ∷ notice_dispatch_send ∷ [];
}

abbrev cover : CoverMessageSnapshot
cover = record {
  subject = codes "Notice";
  plain_text = codes "Body";
  html_safe = none;
  checksum_sha256 = codes "c";
}

abbrev snapshot : Snapshot
snapshot = record {
  id = 4;
  tenant_id = 1;
  project_id = 2;
  notice_package_id = 3;
  approved_draft_revision_id = 0;
  notice_export_id = 0;
  bundle_checksum = codes "b";
  notice_checksum = codes "n";
  attachment_manifest_checksum = codes "m";
  template_version = codes "1";
  language = codes "en";
  subject = codes "Notice";
  recipient_snapshot = [];
  copied_recipient_snapshot = [];
  attachment_snapshot = [];
  cover_message_snapshot = cover;
  channel = codes "CONTROLLED_EMAIL";
  created_by_user_id = 7;
}

abbrev package_3 : Package
package_3 = record {
  id = 3;
  tenant_id = 1;
  project_id = 2;
  status = PackageStatus.authorization_pending;
  active_approved_revision = none;
  delivery_preparations = [];
  attachments = [];
  export_bundles = [];
  project_status = ProjectStatus.active;
  language = codes "en";
  sod_enforced = true;
}

abbrev requested : Authorization
requested = record {
  id = 5;
  tenant_id = 1;
  project_id = 2;
  notice_package_id = 3;
  dispatch_package_snapshot = snapshot;
  requested_by_user_id = 8;
  authorized_by_user_id = none;
  authorized_at = none;
  reviewed_by_user_id = none;
  reviewed_at = none;
  status = AuthorizationStatus.requested;
  selected_channel = codes "CONTROLLED_EMAIL";
  recipient_count = 0;
  copied_recipient_count = 0;
  rationale = none;
  recipients_reviewed = false;
  method_reviewed = false;
  attachments_reviewed = false;
  deadline_reviewed = false;
  scope_reviewed = false;
  delivery_risk_acknowledged = false;
  expires_at = none;
}

abbrev checks : AuthorizeInput
checks = record {
  recipients_reviewed = true;
  method_reviewed = true;
  attachments_reviewed = true;
  deadline_reviewed = true;
  scope_reviewed = true;
  delivery_risk_acknowledged = true;
  rationale = none;
  expires_at = some 200;
}

abbrev store : Authorization → List Attempt → Db
store auth attempts = record {
  next_id = 10;
  packages = package_3 ∷ [];
  snapshots = snapshot ∷ [];
  covers = [];
  authorizations = auth ∷ [];
  attempts = attempts;
  recipients = [];
  manual_records = [];
  events = [];
  evidence = [];
  acknowledgments = [];
  assessments = [];
  deemed = [];
  audit = [];
}

abbrev authorized : Authorization
authorized = authorize_row env ctx checks requested

abbrev fake : Provider
fake = record {
  kind = codes "fake";
  is_configured = true;
  send_message = λ m. record {
    provider_message_id = some (codes "m1");
    provider_submission_id = none;
    sent_at = some 100;
    recipients = [];
    outcome = Outcome.accepted;
  };
  verify_webhook = none;
  parse_webhook_event = none;
}

requested-store-IsSound : IsSound (store requested [])
requested-store-IsSound = record { rows = ((omega arith, refl), tt); bounded = tt }

authorized-store-IsSound : IsSound (store authorized [])
authorized-store-IsSound = record { rows = ((omega arith, refl), tt); bounded = tt }

authorize_dispatch-Authorizes_example :
    (c : AuthorizeInput) × (pkg : Package) × (before : Authorization) × (some checks ≡ some c)
    × (load_package ctx 3 (store requested []) ≡ ok pkg)
    × (find_authorization ctx 3 5 (store requested []) ≡ ok before)
    × Authorizes env ctx before authorized c pkg
unfolding authorize_in as_capable load_package find_authorization assert_project_mutable is_same
authorize_dispatch-Authorizes_example =
    authorize_dispatch-Authorizes env ctx 3 5 (some checks) (store requested [])
      (authorize_dispatch env ctx 3 5 (some checks) (store requested [])).1 authorized refl

abbrev first_attempt : Attempt
first_attempt = record {
  id = 10;
  tenant_id = 1;
  project_id = 2;
  notice_package_id = 3;
  dispatch_authorization_id = 5;
  dispatch_package_snapshot_id = 4;
  attempt_number = 1;
  channel = codes "CONTROLLED_EMAIL";
  provider = codes "fake";
  status = AttemptStatus.failed;
  initiated_by_user_id = 9;
  idempotency_key = [];
  started_at = some 100;
  completed_at = some 100;
  provider_message_id = some (codes "m1");
  provider_submission_id = none;
  retry_class = none;
  failure_code = none;
}

-- The authorization is requested, granted and used.
Steps-IsSound_example :
    IsSound
      (send_approved_notice_email env
        (some fake)
        ctx
        3
        5
        (authorize_dispatch env ctx 3 5 (some checks) (store requested [])).1).1
Steps-IsSound_example =
    Steps-IsSound
      (next (Step.authorize env ctx 3 5 (some checks))
        (next (Step.send env (some fake) ctx 3 5) done))
      requested-store-IsSound

abbrev delivery : WebhookParseResult
delivery = record {
  provider_event_id = codes "e1";
  provider_message_id = codes "m1";
  event_type = codes "delivered";
  occurred_at = 300;
  recipient_statuses = [];
}

abbrev reported_status : AttemptStatus
reported_status = status_of_attempt 10 []

process_event_twice_example :
    process_event
      (codes "fake")
      delivery
      (after_event (codes "fake") delivery first_attempt (store authorized (first_attempt ∷ [])))
    ≡ ok (
      duplicate,
      after_event (codes "fake") delivery first_attempt (store authorized (first_attempt ∷ [])),
    )
unfolding process_event reported
process_event_twice_example =
    process_event_twice (codes "fake") delivery (store authorized (first_attempt ∷ []))
      reported_status
      (after_event (codes "fake") delivery first_attempt (store authorized (first_attempt ∷ [])))
      refl

abbrev told : Db
told = after_event (codes "fake") delivery first_attempt (store authorized (first_attempt ∷ []))

process_event_status_example :
    (id : ℕ) × Some
      (λ (t : Attempt). (t.id ≡ id) × (t.provider_message_id ≡ some delivery.provider_message_id))
      (store authorized (first_attempt ∷ [])).attempts
    × (reported_status
        ≡ aggregate_recipient_status (
            map
              (λ (r : Recipient). r.status)
              (keep (λ (r : Recipient). r.dispatch_attempt_id == id) told.recipients)))
    × All (λ (t : Attempt). t.id ≡ id → t.status ≡ reported_status) told.attempts
    × Some
        (λ (e : ProviderEvent).
          (e.provider ≡ codes "fake")
          × (e.provider_event_id ≡ delivery.provider_event_id)
          × (e.dispatch_attempt_id ≡ id))
        told.events
unfolding process_event reported
process_event_status_example =
    process_event_status (codes "fake") delivery (store authorized (first_attempt ∷ []))
      reported_status told refl

abbrev made : Attempt
made =
    new_attempt env ctx authorized (codes "fake") AttemptStatus.prepared none (store authorized [])

abbrev sent : Attempt
sent =
    sent_attempt env ctx authorized made
      (fake.send_message (message_for authorized made.idempotency_key)) (store authorized [])

send_approved_notice_email-Sends_example :
    (pkg : Package) × (auth : Authorization) × (p : Provider) × (load_package ctx 3
        (store authorized [])
      ≡ ok pkg)
    × (find_authorization ctx 3 5 (store authorized []) ≡ ok auth)
    × (some fake ≡ some p)
    × Sends env ctx auth sent pkg p
unfolding send_in as_capable load_package find_authorization assert_project_mutable is_same
    assert_authorization_dispatchable
send_approved_notice_email-Sends_example =
    send_approved_notice_email-Sends env (some fake) ctx 3 5 (store authorized [])
      (send_approved_notice_email env (some fake) ctx 3 5 (store authorized [])).1 sent
      authorized-store-IsSound refl

abbrev confirmer : ProjectContext
confirmer = record ctx { user_id = 8; capabilities = notice_receipt_confirm ∷ [] }

abbrev assessed : ReceiptAssessment
assessed = record {
  id = 6;
  tenant_id = 1;
  project_id = 2;
  notice_package_id = 3;
  details = record {
    attempt_id = 10;
    recipient_id = none;
    receipt_status = ReceiptStatus.delivered;
    receipt_at = none;
    source = none;
    evidence_id = none;
    deemed_receipt_rule = none;
    rationale = none;
  };
  deemed_receipt_result = none;
  contractual_service_status = ContractualServiceStatus.not_assessed;
  reviewed_by_user_id = 9;
  reviewed_at = 50;
  rationale = none;
}

abbrev assessed_store : Db
assessed_store = record (store authorized (first_attempt ∷ [])) { assessments = assessed ∷ [] }

confirm_contractual_service-Confirms_example :
    (has_capability confirmer.capabilities notice_receipt_confirm ≡ true)
    × Confirmed env confirmer 3
        (some (6, none))
        assessed_store
        (service_row env confirmer none assessed)
        (confirm_contractual_service env confirmer 3 (some (6, none)) assessed_store).1
unfolding confirm_in as_capable load_package is_same
confirm_contractual_service-Confirms_example =
    confirm_contractual_service-Confirms env confirmer 3 (some (6, none)) assessed_store
      (service_row env confirmer none assessed)
      (confirm_contractual_service env confirmer 3 (some (6, none)) assessed_store).1 refl
