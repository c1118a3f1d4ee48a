-- ===== src/Tracking/Events.antt =====
-- `createProjectEvent`, `addProjectEventDate`, `verifyProjectEventDate`, `linkProjectEventEvidence`
-- and `confirmProjectEvent`.
use claim_it_all.Prelude.{
  ℕ, ◌+◌, Bool, true, false, not, ◌&&◌, Option, none, some, List, [], ◌∷◌, ◌++◌, find, update_where,
  ◌==◌,
}
use claim_it_all.Authz.Capabilities.{
  project_event_create, project_event_update, project_event_confirm,
}
use claim_it_all.Service.Result.{
  not_found, conflict, validation_error, Result, ok, or_throw, guard, ◌>>=◌, ◌>>◌,
}
use claim_it_all.Service.Context.{ProjectContext, in_scope}
use claim_it_all.Tracking.Types.{
  EventStatus, EventSource, ConfirmationStatus, CreateProjectEvent, ProjectEvent, DatePrecision,
  VerificationStatus, AddProjectEventDate, ProjectEventDate, LinkProjectEventEvidence,
  ProjectEventEvidence, Reference, AuditAction,
}
use claim_it_all.Tracking.Store.{
  Db, Surroundings, write_audit_log, as_capable, parse_date_value, load_project_event,
}

-- `findFirst({ where: { id, tenantId, projectId } })`, then `if (!row) throw notFound()`.
abbrev pub find_reference : ProjectContext → ℕ → List Reference → Result Reference
find_reference ctx id rows =
    or_throw (find (λ (r : Reference). r.id == id && in_scope ctx r.tenant_id r.project_id) rows)
      not_found

-- The same, below a parent.
abbrev pub find_part : ProjectContext → ℕ → ℕ → List Reference → Result Reference
find_part ctx id parent_id rows =
    or_throw
      (find
        (λ (r : Reference).
          r.id == id && in_scope ctx r.tenant_id r.project_id && r.parent_id == parent_id)
        rows)
      not_found

-- `if (parsed.data.contractPackageId)`
abbrev pub check_package : ProjectContext → Option ℕ → Db → Result (Unit {0})
check_package ctx none db = ok tt
check_package ctx (some id) db = find_reference ctx id db.contract_packages >>= λ _. ok tt

abbrev pub new_event : ProjectContext → CreateProjectEvent → ℕ → ProjectEvent
new_event ctx input id = record {
  id = id;
  tenant_id = ctx.tenant_id;
  project_id = ctx.project_id;
  details = input;
  event_status = EventStatus.draft;
  confirmation_status = ConfirmationStatus.unconfirmed;
  reported_by_user_id = ctx.user_id;
  confirmed_by_user_id = none;
  confirmed_at = none;
  source = EventSource.manual;
}

unfoldable pub create_event_in :
    ProjectContext → Option CreateProjectEvent → Db → Result (ProjectEvent × Db)
create_event_in ctx input db = do
  parsed ← or_throw input validation_error
  checked ← check_package ctx parsed.contract_package_id db
  let created = new_event ctx parsed db.next_id
  ok (
    created,
    write_audit_log ctx AuditAction.event_created created.id
        (record db { next_id = db.next_id + 1; events = db.events ++ created ∷ [] }),
  )

abbrev pub create_project_event :
    ProjectContext → Option CreateProjectEvent → Db → Result ProjectEvent × Db
create_project_event ctx input = as_capable ctx project_event_create (create_event_in ctx input)

abbrev pub new_date : ProjectContext → ℕ → AddProjectEventDate → ℕ → ℕ → ProjectEventDate
new_date ctx event_id input at id = record {
  id = id;
  tenant_id = ctx.tenant_id;
  project_id = ctx.project_id;
  project_event_id = event_id;
  date_type = input.date_type;
  date_value = at;
  timezone = input.timezone;
  precision = input.precision;
  notes = input.notes;
  asserted_by_user_id = ctx.user_id;
  verification_status = VerificationStatus.unverified;
  verified_by_user_id = none;
  verified_at = none;
}

unfoldable pub add_date_in :
    Surroundings
    → ProjectContext
    → ℕ
    → Option AddProjectEventDate
    → Db
    → Result (ProjectEventDate × Db)
add_date_in env ctx event_id input db = do
  parsed ← or_throw input validation_error
  event ← load_project_event ctx event_id db
  at ← parse_date_value env parsed.date_value
  let created = new_date ctx event_id parsed at db.next_id
  ok (
    created,
    write_audit_log ctx AuditAction.date_added created.id
        (record db { next_id = db.next_id + 1; dates = db.dates ++ created ∷ [] }),
  )

abbrev pub add_project_event_date :
    Surroundings
    → ProjectContext
    → ℕ
    → Option AddProjectEventDate
    → Db
    → Result ProjectEventDate × Db
add_project_event_date env ctx event_id input =
    as_capable ctx project_event_update (add_date_in env ctx event_id input)

abbrev pub is_verified : VerificationStatus → Bool
is_verified VerificationStatus.verified = true
is_verified _ = false

-- `['EXACT_DATE', 'EXACT_DATETIME'].includes(precision)`
abbrev pub is_exact : DatePrecision → Bool
is_exact DatePrecision.exact_date = true
is_exact DatePrecision.exact_datetime = true
is_exact _ = false

abbrev pub is_date_of : ProjectContext → ℕ → ℕ → ProjectEventDate → Bool
is_date_of ctx event_id date_id d =
    d.id == date_id && in_scope ctx d.tenant_id d.project_id && d.project_event_id == event_id

abbrev pub verify_date : ProjectContext → ℕ → ProjectEventDate → ProjectEventDate
verify_date ctx now d = record d {
  verification_status = VerificationStatus.verified;
  verified_by_user_id = some ctx.user_id;
  verified_at = some now;
}

unfoldable pub verify_date_in : ℕ → ProjectContext → ℕ → ℕ → Db → Result (ProjectEventDate × Db)
verify_date_in now ctx event_id date_id db = do
  date ← or_throw (find (is_date_of ctx event_id date_id) db.dates) not_found
  guard (not (is_verified date.verification_status)) conflict
  guard (is_exact date.precision) validation_error
  ok (
    verify_date ctx now date,
    write_audit_log ctx AuditAction.date_verified date.id (record db {
      dates =
          update_where (λ (d : ProjectEventDate). d.id == date.id) (verify_date ctx now) db.dates;
    }),
  )

abbrev pub verify_project_event_date :
    ℕ → ProjectContext → ℕ → ℕ → Db → Result ProjectEventDate × Db
verify_project_event_date now ctx event_id date_id =
    as_capable ctx project_event_confirm (verify_date_in now ctx event_id date_id)

-- `if (parsed.data.evidenceSegmentId)`
abbrev pub check_segment : ProjectContext → Option ℕ → ℕ → Db → Result (Unit {0})
check_segment ctx none version_id db = ok tt
check_segment ctx (some id) version_id db =
    find_part ctx id version_id db.evidence_segments >>= λ _. ok tt

abbrev pub new_evidence : ProjectContext → ℕ → LinkProjectEventEvidence → ℕ → ProjectEventEvidence
new_evidence ctx event_id input id = record {
  id = id;
  tenant_id = ctx.tenant_id;
  project_id = ctx.project_id;
  project_event_id = event_id;
  details = input;
  linked_by_user_id = ctx.user_id;
}

unfoldable pub link_evidence_in :
    ProjectContext → ℕ → Option LinkProjectEventEvidence → Db → Result (ProjectEventEvidence × Db)
link_evidence_in ctx event_id input db = do
  parsed ← or_throw input validation_error
  event ← load_project_event ctx event_id db
  source ← find_reference ctx parsed.source_document_id db.source_documents
  version ← find_part ctx parsed.document_version_id source.id db.document_versions
  checked ← check_segment ctx parsed.evidence_segment_id version.id db
  let linked = new_evidence ctx event_id parsed db.next_id
  ok (
    linked,
    write_audit_log ctx AuditAction.evidence_linked linked.id
        (record db { next_id = db.next_id + 1; evidence = db.evidence ++ linked ∷ [] }),
  )

abbrev pub link_project_event_evidence :
    ProjectContext → ℕ → Option LinkProjectEventEvidence → Db → Result ProjectEventEvidence × Db
link_project_event_evidence ctx event_id input =
    as_capable ctx project_event_update (link_evidence_in ctx event_id input)

-- `UNCONFIRMED` or `INSUFFICIENT_EVIDENCE`
abbrev pub can_confirm : ConfirmationStatus → Bool
can_confirm ConfirmationStatus.unconfirmed = true
can_confirm ConfirmationStatus.insufficient_evidence = true
can_confirm _ = false

-- The two statuses that `ConfirmProjectEventSchema` allows.
pub data Confirmation : Type 0 where
  for_deadline_analysis fact : Confirmation

abbrev pub status_of : Confirmation → ConfirmationStatus
status_of for_deadline_analysis = ConfirmationStatus.confirmed_for_deadline_analysis
status_of fact = ConfirmationStatus.confirmed_fact

abbrev pub confirm_event : ProjectContext → ℕ → Confirmation → ProjectEvent → ProjectEvent
confirm_event ctx now confirmation e = record e {
  confirmation_status = status_of confirmation;
  event_status = EventStatus.confirmed;
  confirmed_by_user_id = some ctx.user_id;
  confirmed_at = some now;
}

unfoldable pub confirm_event_in :
    ℕ → ProjectContext → ℕ → Option Confirmation → Db → Result (ProjectEvent × Db)
confirm_event_in now ctx event_id input db = do
  parsed ← or_throw input validation_error
  event ← load_project_event ctx event_id db
  guard (can_confirm event.confirmation_status) conflict
  ok (
    confirm_event ctx now parsed event,
    write_audit_log ctx AuditAction.event_confirmed event.id (record db {
      events =
          update_where (λ (e : ProjectEvent). e.id == event.id) (confirm_event ctx now parsed)
            db.events;
    }),
  )

abbrev pub confirm_project_event :
    ℕ → ProjectContext → ℕ → Option Confirmation → Db → Result ProjectEvent × Db
confirm_project_event now ctx event_id input =
    as_capable ctx project_event_confirm (confirm_event_in now ctx event_id input)
