-- ===== src/Tracking/Store.antt =====
-- The tables of the deadline service, and what its bodies share.
use claim_it_all.Prelude.{
  ℕ, Bool, false, ◌&&◌, Option, none, some, List, [], ◌∷◌, ◌++◌, ◌==◌, find, or_else,
}
use claim_it_all.Prelude.Text.{Text, codes}
use claim_it_all.Prelude.Json.{Json, has_field}
use claim_it_all.Authz.Capabilities.{Capability}
use claim_it_all.Service.Result.{
  not_found, validation_error, invalid_date, Result, ok, thrown, or_throw, guard,
}
use claim_it_all.Service.Context.{ProjectContext, in_scope, with_capability}
use claim_it_all.Deadline.Types.{CalendarRevision}
use claim_it_all.Deadline.Luxon.{Luxon, Zod}
use claim_it_all.Tracking.Types.{
  ProjectEvent, ProjectEventDate, ProjectEventEvidence, Reference, RuleSnapshot,
  ConfigurationRevision, EventRuleAssessment, ProjectCalendar, ProjectCalendarRevision, RawInput,
  DeadlineCalculation, DeadlineMilestone, ProjectDeadline, StatusHistory, AuditAction, AuditRow,
}

-- `next_id` is the next of the fresh identifiers that the database gives its new rows. The service
-- only reads the tables from `contract_packages` on.
pub record Db : Type 0 where
  pub next_id : ℕ
  pub events : List ProjectEvent
  pub dates : List ProjectEventDate
  pub evidence : List ProjectEventEvidence
  pub assessments : List EventRuleAssessment
  pub calendars : List ProjectCalendar
  pub revisions : List ProjectCalendarRevision
  pub calculations : List DeadlineCalculation
  pub milestones : List DeadlineMilestone
  pub deadlines : List ProjectDeadline
  pub history : List StatusHistory
  pub audit : List AuditRow
  pub contract_packages : List Reference
  pub source_documents : List Reference
  pub document_versions : List Reference
  pub evidence_segments : List Reference
  pub snapshots : List RuleSnapshot
  pub configurations : List ConfigurationRevision

-- `date_of` is `new Date(text)`, `none` where that is `Invalid Date`, and `iso_of` is `toISOString`.
-- The two switches are variables of the process's environment.
pub record Surroundings : Type 1 where
  pub luxon : Luxon
  pub zod : Zod RawInput
  pub date_of : Text → Option ℕ
  pub iso_of : ℕ → Text
  pub calculation_segregated : Bool
  pub calendar_segregated : Bool

abbrev pub write_audit_log : ProjectContext → AuditAction → ℕ → Db → Db
write_audit_log ctx action entity_id db = record db {
  audit =
      db.audit
      ++ (record {
        tenant_id = ctx.tenant_id;
        project_id = ctx.project_id;
        actor_user_id = ctx.user_id;
        action = action;
        entity_id = entity_id;
      })
        ∷ [];
}

unfoldable pub as_capable :
    {A : Type 0} → ProjectContext → Capability → (Db → Result (A × Db)) → Db → Result A × Db
unfolding with_capability
as_capable ctx capability =
    with_capability ctx capability (write_audit_log ctx AuditAction.authz_denied 0)

-- `parseDateValue`
abbrev pub parse_date_value : Surroundings → Text → Result ℕ
parse_date_value env value = or_throw (env.date_of value) validation_error

-- `value ? new Date(value) : null` as a column; the database client refuses an invalid date.
abbrev pub date_column : Surroundings → Option Text → Result (Option ℕ)
date_column env none = ok none
date_column env (some []) = ok none
date_column env (some (c ∷ text)) = elim (env.date_of (c ∷ text)) [
  | none ↦ thrown invalid_date
  | some at ↦ ok (some at)
]

unfoldable pub load_project_event : ProjectContext → ℕ → Db → Result ProjectEvent
load_project_event ctx event_id db =
    or_throw
      (find (λ (e : ProjectEvent). e.id == event_id && in_scope ctx e.tenant_id e.project_id)
        db.events)
      not_found

-- `calendarRevisionToEngineInput`
unfoldable pub calendar_revision_to_engine_input : ProjectCalendarRevision → CalendarRevision
calendar_revision_to_engine_input revision = record {
  timezone = revision.timezone;
  weekend_days = or_else revision.weekend_days (6 ∷ 7 ∷ []);
  holidays = or_else revision.holiday_dates [];
  special_working_days = or_else revision.special_working_days [];
}

-- `snapshotStructuredRule`
abbrev pub is_executable : Json → Bool
is_executable (Json.object fields) =
    has_field (codes "durationUnit") fields && has_field (codes "counting") fields
is_executable _ = false

unfoldable pub snapshot_structured_rule : Json → Result (Unit {0})
snapshot_structured_rule raw = guard (is_executable raw) validation_error
