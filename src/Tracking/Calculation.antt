-- ===== src/Tracking/Calculation.antt =====
-- `calculateEventDeadlineInternal` and `calculateEventDeadline`.
use claim_it_all.Prelude.{
  ℕ, ◌+◌, Bool, true, false, ◌&&◌, Option, none, some, List, [], ◌∷◌, ◌++◌, find, length, ◌==◌,
  zero, suc,
}
use claim_it_all.Prelude.Text.{Text}
use claim_it_all.Authz.Capabilities.{deadline_calculate}
use claim_it_all.Delivery.Retry.{truthy}
use claim_it_all.Service.Result.{
  validation_error, record_not_found, invalid_date, Result, ok, or_throw, guard, ◌>>=◌, ◌>>◌,
}
use claim_it_all.Service.Context.{ProjectContext, in_scope}
use claim_it_all.Service.Rows.{max_where}
use claim_it_all.Deadline.Types.{TriggerPrecision, InternalMilestone, CalculateResult}
use claim_it_all.Deadline.Types as Engine
use claim_it_all.Deadline.Engine.{calculate_deadline}
use claim_it_all.Tracking.Types.{
  DatePrecision, ProjectEventDate, RuleSnapshot, EventRuleAssessment, RevisionStatus,
  ProjectCalendarRevision, CalculationStatus, DeadlineCalculation, MilestoneKind,
  MilestoneClassification, DeadlineMilestone, AuditAction,
}
use claim_it_all.Tracking.Store.{
  Db, Surroundings, write_audit_log, as_capable, date_column, load_project_event,
  calendar_revision_to_engine_input, snapshot_structured_rule,
}
use claim_it_all.Tracking.Events.{is_verified, is_exact, is_date_of}
use claim_it_all.Tracking.Rules.{is_for_analysis, is_configured, is_confirmed}

pub record CalculateInput : Type 0 where
  pub assessment_id : ℕ
  pub calendar_revision_id : ℕ
  pub trigger_date_id : ℕ
  pub supersedes_calculation_id : Option ℕ
  pub recalculation_reason : Option Text

abbrev pub is_assessment_of : ProjectContext → ℕ → ℕ → EventRuleAssessment → Bool
is_assessment_of ctx event_id id a =
    a.id == id
    && in_scope ctx a.tenant_id a.project_id
    && a.project_event_id == event_id
    && is_confirmed a

abbrev pub is_trigger : ProjectContext → ℕ → ℕ → ProjectEventDate → Bool
is_trigger ctx event_id id d =
    is_date_of ctx event_id id d && is_verified d.verification_status && is_exact d.precision

abbrev pub is_approved : RevisionStatus → Bool
is_approved RevisionStatus.approved = true
is_approved _ = false

abbrev pub is_calendar_revision : ProjectContext → ℕ → ProjectCalendarRevision → Bool
is_calendar_revision ctx id r =
    r.id == id && in_scope ctx r.tenant_id r.project_id && is_approved r.status

-- `precision === 'EXACT_DATETIME' ? 'EXACT_DATETIME' : 'EXACT_DATE'`
abbrev pub trigger_precision : DatePrecision → TriggerPrecision
trigger_precision DatePrecision.exact_datetime = TriggerPrecision.exact_datetime
trigger_precision _ = TriggerPrecision.exact_date

-- What the engine says of a rule, a date and a calendar.
unfoldable pub engine_result :
    Surroundings → RuleSnapshot → ProjectEventDate → ProjectCalendarRevision → CalculateResult
engine_result env snapshot date revision = calculate_deadline env.luxon env.zod (record {
  rule = snapshot.structured_rule;
  trigger_date_iso = env.iso_of date.date_value;
  trigger_precision = trigger_precision date.precision;
  calendar = calendar_revision_to_engine_input revision;
})

abbrev pub status_of_result : Engine.CalculationStatus → CalculationStatus
status_of_result Engine.CalculationStatus.blocked = CalculationStatus.blocked
status_of_result Engine.CalculationStatus.calculated = CalculationStatus.review_required

abbrev pub next_version : ℕ → ℕ → List DeadlineCalculation → ℕ
next_version event_id assessment_id calculations =
    max_where
      (λ (c : DeadlineCalculation).
        c.project_event_id == event_id && c.event_rule_assessment_id == assessment_id)
      (λ c. c.calculation_version) calculations
    + 1

abbrev pub new_calculation :
    ProjectContext
    → ℕ
    → CalculateInput
    → EventRuleAssessment
    → RuleSnapshot
    → ProjectEventDate
    → ProjectCalendarRevision
    → CalculateResult
    → Option ℕ
    → ℕ
    → ℕ
    → DeadlineCalculation
new_calculation ctx event_id input assessment snapshot date revision result at version id = record {
  id = id;
  tenant_id = ctx.tenant_id;
  project_id = ctx.project_id;
  project_event_id = event_id;
  event_rule_assessment_id = assessment.id;
  contract_package_id = snapshot.contract_package_id;
  configuration_revision_id = snapshot.configuration_revision_id;
  approved_rule_snapshot_id = snapshot.id;
  calendar_revision_id = revision.id;
  project_calendar_id = revision.project_calendar_id;
  calculation_status = status_of_result result.status;
  calculation_version = version;
  trigger_date_type = date.date_type;
  trigger_date_value = date.date_value;
  trigger_timezone = date.timezone;
  trigger_date_evidence = some (date.id, date.precision);
  terms = snapshot.terms;
  calculated_deadline_at = at;
  calculated_deadline_date = result.contractual_deadline_date;
  deadline_timezone = result.deadline_timezone;
  blocked_reasons = result.blocked_reasons;
  calculation_trace = result.trace;
  calculated_by_user_id = ctx.user_id;
  reviewed_by_user_id = none;
  reviewed_at = none;
  supersedes_calculation_id = input.supersedes_calculation_id;
  recalculation_reason = input.recalculation_reason;
}

-- `text.slice(0, n)`
abbrev pub slice_to : ℕ → Text → Text
slice_to zero text = []
slice_to (suc n) [] = []
slice_to (suc n) (c ∷ text) = c ∷ slice_to n text

abbrev pub contractual_milestone :
    ProjectContext → ℕ → CalculateResult → Option ℕ → ℕ → DeadlineMilestone
contractual_milestone ctx calculation_id result at id = record {
  id = id;
  tenant_id = ctx.tenant_id;
  project_id = ctx.project_id;
  deadline_calculation_id = calculation_id;
  kind = MilestoneKind.initial_notice;
  classification = MilestoneClassification.contractual;
  due_at = at;
  due_date = result.contractual_deadline_date;
  timezone = result.deadline_timezone;
  offset_days_before_deadline = none;
  sequence = 0;
}

abbrev pub internal_milestone :
    ProjectContext → ℕ → Text → InternalMilestone → ℕ → ℕ → ℕ → DeadlineMilestone
internal_milestone ctx calculation_id timezone internal at sequence id = record {
  id = id;
  tenant_id = ctx.tenant_id;
  project_id = ctx.project_id;
  deadline_calculation_id = calculation_id;
  kind = MilestoneKind.internal_review_target;
  classification = MilestoneClassification.internal;
  due_at = some at;
  due_date = some (slice_to 10 internal.due_at_iso);
  timezone = timezone;
  offset_days_before_deadline = some internal.offset_days_before_deadline;
  sequence = sequence;
}

-- `internalMilestones.map`, from the given sequence number and identifier on.
unfoldable pub internal_rows :
    Surroundings
    → ProjectContext
    → ℕ
    → Text
    → List InternalMilestone
    → ℕ
    → ℕ
    → Result (List DeadlineMilestone)
internal_rows env ctx calculation_id timezone [] sequence id = ok []
internal_rows env ctx calculation_id timezone (internal ∷ more) sequence id = do
  at ← or_throw (env.date_of internal.due_at_iso) invalid_date
  rows ← internal_rows env ctx calculation_id timezone more (sequence + 1) (id + 1)
  ok (internal_milestone ctx calculation_id timezone internal at sequence id ∷ rows)

abbrev pub is_calculated : Engine.CalculationStatus → Bool
is_calculated Engine.CalculationStatus.calculated = true
is_calculated Engine.CalculationStatus.blocked = false

-- `if (status === 'CALCULATED' && contractualDeadlineAt)`
unfoldable pub milestone_rows :
    Surroundings
    → ProjectContext
    → ℕ
    → CalculateResult
    → Option ℕ
    → ℕ
    → Result (List DeadlineMilestone)
milestone_rows env ctx calculation_id result at id =
    elim (is_calculated result.status && truthy result.contractual_deadline_at) [
      | false ↦ ok []
      | true ↦
          internal_rows env ctx calculation_id result.deadline_timezone result.internal_milestones 1
            (id + 1)
          >>= λ rows. ok (contractual_milestone ctx calculation_id result at id ∷ rows)
    ]

-- The rows that a calculation rests on.
pub record Grounds : Type 0 where
  pub assessment : EventRuleAssessment
  pub date : ProjectEventDate
  pub revision : ProjectCalendarRevision
  pub snapshot : RuleSnapshot

-- Up to `calculateDeadline`.
unfoldable pub look_up : ProjectContext → ℕ → CalculateInput → Db → Result Grounds
look_up ctx event_id input db = do
  assessment ←
      or_throw (find (is_assessment_of ctx event_id input.assessment_id) db.assessments)
        record_not_found
  date ← or_throw (find (is_trigger ctx event_id input.trigger_date_id) db.dates) record_not_found
  revision ←
      or_throw (find (is_calendar_revision ctx input.calendar_revision_id) db.revisions)
        record_not_found
  snapshot ←
      or_throw
        (find (λ (s : RuleSnapshot). s.id == assessment.approved_rule_snapshot_id) db.snapshots)
        record_not_found
  guard (is_configured db.configurations snapshot.configuration_revision_id) validation_error
  snapshot_structured_rule snapshot.structured_rule
  ok (record { assessment = assessment; date = date; revision = revision; snapshot = snapshot })

-- From `calculateDeadline` on.
unfoldable pub make_calculation :
    Surroundings
    → ProjectContext
    → ℕ
    → CalculateInput
    → Grounds
    → Db
    → Result (DeadlineCalculation × Db)
make_calculation env ctx event_id input grounds db = do
  let result = engine_result env grounds.snapshot grounds.date grounds.revision
  at ← date_column env result.contractual_deadline_at
  let calculation =
      new_calculation ctx event_id input grounds.assessment grounds.snapshot grounds.date
        grounds.revision result at (next_version event_id grounds.assessment.id db.calculations)
        db.next_id
  rows ← milestone_rows env ctx calculation.id result at (db.next_id + 1)
  ok (
    calculation,
    record db {
      next_id = db.next_id + 1 + length rows;
      calculations = db.calculations ++ calculation ∷ [];
      milestones = db.milestones ++ rows;
    },
  )

unfoldable pub calculate_internal :
    Surroundings → ProjectContext → ℕ → CalculateInput → Db → Result (DeadlineCalculation × Db)
calculate_internal env ctx event_id input db = do
  grounds ← look_up ctx event_id input db
  make_calculation env ctx event_id input grounds db

-- The input is the assessment, the revision of a calendar and the date.
unfoldable pub calculate_in :
    Surroundings → ProjectContext → ℕ → Option (ℕ × ℕ × ℕ) → Db → Result (DeadlineCalculation × Db)
calculate_in env ctx event_id input db = do
  parsed ← or_throw input validation_error
  event ← load_project_event ctx event_id db
  guard (is_for_analysis event.confirmation_status) validation_error
  created ←
      calculate_internal env ctx event_id
        (record {
          assessment_id = parsed.0;
          calendar_revision_id = parsed.1;
          trigger_date_id = parsed.2;
          supersedes_calculation_id = none;
          recalculation_reason = none;
        })
        db
  ok (created.0, write_audit_log ctx AuditAction.calculation_created created.0.id created.1)

abbrev pub calculate_event_deadline :
    Surroundings → ProjectContext → ℕ → Option (ℕ × ℕ × ℕ) → Db → Result DeadlineCalculation × Db
calculate_event_deadline env ctx event_id input =
    as_capable ctx deadline_calculate (calculate_in env ctx event_id input)
