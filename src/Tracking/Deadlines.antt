-- ===== src/Tracking/Deadlines.antt =====
-- `verifyDeadlineCalculation`, `createTrackedDeadline` and `recalculateDeadline`.
use claim_it_all.Prelude.{
  ℕ, ◌+◌, Bool, true, false, not, ◌&&◌, Option, none, some, List, [], ◌∷◌, ◌++◌, any, find, keep,
  or_else, update_where, ltb, ◌==◌, if◌then◌else◌,
}
use claim_it_all.Prelude.Text.{Text, codes}
use claim_it_all.Authz.Capabilities.{deadline_verify, deadline_track, deadline_recalculate}
use claim_it_all.Service.Result.{
  not_found, forbidden, conflict, validation_error, Result, ok, or_throw, guard, ◌>>=◌, ◌>>◌,
}
use claim_it_all.Service.Context.{ProjectContext, in_scope}
use claim_it_all.Tracking.Types.{
  DatePrecision, RuleSnapshot, CalculationStatus, DeadlineCalculation, MilestoneClassification,
  DeadlineMilestone, DeadlineStatus, RiskStatus, ProjectDeadline, StatusHistory, AuditAction,
}
use claim_it_all.Tracking.Store.{Db, Surroundings, write_audit_log, as_capable}
use claim_it_all.Tracking.Calculation.{calculate_internal}

abbrev pub is_calculation : ProjectContext → ℕ → DeadlineCalculation → Bool
is_calculation ctx id c = c.id == id && in_scope ctx c.tenant_id c.project_id

unfoldable pub find_calculation : ProjectContext → ℕ → Db → Result DeadlineCalculation
find_calculation ctx id db = or_throw (find (is_calculation ctx id) db.calculations) not_found

abbrev pub is_verified : CalculationStatus → Bool
is_verified CalculationStatus.verified = true
is_verified _ = false

abbrev pub is_blocked : CalculationStatus → Bool
is_blocked CalculationStatus.blocked = true
is_blocked _ = false

-- `REVIEW_REQUIRED` or `CALCULATED`
abbrev pub can_verify : CalculationStatus → Bool
can_verify CalculationStatus.review_required = true
can_verify CalculationStatus.calculated = true
can_verify _ = false

abbrev pub verify_calculation : ProjectContext → ℕ → DeadlineCalculation → DeadlineCalculation
verify_calculation ctx now c = record c {
  calculation_status = CalculationStatus.verified;
  reviewed_by_user_id = some ctx.user_id;
  reviewed_at = some now;
}

unfoldable pub verify_in :
    Surroundings → ℕ → ProjectContext → ℕ → Db → Result (DeadlineCalculation × Db)
verify_in env now ctx calculation_id db = do
  calculation ← find_calculation ctx calculation_id db
  guard (not (is_verified calculation.calculation_status)) conflict
  guard (not (is_blocked calculation.calculation_status)) validation_error
  guard (can_verify calculation.calculation_status) conflict
  guard (not (env.calculation_segregated && calculation.calculated_by_user_id == ctx.user_id))
      forbidden
  ok (
    verify_calculation ctx now calculation,
    write_audit_log ctx AuditAction.calculation_verified calculation.id (record db {
      calculations =
          update_where (λ (c : DeadlineCalculation). c.id == calculation.id)
            (verify_calculation ctx now) db.calculations;
    }),
  )

abbrev pub verify_deadline_calculation :
    Surroundings → ℕ → ProjectContext → ℕ → Db → Result DeadlineCalculation × Db
verify_deadline_calculation env now ctx calculation_id =
    as_capable ctx deadline_verify (verify_in env now ctx calculation_id)

abbrev pub is_contractual : MilestoneClassification → Bool
is_contractual MilestoneClassification.contractual = true
is_contractual MilestoneClassification.internal = false

-- `orderBy: { sequence: 'asc' }, take: 1`: the first of `m` and the one after it.
abbrev pub earlier : DeadlineMilestone → Option DeadlineMilestone → DeadlineMilestone
earlier m none = m
earlier m (some n) = if ltb n.sequence m.sequence then n else m

unfoldable pub contractual_milestone_of : ℕ → List DeadlineMilestone → Option DeadlineMilestone
contractual_milestone_of calculation_id [] = none
contractual_milestone_of calculation_id (m ∷ more) =
    let rest = contractual_milestone_of calculation_id more in
    if m.deadline_calculation_id == calculation_id && is_contractual m.classification
    then some (earlier m rest)
    else rest

abbrev pub milestone_id : Option DeadlineMilestone → Option ℕ
milestone_id none = none
milestone_id (some m) = some m.id

-- The category of the rule, whose row a foreign key says is there.
abbrev pub category_of : Option RuleSnapshot → Option Text
category_of none = none
category_of (some snapshot) = snapshot.notice_category

unfoldable pub notice_category_of : ℕ → List RuleSnapshot → Option Text
notice_category_of id snapshots = category_of (find (λ (s : RuleSnapshot). s.id == id) snapshots)

-- `status: { notIn: ['SUPERSEDED', 'CANCELLED'] }`
abbrev pub is_live : DeadlineStatus → Bool
is_live DeadlineStatus.superseded = false
is_live DeadlineStatus.cancelled = false
is_live _ = true

abbrev pub is_live_for : ℕ → ProjectDeadline → Bool
is_live_for calculation_id d = d.deadline_calculation_id == calculation_id && is_live d.status

abbrev pub new_deadline :
    ProjectContext
    → DeadlineCalculation
    → Option DeadlineMilestone
    → Option Text
    → ℕ
    → ProjectDeadline
new_deadline ctx calculation milestone category id = record {
  id = id;
  tenant_id = ctx.tenant_id;
  project_id = ctx.project_id;
  project_event_id = calculation.project_event_id;
  contract_package_id = calculation.contract_package_id;
  deadline_calculation_id = calculation.id;
  deadline_milestone_id = milestone_id milestone;
  title_category = or_else category (codes "GENERAL");
  deadline_type = or_else category (codes "NOTICE");
  due_at = calculation.calculated_deadline_at;
  timezone = calculation.deadline_timezone;
  status = DeadlineStatus.upcoming;
  risk_status = RiskStatus.unknown;
  superseded_by_id = none;
}

abbrev pub history_row :
    ProjectContext → ℕ → Option DeadlineStatus → DeadlineStatus → Option Text → StatusHistory
history_row ctx deadline_id from to reason = record {
  tenant_id = ctx.tenant_id;
  project_id = ctx.project_id;
  project_deadline_id = deadline_id;
  from_status = from;
  to_status = to;
  changed_by_user_id = ctx.user_id;
  reason = reason;
}

unfoldable pub track_in : ProjectContext → ℕ → Db → Result (ProjectDeadline × Db)
track_in ctx calculation_id db = do
  calculation ← find_calculation ctx calculation_id db
  guard (is_verified calculation.calculation_status) validation_error
  guard (not (any (is_live_for calculation.id) db.deadlines)) conflict
  let deadline =
      new_deadline ctx calculation (contractual_milestone_of calculation.id db.milestones)
        (notice_category_of calculation.approved_rule_snapshot_id db.snapshots) db.next_id
  ok (
    deadline,
    write_audit_log ctx AuditAction.deadline_tracked deadline.id (record db {
      next_id = db.next_id + 1;
      deadlines = db.deadlines ++ deadline ∷ [];
      history = db.history ++ history_row ctx deadline.id none DeadlineStatus.upcoming none ∷ [];
    }),
  )

abbrev pub create_tracked_deadline : ProjectContext → ℕ → Db → Result ProjectDeadline × Db
create_tracked_deadline ctx calculation_id =
    as_capable ctx deadline_track (track_in ctx calculation_id)

-- `VERIFIED` or `REVIEW_REQUIRED`
abbrev pub can_recalculate : CalculationStatus → Bool
can_recalculate CalculationStatus.verified = true
can_recalculate CalculationStatus.review_required = true
can_recalculate _ = false

pub record RecalculateInput : Type 0 where
  pub trigger_date_id : Option ℕ
  pub calendar_revision_id : Option ℕ
  pub reason : Text

-- `parsed.data.triggerDateId ?? evidence?.projectEventDateId`
abbrev pub trigger_of : Option ℕ → Option (ℕ × DatePrecision) → Option ℕ
trigger_of (some id) evidence = some id
trigger_of none none = none
trigger_of none (some (id, precision)) = some id

abbrev pub supersede_calculation : DeadlineCalculation → DeadlineCalculation
supersede_calculation c = record c { calculation_status = CalculationStatus.superseded }

-- The deadline that takes the place of `old`.
abbrev pub superseding :
    ProjectContext
    → DeadlineCalculation
    → DeadlineCalculation
    → ProjectDeadline
    → ℕ
    → ProjectDeadline
superseding ctx prior calculation old id = record {
  id = id;
  tenant_id = ctx.tenant_id;
  project_id = ctx.project_id;
  project_event_id = prior.project_event_id;
  contract_package_id = prior.contract_package_id;
  deadline_calculation_id = calculation.id;
  deadline_milestone_id = none;
  title_category = old.title_category;
  deadline_type = old.deadline_type;
  due_at = calculation.calculated_deadline_at;
  timezone = calculation.deadline_timezone;
  status = DeadlineStatus.upcoming;
  risk_status = RiskStatus.unknown;
  superseded_by_id = none;
}

abbrev pub supersede_deadline : ℕ → ProjectDeadline → ProjectDeadline
supersede_deadline by d = record d {
  status = DeadlineStatus.superseded;
  superseded_by_id = some by;
}

-- One round of `for (const oldDeadline of tracked)`.
abbrev pub replace_deadline :
    ProjectContext → Text → DeadlineCalculation → DeadlineCalculation → ProjectDeadline → Db → Db
replace_deadline ctx reason prior calculation old db = record db {
  next_id = db.next_id + 1;
  deadlines =
      update_where (λ (d : ProjectDeadline). d.id == old.id) (supersede_deadline db.next_id)
        (db.deadlines ++ superseding ctx prior calculation old db.next_id ∷ []);
  history =
      db.history
      ++ history_row ctx old.id (some old.status) DeadlineStatus.superseded (some reason) ∷ [];
}

unfoldable pub replace_deadlines :
    ProjectContext
    → Text
    → DeadlineCalculation
    → DeadlineCalculation
    → List ProjectDeadline
    → Db
    → Db
replace_deadlines ctx reason prior calculation [] db = db
replace_deadlines ctx reason prior calculation (old ∷ more) db =
    replace_deadlines ctx reason prior calculation more
      (replace_deadline ctx reason prior calculation old db)

-- What follows the new calculation: the prior one, and the deadlines that were tracked for it.
abbrev pub replaced : ProjectContext → Text → DeadlineCalculation → DeadlineCalculation × Db → Db
replaced ctx reason prior created =
    replace_deadlines ctx reason prior created.0 (keep (is_live_for prior.id) created.1.deadlines)
      (record created.1 {
        calculations =
            update_where (λ (c : DeadlineCalculation). c.id == prior.id) supersede_calculation
              created.1.calculations;
      })

unfoldable pub recalculate_in :
    Surroundings
    → ProjectContext
    → ℕ
    → Option RecalculateInput
    → Db
    → Result (DeadlineCalculation × Db)
recalculate_in env ctx calculation_id input db = do
  parsed ← or_throw input validation_error
  prior ← find_calculation ctx calculation_id db
  guard (can_recalculate prior.calculation_status) conflict
  trigger ←
      or_throw (trigger_of parsed.trigger_date_id prior.trigger_date_evidence) validation_error
  created ←
      calculate_internal env ctx prior.project_event_id
        (record {
          assessment_id = prior.event_rule_assessment_id;
          calendar_revision_id = or_else parsed.calendar_revision_id prior.calendar_revision_id;
          trigger_date_id = trigger;
          supersedes_calculation_id = some prior.id;
          recalculation_reason = some parsed.reason;
        })
        db
  ok (
    created.0,
    write_audit_log ctx AuditAction.calculation_recalculated created.0.id
        (replaced ctx parsed.reason prior created),
  )

abbrev pub recalculate_deadline :
    Surroundings
    → ProjectContext
    → ℕ
    → Option RecalculateInput
    → Db
    → Result DeadlineCalculation × Db
recalculate_deadline env ctx calculation_id input =
    as_capable ctx deadline_recalculate (recalculate_in env ctx calculation_id input)
