-- ===== src/Tracking/Traceable.antt =====
-- What the tables of the deadline service keep: where each calculation comes from, who reviewed it,
-- and how many deadlines are live for it.
use claim_it_all.Prelude.{ℕ, ◌<◌, Bool, true, false, some, List, ◌==◌, ◌≡◌, ◌≢◌, All, Some}
use claim_it_all.Service.Result.{ok}
use claim_it_all.Service.Rows.{AtMostOne}
use claim_it_all.Deadline.Types.{CalculateResult}
use claim_it_all.Deadline.Types as Engine
use claim_it_all.Tracking.Types.{
  ProjectEventDate, RuleSnapshot, EventRuleAssessment, RevisionStatus, ProjectCalendarRevision,
  CalculationStatus, DeadlineCalculation, ProjectDeadline,
}
use claim_it_all.Tracking.Store.{Db, Surroundings, date_column}
use claim_it_all.Tracking.Events as Events
use claim_it_all.Tracking.Rules.{is_confirmed}
use claim_it_all.Tracking.Calculation.{engine_result}
use claim_it_all.Tracking.Deadlines.{is_blocked, is_live_for}

-- A verified, exact date of the calculation's event.
abbrev pub IsTriggerFor : DeadlineCalculation → ProjectEventDate → Type 0
IsTriggerFor c d =
    (c.trigger_date_evidence ≡ some (d.id, d.precision))
    × (d.project_event_id ≡ c.project_event_id)
    × (d.date_value ≡ c.trigger_date_value)
    × (Events.is_verified d.verification_status ≡ true)
    × (Events.is_exact d.precision ≡ true)

-- `APPROVED`, or `SUPERSEDED` since.
abbrev pub was_approved : RevisionStatus → Bool
was_approved RevisionStatus.approved = true
was_approved RevisionStatus.superseded = true
was_approved _ = false

abbrev pub IsCalendarFor : DeadlineCalculation → ProjectCalendarRevision → Type 0
IsCalendarFor c r =
    (r.id ≡ c.calendar_revision_id)
    × (r.project_calendar_id ≡ c.project_calendar_id)
    × (was_approved r.status ≡ true)

abbrev pub is_engine_blocked : Engine.CalculationStatus → Bool
is_engine_blocked Engine.CalculationStatus.blocked = true
is_engine_blocked Engine.CalculationStatus.calculated = false

-- The row holds what the engine said; it is blocked exactly if the engine was.
abbrev pub Holds : Surroundings → DeadlineCalculation → CalculateResult → Type 0
Holds env c result =
    (date_column env result.contractual_deadline_at ≡ ok c.calculated_deadline_at)
    × (c.calculated_deadline_date ≡ result.contractual_deadline_date)
    × (c.deadline_timezone ≡ result.deadline_timezone)
    × (c.blocked_reasons ≡ result.blocked_reasons)
    × (c.calculation_trace ≡ result.trace)
    × (is_blocked c.calculation_status ≡ is_engine_blocked result.status)

abbrev pub HoldsFor :
    Surroundings
    → DeadlineCalculation
    → ProjectEventDate
    → ProjectCalendarRevision
    → RuleSnapshot
    → Type 0
HoldsFor env c d r s = (s.id ≡ c.approved_rule_snapshot_id) × Holds env c (engine_result env s d r)

abbrev pub RestsOn :
    Surroundings
    → List RuleSnapshot
    → DeadlineCalculation
    → ProjectEventDate
    → ProjectCalendarRevision
    → Type 0
RestsOn env snapshots c d r = IsCalendarFor c r × Some (HoldsFor env c d r) snapshots

abbrev pub StartsAt :
    Surroundings
    → List ProjectCalendarRevision
    → List RuleSnapshot
    → DeadlineCalculation
    → ProjectEventDate
    → Type 0
StartsAt env revisions snapshots c d = IsTriggerFor c d × Some (RestsOn env snapshots c d) revisions

-- A person confirmed that the rule applies to the event.
abbrev pub IsAssessment : DeadlineCalculation → EventRuleAssessment → Type 0
IsAssessment c a =
    (a.id ≡ c.event_rule_assessment_id)
    × (a.project_event_id ≡ c.project_event_id)
    × (a.approved_rule_snapshot_id ≡ c.approved_rule_snapshot_id)
    × (is_confirmed a ≡ true)

abbrev pub Differs : Bool → ℕ → ℕ → Type 0
Differs true a b = a ≢ b
Differs false a b = Unit

-- A verified calculation has a reviewer, another person than its calculator where duties are
-- segregated.
abbrev pub IsReviewed : Bool → CalculationStatus → DeadlineCalculation → Type 0
IsReviewed segregated CalculationStatus.verified c =
    (reviewer : ℕ) × (c.reviewed_by_user_id ≡ some reviewer)
    × Differs segregated reviewer c.calculated_by_user_id
IsReviewed segregated _ c = Unit

pub record IsGrounded (env : Surroundings) (db : Db) (c : DeadlineCalculation) : Type 0 where
  pub bounded : c.id < db.next_id
  pub trigger : Some (StartsAt env db.revisions db.snapshots c) db.dates
  pub assessment : Some (IsAssessment c) db.assessments
  pub reviewed : IsReviewed env.calculation_segregated c.calculation_status c

-- The row and its calculation have been made.
abbrev pub IsBounded : ℕ → ProjectDeadline → Type 0
IsBounded next_id d = (d.deadline_calculation_id < next_id) × (d.id < next_id)

pub record IsTraceable (env : Surroundings) (db : Db) : Type 0 where
  pub calculations : All (IsGrounded env db) db.calculations
  pub unique : (id : ℕ) → AtMostOne (λ (c : DeadlineCalculation). c.id == id) db.calculations
  pub bounded : All (IsBounded db.next_id) db.deadlines
  pub tracked_once : (id : ℕ) → AtMostOne (is_live_for id) db.deadlines
