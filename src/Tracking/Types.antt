-- ===== src/Tracking/Types.antt =====
-- The rows of the deadline service, as in apps/web/prisma/schema.prisma, and the inputs of its
-- requests. Times are milliseconds since 1970.
use claim_it_all.Prelude.{ℕ, Bool, Option, List}
use claim_it_all.Prelude.Text.{Text}
use claim_it_all.Prelude.Json.{Json}
use claim_it_all.Deadline.Types.{CalendarRevision, TriggerPrecision, Reason, TraceStep}

pub data EventCategory : Type 0 where
  late_drawing_or_approval suspension restricted_access scope_change additional_work : EventCategory
  delayed_payment unforeseen_site_condition instruction rejection certification : EventCategory
  payment_event other : EventCategory

pub data EventStatus : Type 0 where
  draft under_review confirmed disputed withdrawn closed : EventStatus

pub data ConfirmationStatus : Type 0 where
  unconfirmed confirmed_fact confirmed_for_deadline_analysis disputed : ConfirmationStatus
  insufficient_evidence : ConfirmationStatus

pub data EventSource : Type 0 where
  manual imported human_confirmed_record detection_accepted : EventSource

pub record CreateProjectEvent : Type 0 where
  pub title : Text
  pub description : Option Text
  pub event_category : EventCategory
  pub event_subcategory : Option Text
  pub contract_package_id : Option ℕ
  pub timezone : Text
  pub event_reference : Option Text

pub record ProjectEvent : Type 0 where
  pub id : ℕ
  pub tenant_id : ℕ
  pub project_id : ℕ
  pub details : CreateProjectEvent
  pub event_status : EventStatus
  pub confirmation_status : ConfirmationStatus
  pub reported_by_user_id : ℕ
  pub confirmed_by_user_id : Option ℕ
  pub confirmed_at : Option ℕ
  pub source : EventSource

pub data DateType : Type 0 where
  occurrence_date awareness_date instruction_date receipt_date access_denial_date : DateType
  payment_due_date certificate_date discovery_date continuing_event_start : DateType
  continuing_event_end custom : DateType

pub data DatePrecision : Type 0 where
  exact_datetime exact_date approximate_date date_range unknown : DatePrecision

pub data VerificationStatus : Type 0 where
  unverified verified disputed rejected superseded : VerificationStatus

pub record AddProjectEventDate : Type 0 where
  pub date_type : DateType
  pub date_value : Text
  pub timezone : Text
  pub precision : DatePrecision
  pub notes : Option Text

pub record ProjectEventDate : Type 0 where
  pub id : ℕ
  pub tenant_id : ℕ
  pub project_id : ℕ
  pub project_event_id : ℕ
  pub date_type : DateType
  pub date_value : ℕ
  pub timezone : Text
  pub precision : DatePrecision
  pub notes : Option Text
  pub asserted_by_user_id : ℕ
  pub verification_status : VerificationStatus
  pub verified_by_user_id : Option ℕ
  pub verified_at : Option ℕ

pub data EvidencePurpose : Type 0 where
  proves_occurrence proves_awareness proves_receipt proves_instruction : EvidencePurpose
  proves_continuing_effect supports_classification contradicts_event other : EvidencePurpose

pub record LinkProjectEventEvidence : Type 0 where
  pub source_document_id : ℕ
  pub document_version_id : ℕ
  pub evidence_segment_id : Option ℕ
  pub purpose : EvidencePurpose
  pub factual_note : Option Text

pub record ProjectEventEvidence : Type 0 where
  pub id : ℕ
  pub tenant_id : ℕ
  pub project_id : ℕ
  pub project_event_id : ℕ
  pub details : LinkProjectEventEvidence
  pub linked_by_user_id : ℕ

-- A row of a table that the service only looks up: a contract package, a source document (whose
-- `parent_id` is not read), a version of a document, or a segment of a version.
pub record Reference : Type 0 where
  pub id : ℕ
  pub tenant_id : ℕ
  pub project_id : ℕ
  pub parent_id : ℕ

-- The columns that a calculation copies from its rule: duration, counting, the rules for its start
-- and end, and the adjustment to business days.
pub record RuleTerms : Type 0 where
  pub duration_value : Option Text
  pub duration_unit : Option Text
  pub counting_convention : Text
  pub start_date_rule : Option Text
  pub end_date_rule : Option Text
  pub business_day_adjustment : Option Text

pub record RuleSnapshot : Type 0 where
  pub id : ℕ
  pub tenant_id : ℕ
  pub project_id : ℕ
  pub contract_package_id : ℕ
  pub configuration_revision_id : ℕ
  pub terms : RuleTerms
  pub notice_category : Option Text
  pub structured_rule : Json

pub record ConfigurationRevision : Type 0 where
  pub id : ℕ
  pub is_active_approved : Bool
  pub is_approved : Bool  -- `status === 'APPROVED'`

pub data ApplicabilityStatus : Type 0 where
  candidate selected_for_analysis applicable not_applicable uncertain : ApplicabilityStatus
  superseded : ApplicabilityStatus

pub data AssessmentSource : Type 0 where
  deterministic_match human_selected human_confirmed imported : AssessmentSource
  future_ai_suggestion : AssessmentSource

pub record EventRuleAssessment : Type 0 where
  pub id : ℕ
  pub tenant_id : ℕ
  pub project_id : ℕ
  pub project_event_id : ℕ
  pub contract_package_id : ℕ
  pub configuration_revision_id : ℕ
  pub approved_rule_snapshot_id : ℕ
  pub applicability_status : ApplicabilityStatus
  pub assessment_source : AssessmentSource
  pub reviewer_user_id : Option ℕ
  pub reviewed_at : Option ℕ
  pub rationale : Option Text

pub data CalendarSource : Type 0 where
  contract_defined jurisdictional project_policy internal_policy : CalendarSource

pub data CalendarStatus : Type 0 where
  draft in_review approved superseded archived : CalendarStatus

pub record CreateProjectCalendar : Type 0 where
  pub name : Text
  pub timezone : Text
  pub weekend_days : List ℕ
  pub source : Option CalendarSource

pub record ProjectCalendar : Type 0 where
  pub id : ℕ
  pub tenant_id : ℕ
  pub project_id : ℕ
  pub name : Text
  pub timezone : Text
  pub weekend_days : Option (List ℕ)
  pub source : CalendarSource
  pub status : CalendarStatus
  pub current_revision_id : Option ℕ
  pub created_by_user_id : ℕ
  pub approved_by_user_id : Option ℕ

pub record CreateCalendarRevision : Type 0 where
  pub timezone : Option Text
  pub weekend_days : List ℕ
  pub holidays : List Text
  pub special_working_days : List Text
  pub effective_from : Option Text
  pub effective_to : Option Text

pub data RevisionStatus : Type 0 where
  draft in_review approved superseded : RevisionStatus

-- `none` is a JSON value that is not an array.
pub record ProjectCalendarRevision : Type 0 where
  pub id : ℕ
  pub tenant_id : ℕ
  pub project_id : ℕ
  pub project_calendar_id : ℕ
  pub revision_number : ℕ
  pub timezone : Text
  pub weekend_days : Option (List ℕ)
  pub holiday_dates : Option (List Text)
  pub special_working_days : Option (List Text)
  pub effective_from : Option ℕ
  pub effective_to : Option ℕ
  pub status : RevisionStatus
  pub approved_by_user_id : Option ℕ
  pub approved_at : Option ℕ

-- The input of `calculateDeadline`.
pub record RawInput : Type 0 where
  pub rule : Json
  pub trigger_date_iso : Text
  pub trigger_precision : TriggerPrecision
  pub calendar : CalendarRevision

pub data CalculationStatus : Type 0 where
  draft blocked calculated review_required verified superseded cancelled : CalculationStatus

pub record DeadlineCalculation : Type 0 where
  pub id : ℕ
  pub tenant_id : ℕ
  pub project_id : ℕ
  pub project_event_id : ℕ
  pub event_rule_assessment_id : ℕ
  pub contract_package_id : ℕ
  pub configuration_revision_id : ℕ
  pub approved_rule_snapshot_id : ℕ
  pub calendar_revision_id : ℕ
  pub project_calendar_id : ℕ
  pub calculation_status : CalculationStatus
  pub calculation_version : ℕ
  pub trigger_date_type : DateType
  pub trigger_date_value : ℕ
  pub trigger_timezone : Text
  pub trigger_date_evidence : Option (ℕ × DatePrecision)
  pub terms : RuleTerms
  pub calculated_deadline_at : Option ℕ
  pub calculated_deadline_date : Option Text
  pub deadline_timezone : Text
  pub blocked_reasons : List Reason  -- `null` if there are none
  pub calculation_trace : List TraceStep
  pub calculated_by_user_id : ℕ
  pub reviewed_by_user_id : Option ℕ
  pub reviewed_at : Option ℕ
  pub supersedes_calculation_id : Option ℕ
  pub recalculation_reason : Option Text

pub data MilestoneKind : Type 0 where
  initial_notice internal_review_target : MilestoneKind

pub data MilestoneClassification : Type 0 where
  contractual internal : MilestoneClassification

-- The labels, which are sentences for people, are left out.
pub record DeadlineMilestone : Type 0 where
  pub id : ℕ
  pub tenant_id : ℕ
  pub project_id : ℕ
  pub deadline_calculation_id : ℕ
  pub kind : MilestoneKind
  pub classification : MilestoneClassification
  pub due_at : Option ℕ
  pub due_date : Option Text
  pub timezone : Text
  pub offset_days_before_deadline : Option ℕ
  pub sequence : ℕ

pub data DeadlineStatus : Type 0 where
  upcoming due_soon due_today overdue completed cancelled superseded blocked : DeadlineStatus

pub data RiskStatus : Type 0 where
  low medium high critical unknown : RiskStatus

-- `title_category` is what varies in the title.
pub record ProjectDeadline : Type 0 where
  pub id : ℕ
  pub tenant_id : ℕ
  pub project_id : ℕ
  pub project_event_id : ℕ
  pub contract_package_id : ℕ
  pub deadline_calculation_id : ℕ
  pub deadline_milestone_id : Option ℕ
  pub title_category : Text
  pub deadline_type : Text
  pub due_at : Option ℕ
  pub timezone : Text
  pub status : DeadlineStatus
  pub risk_status : RiskStatus
  pub superseded_by_id : Option ℕ

pub record StatusHistory : Type 0 where
  pub tenant_id : ℕ
  pub project_id : ℕ
  pub project_deadline_id : ℕ
  pub from_status : Option DeadlineStatus
  pub to_status : DeadlineStatus
  pub changed_by_user_id : ℕ
  pub reason : Option Text  -- `none` is the sentence of `createTrackedDeadline`

pub data AuditAction : Type 0 where
  authz_denied event_created date_added date_verified evidence_linked : AuditAction
  event_confirmed assessment_confirmed calendar_created : AuditAction
  calendar_revision_created calendar_revision_approved calculation_created : AuditAction
  calculation_verified deadline_tracked calculation_recalculated : AuditAction

pub record AuditRow : Type 0 where
  pub tenant_id : ℕ
  pub project_id : ℕ
  pub actor_user_id : ℕ
  pub action : AuditAction
  pub entity_id : ℕ
