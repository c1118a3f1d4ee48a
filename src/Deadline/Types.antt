-- ===== src/Deadline/Types.antt =====
-- The data of packages/contract-rules/src/deadline-engine.ts. A number of days, weeks or months is
-- an integer of ten-thousandths, the precision of the database's `Decimal(12, 4)` columns.
use claim_it_all.Prelude.{ℕ, Bool, Option, List}
use claim_it_all.Prelude.Int.{ℤ}
use claim_it_all.Prelude.Text.{Text}

abbrev pub one : ℕ
one = 10000

pub data DurationUnit : Type 0 where
  calendar_day business_day week month immediate prompt reasonable_time custom : DurationUnit

pub data Counting : Type 0 where
  inclusive exclusive unspecified : Counting

pub data TimeBar : Type 0 where
  express_condition_precedent express_time_bar procedural_deadline : TimeBar
  recommended_internal_deadline uncertain not_a_time_bar : TimeBar

pub data TraceOperation : Type 0 where
  select_trigger_date normalize_timezone apply_start_day_rule add_calendar_days : TraceOperation
  add_business_days add_weeks add_months apply_end_day_rule apply_weekend_adjustment :
      TraceOperation
  apply_holiday_adjustment apply_internal_buffer block_ambiguous_rule handle_immediate :
      TraceOperation

pub data StartDateConvention : Type 0 where
  exclude_trigger_day include_trigger_day : StartDateConvention

pub data EndDateConvention : Type 0 where
  end_of_day start_of_day exact_timestamp : EndDateConvention

pub data NonWorkingAdjustment : Type 0 where
  forward backward no_adjustment : NonWorkingAdjustment

pub data MonthRoll : Type 0 where
  same_day_or_last block_if_ambiguous : MonthRoll

pub data TriggerPrecision : Type 0 where
  exact_datetime exact_date : TriggerPrecision

pub record ExecutableRule : Type 0 where
  pub duration_unit : DurationUnit
  pub duration_value : Option ℤ
  pub counting : Counting
  pub start_date_convention : StartDateConvention
  pub end_date_convention : EndDateConvention
  pub non_working_adjustment : NonWorkingAdjustment
  pub time_bar_classification : TimeBar
  pub ambiguity_notes : List Text
  pub human_approved : Bool
  pub required_recipients_approved : Bool
  pub month_roll_behavior : MonthRoll

pub record CalendarRevision : Type 0 where
  pub timezone : Text
  pub weekend_days : List ℕ
  pub holidays : List Text
  pub special_working_days : List Text

pub record CalculateInput : Type 0 where
  pub rule : ExecutableRule
  pub trigger_date_iso : Text
  pub trigger_precision : TriggerPrecision
  pub calendar : CalendarRevision
  pub internal_warning_offsets_days : List ℕ

-- The sentences of `blockedReasons`; `issue` is one of the schema's.
pub data Reason : Type 0 where
  not_human_approved ambiguity_unresolved time_bar_uncertain recipients_not_approved : Reason
  not_definitive : DurationUnit → Reason
  custom_not_executable counting_unspecified value_required value_negative : Reason
  immediate_has_value month_end_not_approved : Reason
  invalid_timezone : Text → Reason
  invalid_trigger : Text → Reason
  issue : Text → Reason

-- A value of `Record<string, unknown>`, as the steps hold them: the names of the fields are left out.
pub data Entry : Type 0 where
  text : Text → Entry
  instant : Option Text → Entry
  amount : ℤ → Entry
  weekend : List ℕ → Entry
  flag : Bool → Entry
  precision : TriggerPrecision → Entry
  convention : StartDateConvention → Entry
  end_convention : EndDateConvention → Entry
  count : Counting → Entry
  adjustment : NonWorkingAdjustment → Entry
  roll : MonthRoll → Entry
  reasons : List Reason → Entry
  optional_amount : Option ℤ → Entry

-- The sentence for people, `explanation`, is left out.
pub record TraceStep : Type 0 where
  pub sequence : ℕ
  pub operation : TraceOperation
  pub input : List Entry
  pub output : List Entry
  pub assumption : Bool
  pub warning : Bool

pub record InternalMilestone : Type 0 where
  pub due_at_iso : Text
  pub offset_days_before_deadline : ℕ

pub data CalculationStatus : Type 0 where
  calculated blocked : CalculationStatus

pub record CalculateResult : Type 0 where
  pub status : CalculationStatus
  pub blocked_reasons : List Reason
  pub contractual_deadline_at : Option Text
  pub contractual_deadline_date : Option Text
  pub deadline_timezone : Text
  pub trace : List TraceStep
  pub internal_milestones : List InternalMilestone
  pub immediate : Bool
