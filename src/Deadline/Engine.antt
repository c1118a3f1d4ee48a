-- ===== src/Deadline/Engine.antt =====
-- `validateTriggerDate`, `validateCalendarRevision` and `calculateDeadline`.
pub mod Trace
pub mod Grants
pub mod Result
pub mod Expected
pub mod Milestones
pub mod Compare
use claim_it_all.Prelude.{
  ℕ, ◌+◌, ◌*◌, Bool, true, false, not, ◌&&◌, ◌||◌, Option, none, some, List, [], ◌∷◌, ◌++◌, length,
  map, null, or_else, if◌then◌else◌,
}
use claim_it_all.Prelude.Int.{ℤ, pos, pos_part, ◌-ℤ◌, ltb_ℤ}
use claim_it_all.Prelude.Text.{Text, codes}
use claim_it_all.Deadline.Types.{
  one, DurationUnit, Counting, TraceOperation, Entry, TraceStep, StartDateConvention,
  EndDateConvention, NonWorkingAdjustment, MonthRoll, ExecutableRule, CalendarRevision,
  CalculateInput, Reason, month_end_not_approved, invalid_timezone, invalid_trigger, issue,
  InternalMilestone, CalculationStatus, CalculateResult,
}
use claim_it_all.Deadline.Luxon.{Luxon, Parsed, success, failure, Zod}
use claim_it_all.Deadline.Rule.{RuleCheck, validate_executable_rule, is_immediate}
use claim_it_all.Deadline.Calendar.{date_key, adjust_non_working, add_business_days}
use claim_it_all.Deadline.Steps.{
  push_step, Stage, stopped, going, add_duration, adjust_end, apply_end_rule, warn,
}

unfoldable pub blocked_result : Text → List Reason → List TraceStep → CalculateResult
blocked_result timezone reasons trace = record {
  status = CalculationStatus.blocked;
  blocked_reasons = reasons;
  contractual_deadline_at = none;
  contractual_deadline_date = none;
  deadline_timezone = timezone;
  trace = trace;
  internal_milestones = [];
  immediate = false;
}

pub record CalendarCheck : Type 0 where
  pub ok : Bool
  pub reasons : List Reason
  pub value : Option CalendarRevision

module _ (lx : Luxon) where
  open lx use {
    DateTime, from_iso, now, set_zone, is_valid, invalid_reason, zone_name, to_iso, plus_days,
    minus_days, plus_weeks, plus_months, start_of_day, end_of_day, has_same_day, at_most,
  }

  pub record TriggerCheck : Type 0 where
    pub ok : Bool
    pub reasons : List Reason
    pub at : Option DateTime

  unfoldable pub validate_trigger_date : Text → Text → TriggerCheck
  validate_trigger_date iso timezone =
      let zone = from_iso iso in
      let at = set_zone timezone zone in
      if not (is_valid zone)
      then record { ok = false; reasons = invalid_trigger (invalid_reason zone) ∷ []; at = none }
      else if not (is_valid at)
      then record { ok = false; reasons = invalid_timezone timezone ∷ []; at = none }
      else record { ok = true; reasons = []; at = some at }

  unfoldable pub validate_calendar_revision : Parsed CalendarRevision → CalendarCheck
  validate_calendar_revision (failure issues) = record {
    ok = false;
    reasons = map issue issues;
    value = none;
  }
  validate_calendar_revision (success calendar) =
      if not (is_valid (set_zone calendar.timezone now))
      then record { ok = false; reasons = invalid_timezone calendar.timezone ∷ []; value = none }
      else record { ok = true; reasons = []; value = some calendar }

  -- From the end of the arithmetic to the result.
  unfoldable pub finish :
      CalculateInput
      → ExecutableRule
      → CalendarRevision
      → DateTime
      → DateTime
      → List TraceStep
      → CalculateResult
  unfolding warn
  finish input rule calendar trigger moved trace =
      let (adjusted, trace_1) = adjust_end lx rule calendar moved trace in
      let (cursor, trace_2) = apply_end_rule lx rule.end_date_convention adjusted trace_1 in
      let (trace_3, milestones) =
        warn lx trigger cursor input.internal_warning_offsets_days trace_2 [] in
      record {
        status = CalculationStatus.calculated;
        blocked_reasons = [];
        contractual_deadline_at = to_iso cursor;
        contractual_deadline_date = some (date_key lx calendar cursor);
        deadline_timezone = calendar.timezone;
        trace = trace_3;
        internal_milestones = milestones;
        immediate = false;
      }

  unfoldable pub immediate_result : CalendarRevision → DateTime → List TraceStep → CalculateResult
  immediate_result calendar cursor trace = record {
    status = CalculationStatus.calculated;
    blocked_reasons = [];
    contractual_deadline_at = to_iso cursor;
    contractual_deadline_date = some (date_key lx calendar cursor);
    deadline_timezone = calendar.timezone;
    trace =
        push_step trace TraceOperation.handle_immediate (Entry.instant (to_iso cursor) ∷ [])
          (Entry.instant (to_iso cursor) ∷ []) false false;
    internal_milestones = [];
    immediate = true;
  }

  abbrev after_duration :
      CalculateInput → ExecutableRule → CalendarRevision → DateTime → Stage lx → CalculateResult
  after_duration input rule calendar trigger (stopped reason trace) =
      blocked_result calendar.timezone (reason ∷ []) trace
  after_duration input rule calendar trigger (going moved trace) =
      finish input rule calendar trigger moved trace

  -- From the trigger date on, with the checked rule and calendar.
  unfoldable pub from_trigger :
      CalculateInput → ExecutableRule → CalendarRevision → DateTime → CalculateResult
  unfolding push_step
  from_trigger input rule calendar at =
      let trace_1 =
        push_step [] TraceOperation.select_trigger_date
          (Entry.text input.trigger_date_iso ∷ Entry.precision input.trigger_precision ∷ [])
          (Entry.instant (to_iso at) ∷ []) false false in
      let trace_2 =
        push_step trace_1 TraceOperation.normalize_timezone (Entry.text (zone_name at) ∷ [])
          (Entry.text calendar.timezone ∷ Entry.instant (to_iso at) ∷ []) false false in
      let trace_3 =
        push_step trace_2 TraceOperation.apply_start_day_rule
          (Entry.convention rule.start_date_convention ∷ Entry.count rule.counting ∷ []) [] false
          false in
      if is_immediate rule.duration_unit
      then immediate_result calendar at trace_2
      else after_duration input rule calendar at
          (add_duration lx rule.duration_unit rule calendar at trace_3)

  pub refuse_trigger : CalculateInput → TriggerCheck → CalculateResult
  unfolding push_step blocked_result
  refuse_trigger input trigger = blocked_result input.calendar.timezone trigger.reasons (
      push_step [] TraceOperation.block_ambiguous_rule (Entry.text input.trigger_date_iso ∷ [])
        (Entry.reasons trigger.reasons ∷ []) false true)

  abbrev at_trigger :
      Option DateTime
      → CalculateInput
      → ExecutableRule
      → CalendarRevision
      → TriggerCheck
      → CalculateResult
  at_trigger none input rule calendar trigger = refuse_trigger input trigger
  at_trigger (some at) input rule calendar trigger =
      if not trigger.ok then refuse_trigger input trigger else from_trigger input rule calendar at

  pub refuse_checks : CalculateInput → RuleCheck → CalendarCheck → CalculateResult
  unfolding push_step blocked_result
  refuse_checks input rule_check cal_check =
      let reasons = rule_check.reasons ++ cal_check.reasons in
      blocked_result input.calendar.timezone reasons (
        push_step [] TraceOperation.block_ambiguous_rule
          (Entry.flag rule_check.ok ∷ Entry.flag cal_check.ok ∷ []) (Entry.reasons reasons ∷ [])
          false true)

  -- `!ruleCheck.ok || !calCheck.ok || !calCheck.value`; a rule that is ok has a value.
  abbrev checked :
      Option ExecutableRule
      → Option CalendarRevision
      → CalculateInput
      → RuleCheck
      → CalendarCheck
      → CalculateResult
  checked none calendar input rule_check cal_check = refuse_checks input rule_check cal_check
  checked (some rule) none input rule_check cal_check = refuse_checks input rule_check cal_check
  checked (some rule) (some calendar) input rule_check cal_check =
      let trigger = validate_trigger_date input.trigger_date_iso input.calendar.timezone in
      if not rule_check.ok || not cal_check.ok
      then refuse_checks input rule_check cal_check
      else at_trigger trigger.at input rule calendar trigger

  unfoldable pub calculate_checked : CalculateInput → RuleCheck → CalendarCheck → CalculateResult
  calculate_checked input rule_check cal_check =
      checked rule_check.value cal_check.value input rule_check cal_check

  abbrev calculate_parsed : {Raw : Type 0} → Zod Raw → Parsed CalculateInput → CalculateResult
  calculate_parsed zod (failure issues) = blocked_result (codes "UTC") (map issue issues) (
      (record {
        sequence = 1;
        operation = TraceOperation.block_ambiguous_rule;
        input = [];
        output = [];
        assumption = false;
        warning = true;
      })
      ∷ [])
  calculate_parsed zod (success input) =
      calculate_checked input (validate_executable_rule (zod.parse_rule input.rule))
        (validate_calendar_revision (zod.parse_calendar input.calendar))

  unfoldable pub calculate_deadline : {Raw : Type 0} → Zod Raw → Raw → CalculateResult
  calculate_deadline zod raw = calculate_parsed zod (zod.parse_input raw)
