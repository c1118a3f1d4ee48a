-- ===== src/Deadline/Engine/Trace.antt =====
-- The steps of the trace are numbered.
use claim_it_all.Prelude.{
  ℕ, suc, ◌+◌, Bool, not, ◌||◌, Option, none, some, List, [], ◌∷◌, ◌++◌, ◌≡◌, refl, arith, length,
  Bool-cases, if_either, inl, inr,
}
use claim_it_all.Deadline.Types.{
  DurationUnit, TraceOperation, Entry, TraceStep, MonthRoll, ExecutableRule, CalendarRevision,
  CalculateInput, CalculateResult, EndDateConvention, InternalMilestone,
}
use claim_it_all.Deadline.Luxon.{Luxon, Parsed, success, failure, Zod}
use claim_it_all.Deadline.Rule.{RuleCheck, validate_executable_rule, is_immediate}
use claim_it_all.Deadline.Calendar.{adjust_non_working}
use claim_it_all.Deadline.Steps.{
  push_step, adjusts, Stage, stopped, going, add_months, add_duration, adjust_end, apply_end_rule,
  warn,
}
use claim_it_all.Deadline.Engine.{
  validate_trigger_date, validate_calendar_revision, blocked_result, CalendarCheck, TriggerCheck,
  finish, immediate_result, after_duration, from_trigger, refuse_trigger, at_trigger, refuse_checks,
  checked, calculate_checked, calculate_parsed, calculate_deadline,
}

-- The numbers count up from `n`.
abbrev pub IsNumbered : ℕ → List TraceStep → Type 0
IsNumbered n [] = Unit {0}
IsNumbered n (s ∷ ts) = (s.sequence ≡ n) × IsNumbered (suc n) ts

IsNumbered-append :
    (n : ℕ) (ts : List TraceStep) (s : TraceStep)
    → IsNumbered n ts
    → s.sequence ≡ length ts + n
    → IsNumbered n (ts ++ s ∷ [])
IsNumbered-append n [] s h e = (omega arith, tt)
IsNumbered-append n (t ∷ ts) s (e₁, h) e = (e₁, IsNumbered-append (suc n) ts s h (omega arith))

push_step-IsNumbered :
    (trace : List TraceStep) (operation : TraceOperation) (input output : List Entry)
    (assumption warning : Bool)
    → IsNumbered 1 trace
    → IsNumbered 1 (push_step trace operation input output assumption warning)
unfolding push_step
push_step-IsNumbered trace operation input output assumption warning h =
    IsNumbered-append 1 trace _ h refl

module _ (lx : Luxon) where
  open lx use {DateTime}

  abbrev Numbers : Stage lx → Type 0
  Numbers (stopped reason trace) = IsNumbered 1 trace
  Numbers (going moved trace) = IsNumbered 1 trace

  add_months-Numbers :
      (roll : MonthRoll) (rule : ExecutableRule) (cursor : DateTime) (trace : List TraceStep)
      → IsNumbered 1 trace
      → Numbers (add_months lx roll rule cursor trace)
  unfolding add_months
  add_months-Numbers MonthRoll.block_if_ambiguous rule cursor trace h =
      push_step-IsNumbered trace _ _ _ _ _ h
  add_months-Numbers MonthRoll.same_day_or_last rule cursor trace h =
      push_step-IsNumbered trace _ _ _ _ _ h

  add_duration-Numbers :
      (unit : DurationUnit) (rule : ExecutableRule) (calendar : CalendarRevision)
      (cursor : DateTime) (trace : List TraceStep)
      → IsNumbered 1 trace
      → Numbers (add_duration lx unit rule calendar cursor trace)
  unfolding add_duration
  add_duration-Numbers DurationUnit.calendar_day rule calendar cursor trace h =
      push_step-IsNumbered trace _ _ _ _ _ h
  add_duration-Numbers DurationUnit.business_day rule calendar cursor trace h =
      push_step-IsNumbered trace _ _ _ _ _ h
  add_duration-Numbers DurationUnit.week rule calendar cursor trace h =
      push_step-IsNumbered trace _ _ _ _ _ h
  add_duration-Numbers DurationUnit.month rule calendar cursor trace h =
      add_months-Numbers rule.month_roll_behavior rule cursor trace h
  add_duration-Numbers _ rule calendar cursor trace h = h

  adjust_end-IsNumbered :
      (rule : ExecutableRule) (calendar : CalendarRevision) (cursor : DateTime)
      (trace : List TraceStep)
      → IsNumbered 1 trace
      → IsNumbered 1 (adjust_end lx rule calendar cursor trace).1
  unfolding adjust_end
  adjust_end-IsNumbered rule calendar cursor trace h =
      let moved = adjust_non_working lx calendar cursor rule.non_working_adjustment in
      elim (Bool-cases (adjusts lx rule.duration_unit)) [
        | inr e ↦ rw e h
        | inl e ↦ elim (Bool-cases (lx.has_same_day cursor moved)) [
          | inl f ↦ rw (e, f) h
          | inr f ↦ rw (e, f) (push_step-IsNumbered trace _ _ _ _ _ h)
        ]
      ]

  apply_end_rule-IsNumbered :
      (convention : EndDateConvention) (cursor : DateTime) (trace : List TraceStep)
      → IsNumbered 1 trace
      → IsNumbered 1 (apply_end_rule lx convention cursor trace).1
  unfolding apply_end_rule
  apply_end_rule-IsNumbered convention cursor trace h = push_step-IsNumbered trace _ _ _ _ _ h

  warn-IsNumbered :
      (trigger cursor : DateTime) (offsets : List ℕ) (trace : List TraceStep)
      (found : List InternalMilestone)
      → IsNumbered 1 trace
      → IsNumbered 1 (warn lx trigger cursor offsets trace found).0
  unfolding warn
  warn-IsNumbered trigger cursor [] trace found h = h
  warn-IsNumbered trigger cursor (offset ∷ offsets) trace found h =
      warn-IsNumbered trigger cursor offsets _ _
        (if_either (IsNumbered 1) _ _ _ h (push_step-IsNumbered trace _ _ _ _ _ h))

  finish-IsNumbered :
      (input : CalculateInput) (rule : ExecutableRule) (calendar : CalendarRevision)
      (trigger moved : DateTime) (trace : List TraceStep)
      → IsNumbered 1 trace
      → IsNumbered 1 (finish lx input rule calendar trigger moved trace).trace
  unfolding finish
  finish-IsNumbered input rule calendar trigger moved trace h =
      warn-IsNumbered trigger _ input.internal_warning_offsets_days _ [] (
        apply_end_rule-IsNumbered rule.end_date_convention _ _
          (adjust_end-IsNumbered rule calendar moved trace h))

  after_duration-IsNumbered :
      (input : CalculateInput) (rule : ExecutableRule) (calendar : CalendarRevision)
      (trigger : DateTime) (stage : Stage lx)
      → Numbers stage
      → IsNumbered 1 (after_duration lx input rule calendar trigger stage).trace
  unfolding blocked_result
  after_duration-IsNumbered input rule calendar trigger (stopped reason trace) h = h
  after_duration-IsNumbered input rule calendar trigger (going moved trace) h =
      finish-IsNumbered input rule calendar trigger moved trace h

  opening :
      (input : CalculateInput) (rule : ExecutableRule) (calendar : CalendarRevision) (at : DateTime)
      → IsNumbered 1 (from_trigger lx input rule calendar at).trace
  unfolding from_trigger immediate_result
  opening input rule calendar at =
      if_either (λ (r : CalculateResult). IsNumbered 1 r.trace) (is_immediate rule.duration_unit) _
        _ (refl, (refl, (refl, tt)))
        (after_duration-IsNumbered input rule calendar at _
          (add_duration-Numbers rule.duration_unit rule calendar at _ (refl, (refl, (refl, tt)))))

  at_trigger-IsNumbered :
      (at : Option DateTime) (input : CalculateInput) (rule : ExecutableRule)
      (calendar : CalendarRevision) (trigger : TriggerCheck lx)
      → IsNumbered 1 (at_trigger lx at input rule calendar trigger).trace
  unfolding refuse_trigger
  at_trigger-IsNumbered none input rule calendar trigger = (refl, tt)
  at_trigger-IsNumbered (some at) input rule calendar trigger =
      if_either (λ (r : CalculateResult). IsNumbered 1 r.trace) (not trigger.ok) _ _ (refl, tt)
        (opening input rule calendar at)

  checked-IsNumbered :
      (rule : Option ExecutableRule) (calendar : Option CalendarRevision) (input : CalculateInput)
      (rule_check : RuleCheck) (cal_check : CalendarCheck)
      → IsNumbered 1 (checked lx rule calendar input rule_check cal_check).trace
  unfolding refuse_checks
  checked-IsNumbered none calendar input rule_check cal_check = (refl, tt)
  checked-IsNumbered (some rule) none input rule_check cal_check = (refl, tt)
  checked-IsNumbered (some rule) (some calendar) input rule_check cal_check =
      let trigger = validate_trigger_date lx input.trigger_date_iso input.calendar.timezone in
      if_either (λ (r : CalculateResult). IsNumbered 1 r.trace)
        (not rule_check.ok || not cal_check.ok) _ _ (refl, tt)
        (at_trigger-IsNumbered trigger.at input rule calendar trigger)

  calculate_parsed-IsNumbered :
      {Raw : Type 0} (zod : Zod Raw) (parsed : Parsed CalculateInput)
      → IsNumbered 1 (calculate_parsed lx zod parsed).trace
  unfolding calculate_checked blocked_result
  calculate_parsed-IsNumbered zod (failure issues) = (refl, tt)
  calculate_parsed-IsNumbered zod (success input) =
      let rule = validate_executable_rule (zod.parse_rule input.rule) in
      let calendar = validate_calendar_revision lx (zod.parse_calendar input.calendar) in
      checked-IsNumbered rule.value calendar.value input rule calendar

  -- The steps of every trace are numbered 1, 2, 3 and so on, however the calculation ends.
  pub calculate_deadline-IsNumbered :
      {Raw : Type 0} (zod : Zod Raw) (raw : Raw)
      → IsNumbered 1 (calculate_deadline lx zod raw).trace
  unfolding calculate_deadline
  calculate_deadline-IsNumbered zod raw = calculate_parsed-IsNumbered zod (zod.parse_input raw)
