-- ===== src/Deadline/Engine/Result.antt =====
-- When `calculateDeadline` answers with a deadline, and which one.
use claim_it_all.Prelude.{
  List, ◌≡◌, ◌↔◌, ◌∙◌, refl, ap, sym, or_else, if◌then◌else◌, Bool-cases, inl, inr,
}
use mathlib.Core.Path.{subst}
use claim_it_all.Prelude.Int.{pos, pos_part}
use claim_it_all.Deadline.Types.{
  DurationUnit, TraceStep, MonthRoll, ExecutableRule, CalendarRevision, CalculateInput,
  CalculationStatus,
}
use claim_it_all.Deadline.Luxon.{Luxon, Parsed, success, failure, Zod}
use claim_it_all.Deadline.Rule.{is_immediate}
use claim_it_all.Deadline.Calendar.{adjust_non_working, add_business_days}
use claim_it_all.Deadline.Steps.{
  Stage, days_to_add, add_months, add_duration, adjusts, adjust_end, end_of_period, apply_end_rule,
}
use claim_it_all.Deadline.Engine.{
  blocked_result, finish, immediate_result, after_duration, from_trigger, calculate_parsed,
  calculate_deadline,
}
use claim_it_all.Deadline.Engine.Grants.{
  Rolls, IsCalculated, trigger_of, Grants, outcome, outcome_lem, passes_iff, outcome_iff, Granted,
  verdict-parsed,
}

module _ (lx : Luxon) where
  open lx use {DateTime, set_zone, from_iso, to_iso, plus_days, plus_weeks, plus_months}

  -- The deadline, without the trace: the period is added to the trigger and moved off non-working
  -- days, then to the end or the start of its day.
  abbrev pub period_after : DurationUnit → ExecutableRule → CalendarRevision → DateTime → DateTime
  period_after DurationUnit.calendar_day rule calendar at =
      adjust_non_working lx calendar
        (plus_days
          (days_to_add (or_else rule.duration_value (pos 0)) rule.start_date_convention
            rule.counting)
          at)
        rule.non_working_adjustment
  period_after DurationUnit.business_day rule calendar at = add_business_days lx calendar at (
      pos_part (
        days_to_add (or_else rule.duration_value (pos 0)) rule.start_date_convention rule.counting))
  period_after DurationUnit.week rule calendar at =
      adjust_non_working lx calendar (plus_weeks (or_else rule.duration_value (pos 0)) at)
        rule.non_working_adjustment
  period_after DurationUnit.month rule calendar at =
      adjust_non_working lx calendar (plus_months (or_else rule.duration_value (pos 0)) at)
        rule.non_working_adjustment
  period_after _ rule calendar at = at

  abbrev pub deadline_after : ExecutableRule → CalendarRevision → DateTime → DateTime
  deadline_after rule calendar at =
      if is_immediate rule.duration_unit
      then at
      else end_of_period lx rule.end_date_convention
          (period_after rule.duration_unit rule calendar at)

  pub adjusted_at :
      (rule : ExecutableRule) (calendar : CalendarRevision) (cursor : DateTime)
      (trace : List TraceStep)
      → (adjust_end lx rule calendar cursor trace).0 ≡ (
          if adjusts lx rule.duration_unit
          then adjust_non_working lx calendar cursor rule.non_working_adjustment
          else cursor)
  unfolding adjust_end
  adjusted_at rule calendar cursor trace =
      let moved = adjust_non_working lx calendar cursor rule.non_working_adjustment in
      elim (Bool-cases (adjusts lx rule.duration_unit)) [
        | inr e ↦ rw e refl
        | inl e ↦ elim (Bool-cases (lx.has_same_day cursor moved)) [
          | inl f ↦ rw (e, f) refl
          | inr f ↦ rw (e, f) refl
        ]
      ]

  module _ (input : CalculateInput) (rule : ExecutableRule) (calendar : CalendarRevision) where
    finish_at :
        (at moved : DateTime) (trace : List TraceStep)
        → (finish lx input rule calendar at moved trace).contractual_deadline_at
          ≡ to_iso (
              end_of_period lx rule.end_date_convention (
                if adjusts lx rule.duration_unit
                then adjust_non_working lx calendar moved rule.non_working_adjustment
                else moved))
    unfolding finish apply_end_rule
    finish_at at moved trace =
        ap (λ d. to_iso (end_of_period lx rule.end_date_convention d))
          (adjusted_at rule calendar moved trace)

    -- The stages end in `finish`, at the end of the period.
    abbrev pub Finishes : DateTime → Stage lx → Type 0
    Finishes at stage =
        (moved : DateTime) × (trace : List TraceStep) × (after_duration lx input rule calendar at
            stage
          ≡ finish lx input rule calendar at moved trace)
        × ((if adjusts lx rule.duration_unit
              then adjust_non_working lx calendar moved rule.non_working_adjustment
              else moved)
            ≡ period_after rule.duration_unit rule calendar at)

    months-Finishes :
        (at : DateTime) (trace : List TraceStep) (roll : MonthRoll)
        → rule.duration_unit ≡ DurationUnit.month
        → Rolls DurationUnit.month roll
        → Finishes at (add_months lx roll rule at trace)
    unfolding add_months
    months-Finishes at trace MonthRoll.same_day_or_last e rolls = (_, _, refl, rw e refl)
    months-Finishes at trace MonthRoll.block_if_ambiguous e rolls = cc (rolls refl)

    pub added-Finishes :
        (at : DateTime) (trace : List TraceStep) (unit : DurationUnit)
        → rule.duration_unit ≡ unit
        → Rolls unit rule.month_roll_behavior
        → Finishes at (add_duration lx unit rule calendar at trace)
    unfolding add_duration
    added-Finishes at trace DurationUnit.month e rolls =
        months-Finishes at trace rule.month_roll_behavior e rolls
    added-Finishes at trace DurationUnit.calendar_day e rolls = (_, _, refl, rw e refl)
    added-Finishes at trace DurationUnit.business_day e rolls = (_, _, refl, rw e refl)
    added-Finishes at trace DurationUnit.week e rolls = (_, _, refl, rw e refl)
    added-Finishes at trace _ e rolls = (_, _, refl, rw e refl)

    from_trigger_at :
        (at : DateTime)
        → Rolls rule.duration_unit rule.month_roll_behavior
        → (from_trigger lx input rule calendar at).contractual_deadline_at
          ≡ to_iso (deadline_after rule calendar at)
    unfolding from_trigger immediate_result
    from_trigger_at at rolls = elim (Bool-cases (is_immediate rule.duration_unit)) [
      | inl e ↦ rw e refl
      | inr e ↦
          let (moved, trace, same, moves) = added-Finishes at _ rule.duration_unit refl rolls in
          rw e (
            ap (λ r. r.contractual_deadline_at) same
            ∙ finish_at at moved trace
            ∙ ap (λ d. to_iso (end_of_period lx rule.end_date_convention d)) moves)
    ]

    granted_at :
        Grants lx input rule calendar
        → (outcome lx input rule calendar).contractual_deadline_at
          ≡ to_iso (deadline_after rule calendar (trigger_of lx input))
    granted_at x =
        rw
          (outcome_lem lx input rule calendar ((passes_iff lx input rule calendar).1 x.executable)
            x.has_zone x.has_trigger x.has_trigger_zone)
          (from_trigger_at (trigger_of lx input) x.rolls)

  module _ {Raw : Type 0} (zod : Zod Raw) (raw : Raw) where
    parsed-Granted :
        (parsed : Parsed CalculateInput)
        → zod.parse_input raw ≡ parsed
        → IsCalculated lx (calculate_parsed lx zod parsed)
        → Granted lx zod raw
    unfolding blocked_result
    parsed-Granted (failure issues) e c = cc c
    parsed-Granted (success input) e c =
        let (rule, calendar, rule_parsed, calendar_parsed, grants) =
          verdict-parsed lx input (zod.parse_rule input.rule) (zod.parse_calendar input.calendar)
            c in
        record {
          input = input;
          rule = rule;
          calendar = calendar;
          input_parsed = e;
          rule_parsed = rule_parsed;
          calendar_parsed = calendar_parsed;
          grants = grants;
        }

    pub Granted-outcome :
        (g : Granted lx zod raw)
        → calculate_deadline lx zod raw ≡ outcome lx g.input g.rule g.calendar
    unfolding calculate_deadline
    Granted-outcome g = rw (g.input_parsed, g.rule_parsed, g.calendar_parsed) refl

    -- A deadline is calculated exactly when the schemas accept the input, its rule and its calendar,
    -- the rule is executable and says how a month rolls, and the time zones and the trigger are
    -- valid; otherwise the calculation is blocked.
    pub calculate_deadline_calculated_iff :
        ((calculate_deadline lx zod raw).status ≡ CalculationStatus.calculated) ↔ Granted lx zod raw
    unfolding calculate_deadline
    calculate_deadline_calculated_iff = (
      λ c. parsed-Granted (zod.parse_input raw) refl c,
      λ g.
          subst (IsCalculated lx) (sym (Granted-outcome g))
            ((outcome_iff lx g.input g.rule g.calendar).1 g.grants),
    )

    pub granted_deadline :
        (g : Granted lx zod raw)
        → (calculate_deadline lx zod raw).contractual_deadline_at
          ≡ to_iso (deadline_after g.rule g.calendar (trigger_of lx g.input))
    granted_deadline g =
        ap (λ r. r.contractual_deadline_at) (Granted-outcome g)
        ∙ granted_at g.input g.rule g.calendar g.grants
