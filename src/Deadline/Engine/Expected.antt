-- ===== src/Deadline/Engine/Expected.antt =====
-- The deadline of a rule, described apart from the code's steps.
use claim_it_all.Prelude.{
  Bool, true, false, not, ◌&&◌, ◌≡◌, refl, ap, ◌∙◌, or_else, if◌then◌else◌, Bool-cases, inl, inr,
}
use claim_it_all.Prelude.Int.{ℤ, pos, pos_part, ltb_ℤ, ◌-ℤ◌}
use claim_it_all.Deadline.Types.{
  one, DurationUnit, Counting, StartDateConvention, EndDateConvention, ExecutableRule,
  CalendarRevision,
}
use claim_it_all.Deadline.Luxon.{Luxon, Zod}
use claim_it_all.Deadline.Rule.{is_immediate}
use claim_it_all.Deadline.Calendar.{adjust_non_working, add_business_days}
use claim_it_all.Deadline.Steps.{days_to_add, end_of_period}
use claim_it_all.Deadline.Engine.{calculate_deadline}
use claim_it_all.Deadline.Engine.Grants.{trigger_of, Granted}
use claim_it_all.Deadline.Engine.Result.{period_after, granted_deadline}

-- The day of the trigger is the first of the period.
abbrev pub counts_trigger : StartDateConvention → Counting → Bool
counts_trigger StartDateConvention.include_trigger_day counting = true
counts_trigger StartDateConvention.exclude_trigger_day Counting.inclusive = true
counts_trigger StartDateConvention.exclude_trigger_day _ = false

-- The days of the period, without the first where that is the day of the trigger and the period has
-- a whole day.
abbrev pub days_of : ExecutableRule → ℤ
days_of rule =
    let days = or_else rule.duration_value (pos 0) in
    if counts_trigger rule.start_date_convention rule.counting && not (ltb_ℤ days (pos one))
    then days -ℤ pos one
    else days

days_agree :
    (days : ℤ) (start : StartDateConvention) (counting : Counting)
    → days_to_add days start counting ≡ (
        if counts_trigger start counting && not (ltb_ℤ days (pos one))
        then days -ℤ pos one
        else days)
unfolding days_to_add
days_agree days start counting = elim (Bool-cases (ltb_ℤ days (pos one))) [
  | inl e ↦ short start counting e
  | inr e ↦ whole start counting e
]
  where
    short :
        (start : StartDateConvention) (counting : Counting)
        → ltb_ℤ days (pos one) ≡ true
        → days_to_add days start counting ≡ (
            if counts_trigger start counting && not (ltb_ℤ days (pos one))
            then days -ℤ pos one
            else days)
    short StartDateConvention.include_trigger_day counting e = rw e refl
    short StartDateConvention.exclude_trigger_day Counting.inclusive e = rw e refl
    short StartDateConvention.exclude_trigger_day _ e = refl

    whole :
        (start : StartDateConvention) (counting : Counting)
        → ltb_ℤ days (pos one) ≡ false
        → days_to_add days start counting ≡ (
            if counts_trigger start counting && not (ltb_ℤ days (pos one))
            then days -ℤ pos one
            else days)
    whole StartDateConvention.include_trigger_day counting e = rw e refl
    whole StartDateConvention.exclude_trigger_day Counting.inclusive e = rw e refl
    whole StartDateConvention.exclude_trigger_day _ e = refl

module _ (lx : Luxon) where
  open lx use {DateTime, to_iso, plus_days, plus_weeks, plus_months, start_of_day, end_of_day}

  abbrev pub ended : EndDateConvention → DateTime → DateTime
  ended EndDateConvention.end_of_day at = end_of_day at
  ended EndDateConvention.start_of_day at = start_of_day at
  ended EndDateConvention.exact_timestamp at = at

  -- The period after a time, by its unit.
  abbrev pub expected_at : DurationUnit → ExecutableRule → CalendarRevision → DateTime → DateTime
  expected_at DurationUnit.immediate rule calendar at = at
  expected_at DurationUnit.calendar_day rule calendar at =
      ended rule.end_date_convention
        (adjust_non_working lx calendar (plus_days (days_of rule) at) rule.non_working_adjustment)
  expected_at DurationUnit.business_day rule calendar at =
      ended rule.end_date_convention (add_business_days lx calendar at (pos_part (days_of rule)))
  expected_at DurationUnit.week rule calendar at = ended rule.end_date_convention (
      adjust_non_working lx calendar (plus_weeks (or_else rule.duration_value (pos 0)) at)
        rule.non_working_adjustment)
  expected_at DurationUnit.month rule calendar at = ended rule.end_date_convention (
      adjust_non_working lx calendar (plus_months (or_else rule.duration_value (pos 0)) at)
        rule.non_working_adjustment)
  expected_at _ rule calendar at = ended rule.end_date_convention at

  ended_agree :
      (convention : EndDateConvention) (at : DateTime)
      → end_of_period lx convention at ≡ ended convention at
  ended_agree EndDateConvention.end_of_day at = refl
  ended_agree _ at = refl

  deadline_agree :
      (unit : DurationUnit) (rule : ExecutableRule) (calendar : CalendarRevision) (at : DateTime)
      → (if is_immediate unit
          then at
          else end_of_period lx rule.end_date_convention (period_after lx unit rule calendar at))
        ≡ expected_at unit rule calendar at
  deadline_agree DurationUnit.immediate rule calendar at = refl
  deadline_agree DurationUnit.calendar_day rule calendar at =
      rw (days_agree (or_else rule.duration_value (pos 0)) rule.start_date_convention rule.counting)
        (ended_agree rule.end_date_convention _)
  deadline_agree DurationUnit.business_day rule calendar at =
      rw (days_agree (or_else rule.duration_value (pos 0)) rule.start_date_convention rule.counting)
        (ended_agree rule.end_date_convention _)
  deadline_agree _ rule calendar at = ended_agree rule.end_date_convention _

  -- A deadline that is granted is the trigger of an IMMEDIATE rule. That of any other is the time
  -- that its period leads to: so many days, weeks or months later, moved off days that are not
  -- business days, or so many business days later, and then at the end or the start of its day, or
  -- at that time, as the rule says. Of a period in days that has a whole day, the day of the trigger
  -- is the first where the rule includes it or counts inclusively.
  pub calculate_deadline_at :
      {Raw : Type 0} (zod : Zod Raw) (raw : Raw) (g : Granted lx zod raw)
      → (calculate_deadline lx zod raw).contractual_deadline_at
        ≡ to_iso (expected_at g.rule.duration_unit g.rule g.calendar (trigger_of lx g.input))
  calculate_deadline_at zod raw g =
      granted_deadline lx zod raw g
      ∙ ap to_iso (deadline_agree g.rule.duration_unit g.rule g.calendar (trigger_of lx g.input))
