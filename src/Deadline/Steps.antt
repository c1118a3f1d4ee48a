-- ===== src/Deadline/Steps.antt =====
-- The steps of `calculateDeadline`, each from a cursor and a trace to the next.
use claim_it_all.Prelude.{
  ℕ, ◌+◌, ◌*◌, Bool, true, false, not, ◌||◌, Option, none, some, List, [], ◌∷◌, ◌++◌, length, null,
  or_else, if◌then◌else◌,
}
use claim_it_all.Prelude.Int.{ℤ, pos, pos_part, ◌-ℤ◌, ltb_ℤ}
use claim_it_all.Prelude.Text.{Text}
use claim_it_all.Deadline.Types.{
  one, DurationUnit, Counting, TraceOperation, Entry, TraceStep, StartDateConvention,
  EndDateConvention, MonthRoll, ExecutableRule, CalendarRevision, Reason, month_end_not_approved,
  InternalMilestone,
}
use claim_it_all.Deadline.Luxon.{Luxon}
use claim_it_all.Deadline.Calendar.{adjust_non_working, add_business_days}

unfoldable pub push_step :
    List TraceStep → TraceOperation → List Entry → List Entry → Bool → Bool → List TraceStep
push_step trace operation input output assumption warning =
    trace
    ++ (record {
      sequence = length trace + 1;
      operation = operation;
      input = input;
      output = output;
      assumption = assumption;
      warning = warning;
    })
      ∷ []

-- `daysToAdd`
abbrev minus_one : ℤ → ℤ
minus_one raw = if ltb_ℤ raw (pos one) then raw else raw -ℤ pos one

unfoldable pub days_to_add : ℤ → StartDateConvention → Counting → ℤ
unfolding ◌-ℤ◌
days_to_add raw StartDateConvention.include_trigger_day counting = minus_one raw
days_to_add raw StartDateConvention.exclude_trigger_day Counting.inclusive = minus_one raw
days_to_add raw StartDateConvention.exclude_trigger_day _ = raw

module _ (lx : Luxon) where
  open lx use {
    DateTime, from_iso, now, set_zone, is_valid, invalid_reason, zone_name, to_iso, plus_days,
    minus_days, plus_weeks, plus_months, start_of_day, end_of_day, has_same_day, at_most,
  }

  -- A stage returns early, or hands on the cursor and the trace.
  pub data Stage : Type 0 where
    stopped : Reason → List TraceStep → Stage
    going : DateTime → List TraceStep → Stage

  unfoldable pub add_months : MonthRoll → ExecutableRule → DateTime → List TraceStep → Stage
  unfolding push_step
  add_months MonthRoll.block_if_ambiguous rule cursor trace = stopped month_end_not_approved (
      push_step trace TraceOperation.block_ambiguous_rule
        (Entry.roll MonthRoll.block_if_ambiguous ∷ []) [] false true)
  add_months MonthRoll.same_day_or_last rule cursor trace =
      let moved = plus_months (or_else rule.duration_value (pos 0)) cursor in
      going moved (
        push_step trace TraceOperation.add_months
          (Entry.optional_amount rule.duration_value ∷ Entry.roll MonthRoll.same_day_or_last ∷ [])
          (Entry.instant (to_iso moved) ∷ []) false false)

  -- The period is added: the chain of `if`s on `durationUnit`.
  unfoldable pub add_duration :
      DurationUnit → ExecutableRule → CalendarRevision → DateTime → List TraceStep → Stage
  unfolding push_step days_to_add add_months
  add_duration DurationUnit.calendar_day rule calendar cursor trace =
      let raw = or_else rule.duration_value (pos 0) in
      let days = days_to_add raw rule.start_date_convention rule.counting in
      let moved = plus_days days cursor in
      going moved (
        push_step trace TraceOperation.add_calendar_days (Entry.amount days ∷ Entry.amount raw ∷ [])
          (Entry.instant (to_iso moved) ∷ []) false false)
  add_duration DurationUnit.business_day rule calendar cursor trace =
      let raw = or_else rule.duration_value (pos 0) in
      let days = days_to_add raw rule.start_date_convention rule.counting in
      let moved = add_business_days lx calendar cursor (pos_part days) in
      going moved (
        push_step trace TraceOperation.add_business_days
          (Entry.amount days ∷ Entry.amount raw ∷ Entry.weekend calendar.weekend_days ∷ [])
          (Entry.instant (to_iso moved) ∷ []) false false)
  add_duration DurationUnit.week rule calendar cursor trace =
      let moved = plus_weeks (or_else rule.duration_value (pos 0)) cursor in
      going moved (
        push_step trace TraceOperation.add_weeks (Entry.optional_amount rule.duration_value ∷ [])
          (Entry.instant (to_iso moved) ∷ []) false false)
  add_duration DurationUnit.month rule calendar cursor trace =
      add_months rule.month_roll_behavior rule cursor trace
  add_duration _ rule calendar cursor trace = going cursor trace

  abbrev pub adjusts : DurationUnit → Bool
  adjusts DurationUnit.calendar_day = true
  adjusts DurationUnit.week = true
  adjusts DurationUnit.month = true
  adjusts _ = false

  -- The final day is moved off non-working days, except for business days.
  unfoldable pub adjust_end :
      ExecutableRule → CalendarRevision → DateTime → List TraceStep → DateTime × List TraceStep
  unfolding push_step
  adjust_end rule calendar cursor trace =
      let moved = adjust_non_working lx calendar cursor rule.non_working_adjustment in
      if not (adjusts rule.duration_unit)
      then (cursor, trace)
      else if has_same_day cursor moved
      then (moved, trace)
      else (
        moved,
        push_step trace TraceOperation.apply_weekend_adjustment
            (Entry.instant (to_iso cursor) ∷ Entry.adjustment rule.non_working_adjustment ∷ [])
            (Entry.instant (to_iso moved) ∷ []) false false,
      )

  abbrev pub end_of_period : EndDateConvention → DateTime → DateTime
  end_of_period EndDateConvention.end_of_day cursor = end_of_day cursor
  end_of_period EndDateConvention.start_of_day cursor = start_of_day cursor
  end_of_period EndDateConvention.exact_timestamp cursor = cursor

  unfoldable pub apply_end_rule :
      EndDateConvention → DateTime → List TraceStep → DateTime × List TraceStep
  unfolding push_step
  apply_end_rule convention cursor trace =
      let moved = end_of_period convention cursor in
      (
        moved,
        push_step trace TraceOperation.apply_end_day_rule (Entry.end_convention convention ∷ [])
            (Entry.instant (to_iso moved) ∷ []) false false,
      )

  abbrev pub filled : Option Text → Bool
  filled none = false
  filled (some t) = not (null t)

  -- The loop over the offsets of the internal warnings.
  unfoldable pub warn :
      DateTime
      → DateTime
      → List ℕ
      → List TraceStep
      → List InternalMilestone
      → List TraceStep × List InternalMilestone
  warn trigger cursor [] trace found = (trace, found)
  warn trigger cursor (offset ∷ offsets) trace found =
      let warn_at = minus_days (pos (offset * one)) cursor in
      let due = to_iso warn_at in
      let pushed =
        push_step trace TraceOperation.apply_internal_buffer
          (Entry.amount (pos (offset * one)) ∷ []) (Entry.instant due ∷ []) true false in
      let milestone : InternalMilestone = record {
        due_at_iso = or_else due [];
        offset_days_before_deadline = offset;
      } in
      let is_skipped = at_most warn_at trigger || not (filled due) in
      warn trigger cursor offsets (if is_skipped then trace else pushed)
        (if is_skipped then found else found ++ milestone ∷ [])
