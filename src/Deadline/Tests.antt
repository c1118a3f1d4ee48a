-- ===== src/Deadline/Tests.antt =====
-- The deadline engine over a simple calendar: a time is a number of days, day 0 is a Monday.
use claim_it_all.Prelude.{
  ℕ, zero, suc, ◌+◌, ◌-◌, ◌/◌, ◌%◌, true, some, [], ◌∷◌, ◌≡◌, refl, arith, leb, ◌==◌,
}
use claim_it_all.Prelude.Int.{ℤ, pos, negsuc, ◌-ℤ◌}
use claim_it_all.Prelude.Text.{codes}
use claim_it_all.Deadline.Types.{
  one, DurationUnit, Counting, TimeBar, StartDateConvention, EndDateConvention,
  NonWorkingAdjustment, MonthRoll, TriggerPrecision, ExecutableRule, CalendarRevision,
  CalculateInput, CalculationStatus,
}
use claim_it_all.Deadline.Luxon.{Luxon, success, Zod}
use claim_it_all.Deadline.Rule.{validate_executable_rule}
use claim_it_all.Deadline.Rule.Laws.{IsExecutable, validate_executable_rule_iff}
use claim_it_all.Deadline.Calendar.{is_business_day, add_business_days, adjust_non_working}
use claim_it_all.Deadline.Calendar.Loops.{later, business_days}
use claim_it_all.Deadline.Calendar.Laws.{
  business_days_mono, Covers, add_business_days-Covers, add_business_days_short, Adjusts,
  adjust_non_working-Adjusts,
}
use claim_it_all.Deadline.Engine.{calculate_deadline}
use claim_it_all.Deadline.Engine.Trace.{IsNumbered, calculate_deadline-IsNumbered}
use claim_it_all.Deadline.Engine.Grants.{trigger_of, Granted}
use claim_it_all.Deadline.Engine.Result.{calculate_deadline_calculated_iff}
use claim_it_all.Deadline.Engine.Expected.{calculate_deadline_at}
use claim_it_all.Deadline.Engine.Milestones.{expected, calculate_deadline_milestones}

abbrev shift : ℤ → ℕ → ℕ
shift (pos n) d = d + n / one
shift (negsuc n) d = d - (n / one + 1)

abbrev back : ℤ → ℕ → ℕ
back (pos n) d = d - n / one
back (negsuc n) d = d + (n / one + 1)

-- The week starts with weekday `w`, and goes on for `length` days.
abbrev days_from : ℕ → Luxon
days_from week = record {
  DateTime = ℕ;
  from_iso = λ t. 0;
  now = 0;
  set_zone = λ zone d. d;
  is_valid = λ d. true;
  invalid_reason = λ d. [];
  zone_name = λ d. codes "UTC";
  weekday = λ d. d % week + 1;
  to_iso_date = λ d. some (d ∷ []);
  to_iso = λ d. some (d ∷ []);
  plus_days = shift;
  minus_days = back;
  plus_weeks = λ n d. d;
  plus_months = λ n d. d;
  start_of_day = λ d. d;
  end_of_day = λ d. d;
  has_same_day = λ a b. a == b;
  at_most = leb;
}

abbrev lx : Luxon
lx = days_from 7

abbrev calendar : CalendarRevision
calendar = record {
  timezone = codes "UTC";
  weekend_days = 6 ∷ 7 ∷ [];
  holidays = [];
  special_working_days = [];
}

abbrev rule : ExecutableRule
rule = record {
  duration_unit = DurationUnit.business_day;
  duration_value = some (pos 70000);
  counting = Counting.exclusive;
  start_date_convention = StartDateConvention.exclude_trigger_day;
  end_date_convention = EndDateConvention.end_of_day;
  non_working_adjustment = NonWorkingAdjustment.forward;
  time_bar_classification = TimeBar.procedural_deadline;
  ambiguity_notes = [];
  human_approved = true;
  required_recipients_approved = true;
  month_roll_behavior = MonthRoll.block_if_ambiguous;
}

abbrev input : CalculateInput
input = record {
  rule = rule;
  trigger_date_iso = codes "1970-01-05";
  trigger_precision = TriggerPrecision.exact_date;
  calendar = calendar;
  internal_warning_offsets_days = 2 ∷ 30 ∷ [];
}

abbrev zod : Zod CalculateInput
zod = record { parse_input = success; parse_rule = success; parse_calendar = success }

executable : IsExecutable rule
executable = record {
  approved = refl;
  unambiguous = refl;
  certain = λ e. cc e;
  recipients = refl;
  counted = λ e. cc e;
  duration = (pos 70000, refl, ground arith);
}

never_rolls :
    DurationUnit.business_day ≡ DurationUnit.month
    → MonthRoll.block_if_ambiguous ≡ MonthRoll.same_day_or_last
never_rolls e = cc

abbrev granted : Granted lx zod input
granted = record {
  input = input;
  rule = rule;
  calendar = calendar;
  input_parsed = refl;
  rule_parsed = refl;
  calendar_parsed = refl;
  grants = record {
    executable = executable;
    has_zone = refl;
    has_trigger = refl;
    has_trigger_zone = refl;
    rolls = never_rolls;
  };
}

validate_executable_rule_iff_example : (validate_executable_rule (success rule)).ok ≡ true
validate_executable_rule_iff_example =
    (validate_executable_rule_iff (success rule)).1 (rule, refl, executable)

calculate_deadline_calculated_iff_example :
    (calculate_deadline lx zod input).status ≡ CalculationStatus.calculated
calculate_deadline_calculated_iff_example =
    (calculate_deadline_calculated_iff lx zod input).1 granted

-- Seven calendar days that count the day of the trigger, to the end of the day, which is the number
-- of the day and a thousand.
abbrev clock : Luxon
clock = record lx { end_of_day = λ (d : ℕ). d + 1000 }

abbrev counted_rule : ExecutableRule
counted_rule = record rule {
  duration_unit = DurationUnit.calendar_day;
  counting = Counting.inclusive;
  non_working_adjustment = NonWorkingAdjustment.no_adjustment;
}

abbrev counted_input : CalculateInput
counted_input = record input { rule = counted_rule }

counted-IsExecutable : IsExecutable counted_rule
counted-IsExecutable = record {
  approved = refl;
  unambiguous = refl;
  certain = λ e. cc e;
  recipients = refl;
  counted = λ e. cc e;
  duration = (pos 70000, refl, ground arith);
}

never_counted :
    DurationUnit.calendar_day ≡ DurationUnit.month
    → MonthRoll.block_if_ambiguous ≡ MonthRoll.same_day_or_last
never_counted e = cc

abbrev counted_granted : Granted clock zod counted_input
counted_granted = record {
  input = counted_input;
  rule = counted_rule;
  calendar = calendar;
  input_parsed = refl;
  rule_parsed = refl;
  calendar_parsed = refl;
  grants = record {
    executable = counted-IsExecutable;
    has_zone = refl;
    has_trigger = refl;
    has_trigger_zone = refl;
    rolls = never_counted;
  };
}

calculate_deadline_at_example :
    (calculate_deadline clock zod counted_input).contractual_deadline_at ≡ some (1006 ∷ [])
unfolding adjust_non_working ◌-ℤ◌
calculate_deadline_at_example = calculate_deadline_at clock zod counted_input counted_granted

calculate_deadline_milestones_example :
    (calculate_deadline lx zod input).internal_milestones
    ≡ expected lx input rule calendar (trigger_of lx input)
calculate_deadline_milestones_example = calculate_deadline_milestones lx zod input granted

calculate_deadline-IsNumbered_example : IsNumbered 1 (calculate_deadline lx zod input).trace
calculate_deadline-IsNumbered_example = calculate_deadline-IsNumbered lx zod input

two_days : business_days lx calendar 4 3 ≡ 2
unfolding business_days is_business_day
two_days = refl

-- Two business days from a Thursday: the Friday and the Monday.
add_business_days-Covers_example :
    (k : ℕ) × (add_business_days lx calendar 3 20000 ≡ later lx calendar k 3)
    × Covers lx calendar 20000 k 3
add_business_days-Covers_example =
    add_business_days-Covers lx calendar 3 20000
      (omega (arith, business_days_mono lx calendar 4 5000 3 (omega arith), two_days))

-- A calendar whose every day is a Monday, and a Monday is a day of rest.
abbrev resting : CalendarRevision
resting = record calendar { weekend_days = 1 ∷ [] }

nobody_works : (k d : ℕ) → business_days (days_from 1) resting k d ≡ 0
unfolding business_days is_business_day
nobody_works zero d = refl
nobody_works (suc k) d = ground (arith, nobody_works k (shift (pos one) d))

add_business_days_short_example :
    add_business_days (days_from 1) resting 0 10000 ≡ later (days_from 1) resting 5000 0
add_business_days_short_example =
    add_business_days_short (days_from 1) resting 0 10000 (omega (arith, nobody_works 5000 0))

adjust_non_working-Adjusts_example :
    Adjusts lx calendar NonWorkingAdjustment.forward 5
      (adjust_non_working lx calendar 5 NonWorkingAdjustment.forward)
adjust_non_working-Adjusts_example =
    adjust_non_working-Adjusts lx calendar 5 NonWorkingAdjustment.forward
