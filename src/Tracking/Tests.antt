-- ===== src/Tracking/Tests.antt =====
-- An event, from its creation to a deadline that is tracked and replaced.
use claim_it_all.Prelude.{
  ℕ, ◌+◌, ◌-◌, ◌/◌, ◌%◌, true, false, none, some, [], ◌∷◌, ◌≡◌, refl, arith, leb, ◌==◌,
}
use claim_it_all.Prelude.Int.{pos, negsuc}
use claim_it_all.Prelude.Text.{codes}
use claim_it_all.Prelude.Json.{Json, end, field}
use claim_it_all.Authz.Capabilities.{capabilities, is_same, deadline_recalculate}
use claim_it_all.Authz.Permissions.{has_capability}
use claim_it_all.Service.Result.{Result, ok, thrown}
use claim_it_all.Service.Context.{ProjectContext, with_capability}
use claim_it_all.Deadline.Types.{
  one, DurationUnit, Counting, TimeBar, StartDateConvention, EndDateConvention,
  NonWorkingAdjustment, MonthRoll, ExecutableRule,
}
use claim_it_all.Deadline.Types as Engine
use claim_it_all.Deadline.Luxon.{Luxon, success}
use claim_it_all.Deadline.Engine.{
  calculate_deadline, calculate_checked, validate_calendar_revision, validate_trigger_date,
  from_trigger, finish,
}
use claim_it_all.Deadline.Rule.{validate_executable_rule}
use claim_it_all.Deadline.Steps.{add_duration}
use claim_it_all.Tracking.Types.{
  EventCategory, CreateProjectEvent, AddProjectEventDate, CreateProjectCalendar,
  CreateCalendarRevision, DateType, DatePrecision, RuleSnapshot, DeadlineCalculation, RawInput,
}
use claim_it_all.Tracking.Store.{
  Db, Surroundings, as_capable, load_project_event, calendar_revision_to_engine_input,
  snapshot_structured_rule,
}
use claim_it_all.Tracking.Events.{
  create_event_in, create_project_event, add_date_in, add_project_event_date, verify_date_in,
  verify_project_event_date, Confirmation, confirm_event_in, confirm_project_event,
}
use claim_it_all.Tracking.Rules.{confirm_rule_in, confirm_rule_applicability}
use claim_it_all.Tracking.Calendars.{
  create_calendar_in, create_project_calendar, create_revision_in, create_calendar_revision,
  approve_revision_in, approve_calendar_revision,
}
use claim_it_all.Tracking.Calculation.{
  engine_result, internal_rows, milestone_rows, look_up, make_calculation, calculate_internal,
  calculate_in, calculate_event_deadline,
}
use claim_it_all.Tracking.Deadlines.{
  find_calculation, verify_in, verify_deadline_calculation, contractual_milestone_of,
  notice_category_of, track_in, create_tracked_deadline, can_recalculate, RecalculateInput,
  replace_deadlines, recalculate_in, recalculate_deadline,
}
use claim_it_all.Tracking.Traceable.{IsTraceable}
use claim_it_all.Tracking.Makes.{IsNew}
use claim_it_all.Tracking.Reach.{Step, Steps, done, next, Steps-IsTraceable}
use claim_it_all.Tracking.Carried.{live, recalculate_deadline-Carries}

-- A time is a number of days; its text is that number.
abbrev lx : Luxon
lx = record {
  DateTime = ℕ;
  from_iso = λ t. elim t [ [] ↦ 0 | d ∷ _ ↦ d ];
  now = 0;
  set_zone = λ zone d. d;
  is_valid = λ d. true;
  invalid_reason = λ d. [];
  zone_name = λ d. codes "UTC";
  weekday = λ d. d % 7 + 1;
  to_iso_date = λ d. some (d ∷ []);
  to_iso = λ d. some (d ∷ []);
  plus_days = λ n d. elim n [ pos k ↦ d + k / one | negsuc k ↦ d - (k / one + 1) ];
  minus_days = λ n d. d;
  plus_weeks = λ n d. d;
  plus_months = λ n d. d;
  start_of_day = λ d. d;
  end_of_day = λ d. d;
  has_same_day = λ a b. a == b;
  at_most = leb;
}

-- 28 days, from the day after the event.
abbrev rule : ExecutableRule
rule = record {
  duration_unit = DurationUnit.calendar_day;
  duration_value = some (pos 280000);
  counting = Counting.exclusive;
  start_date_convention = StartDateConvention.exclude_trigger_day;
  end_date_convention = EndDateConvention.end_of_day;
  non_working_adjustment = NonWorkingAdjustment.forward;
  time_bar_classification = TimeBar.procedural_deadline;
  ambiguity_notes = [];
  human_approved = true;
  required_recipients_approved = true;
  month_roll_behavior = MonthRoll.block_if_ambiguous;
}

abbrev parse : RawInput → Engine.CalculateInput
parse raw = record {
  rule = rule;
  trigger_date_iso = raw.trigger_date_iso;
  trigger_precision = raw.trigger_precision;
  calendar = raw.calendar;
  internal_warning_offsets_days = [];
}

abbrev env : Surroundings
env = record {
  luxon = lx;
  zod = record {
    parse_input = λ raw. success (parse raw);
    parse_rule = success;
    parse_calendar = success;
  };
  date_of = λ t. elim t [ [] ↦ none | d ∷ _ ↦ some d ];
  iso_of = λ d. d ∷ [];
  calculation_segregated = true;
  calendar_segregated = false;
}

abbrev person : ℕ → ProjectContext
person id = record { tenant_id = 1; project_id = 2; user_id = id; capabilities = capabilities }

abbrev snapshot : RuleSnapshot
snapshot = record {
  id = 3;
  tenant_id = 1;
  project_id = 2;
  contract_package_id = 4;
  configuration_revision_id = 5;
  terms = record {
    duration_value = some (codes "28");
    duration_unit = none;
    counting_convention = codes "EXCLUSIVE";
    start_date_rule = none;
    end_date_rule = none;
    business_day_adjustment = none;
  };
  notice_category = none;
  structured_rule =
      Json.object (field (codes "durationUnit") Json.null (field (codes "counting") Json.null end));
}

abbrev start : Db
start = record {
  next_id = 10;
  events = [];
  dates = [];
  evidence = [];
  assessments = [];
  calendars = [];
  revisions = [];
  calculations = [];
  milestones = [];
  deadlines = [];
  history = [];
  audit = [];
  contract_packages = [];
  source_documents = [];
  document_versions = [];
  evidence_segments = [];
  snapshots = snapshot ∷ [];
  configurations = (record { id = 5; is_active_approved = true; is_approved = true }) ∷ [];
}

start-IsTraceable : IsTraceable env start
start-IsTraceable = record {
  calculations = tt;
  unique = λ id. omega arith;
  bounded = tt;
  tracked_once = λ id. omega arith;
}

abbrev event_input : CreateProjectEvent
event_input = record {
  title = codes "Late drawing";
  description = none;
  event_category = EventCategory.late_drawing_or_approval;
  event_subcategory = none;
  contract_package_id = none;
  timezone = codes "UTC";
  event_reference = none;
}

abbrev date_input : AddProjectEventDate
date_input = record {
  date_type = DateType.occurrence_date;
  date_value = 100 ∷ [];
  timezone = codes "UTC";
  precision = DatePrecision.exact_date;
  notes = none;
}

abbrev calendar_input : CreateProjectCalendar
calendar_input = record {
  name = codes "Site";
  timezone = codes "UTC";
  weekend_days = 6 ∷ 7 ∷ [];
  source = none;
}

abbrev revision_input : CreateCalendarRevision
revision_input = record {
  timezone = none;
  weekend_days = 6 ∷ 7 ∷ [];
  holidays = [];
  special_working_days = [];
  effective_from = none;
  effective_to = none;
}

-- The event is 10, its date 11, the assessment 12, the calendar 13 and its revision 14.
abbrev confirmed : Db
confirmed =
    let a = (create_project_event (person 1) (some event_input) start).1 in
    let b = (add_project_event_date env (person 1) 10 (some date_input) a).1 in
    let c = (verify_project_event_date 7 (person 1) 10 11 b).1 in
    (confirm_project_event 7 (person 1) 10 (some Confirmation.for_deadline_analysis) c).1

abbrev prepared : Db
prepared =
    let e =
      (confirm_rule_applicability 7 (person 1) 10 (some (3, codes "It applies")) confirmed).1 in
    let f = (create_project_calendar (person 1) (some calendar_input) e).1 in
    let g = (create_calendar_revision env (person 1) 13 (some revision_input) f).1 in
    (approve_calendar_revision env 7 (person 1) 13 14 g).1

-- The calculation is 15, its milestone 16, and the deadline 17.
abbrev with_calculation : Db
with_calculation = (calculate_event_deadline env (person 1) 10 (some (12, 14, 11)) prepared).1

abbrev tracked : Db
tracked =
    let verified = (verify_deadline_calculation env 8 (person 2) 15 with_calculation).1 in
    (create_tracked_deadline (person 1) 15 verified).1

abbrev again : RecalculateInput
again = record { trigger_date_id = none; calendar_revision_id = none; reason = codes "Checked" }

abbrev recalculated : Result DeadlineCalculation × Db
recalculated = recalculate_deadline env (person 1) 15 (some again) tracked

abbrev HasRow : Result DeadlineCalculation → Type 0
HasRow (ok row) = Unit
HasRow (thrown error) = ⊥

abbrev row_of : (r : Result DeadlineCalculation) → HasRow r → DeadlineCalculation
row_of (ok row) h = row
row_of (thrown error) h = absurd h

-- 28 days after day 100, the deadline is live; it is superseded when it is calculated again.
tracked_once :
    (live 15 tracked.deadlines ≡ 1)
    × (live 15 recalculated.1.deadlines ≡ 0)
    × (live 18 recalculated.1.deadlines ≡ 1)
unfolding create_event_in as_capable with_capability add_date_in load_project_event verify_date_in
    confirm_event_in confirm_rule_in create_calendar_in create_revision_in approve_revision_in
    is_same calculate_in calculate_internal look_up make_calculation engine_result milestone_rows
    internal_rows snapshot_structured_rule calendar_revision_to_engine_input verify_in
    find_calculation track_in contractual_milestone_of notice_category_of recalculate_in
    replace_deadlines calculate_deadline calculate_checked validate_executable_rule
    validate_calendar_revision validate_trigger_date from_trigger add_duration finish
tracked_once = (refl, refl, refl)

recalculated-row : HasRow recalculated.0
unfolding create_event_in as_capable with_capability add_date_in load_project_event verify_date_in
    confirm_event_in confirm_rule_in create_calendar_in create_revision_in approve_revision_in
    is_same calculate_in calculate_internal look_up make_calculation engine_result milestone_rows
    internal_rows snapshot_structured_rule calendar_revision_to_engine_input verify_in
    find_calculation track_in contractual_milestone_of notice_category_of recalculate_in
    replace_deadlines calculate_deadline calculate_checked validate_executable_rule
    validate_calendar_revision validate_trigger_date from_trigger add_duration finish
recalculated-row = tt

has_row_lem : (p : Result DeadlineCalculation × Db) (h : HasRow p.0) → p ≡ (ok (row_of p.0 h), p.1)
has_row_lem (ok row, db) h = refl
has_row_lem (thrown error, db) h = absurd h

recalculated_lem : recalculated ≡ (ok (row_of recalculated.0 recalculated-row), recalculated.1)
recalculated_lem = has_row_lem recalculated recalculated-row

to_tracked : Steps env start tracked
to_tracked = next (Step.create_event (person 1) (some event_input)) (
    next (Step.add_date (person 1) 10 (some date_input)) (
      next (Step.verify_date 7 (person 1) 10 11) (
        next (Step.confirm_event 7 (person 1) 10 (some Confirmation.for_deadline_analysis)) (
          next (Step.confirm_rule 7 (person 1) 10 (some (3, codes "It applies"))) (
            next (Step.create_calendar (person 1) (some calendar_input)) (
              next (Step.create_revision (person 1) 13 (some revision_input)) (
                next (Step.approve_revision 7 (person 1) 13 14) (
                  next (Step.calculate (person 1) 10 (some (12, 14, 11))) (
                    next (Step.verify 8 (person 2) 15)
                      (next (Step.track (person 1) 15) done))))))))))

Steps-IsTraceable_example : IsTraceable env tracked
Steps-IsTraceable_example = Steps-IsTraceable env to_tracked start-IsTraceable

tracked-IsTraceable : IsTraceable env tracked
tracked-IsTraceable = Steps-IsTraceable env to_tracked start-IsTraceable

recalculate_deadline-Carries_example :
    (has_capability (person 1).capabilities deadline_recalculate ≡ true)
    × ((prior : DeadlineCalculation) × (find_calculation (person 1) 15 tracked ≡ ok prior)
        × (can_recalculate prior.calculation_status ≡ true)
        × (live prior.id recalculated.1.deadlines ≡ 0)
        × (live (row_of recalculated.0 recalculated-row).id recalculated.1.deadlines
            ≡ live prior.id tracked.deadlines)
        × IsNew (row_of recalculated.0 recalculated-row).calculation_status)
recalculate_deadline-Carries_example =
    recalculate_deadline-Carries env (person 1) 15 (some again) tracked recalculated.1
      (row_of recalculated.0 recalculated-row) recalculated_lem tracked-IsTraceable
