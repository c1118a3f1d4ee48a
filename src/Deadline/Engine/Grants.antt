-- ===== src/Deadline/Engine/Grants.antt =====
-- What a rule, a calendar and a trigger have to satisfy for a deadline.
use claim_it_all.Prelude.{true, false, List, ◌≡◌, ◌↔◌, ◌∙◌, refl, sym, Bool-cases, ◌⊎◌, inl, inr}
use mathlib.Core.Path.{subst}
use claim_it_all.Deadline.Types.{
  DurationUnit, TraceStep, MonthRoll, ExecutableRule, CalendarRevision, CalculateInput,
  CalculationStatus, CalculateResult,
}
use claim_it_all.Deadline.Luxon.{Luxon, Parsed, success, failure, Zod}
use claim_it_all.Deadline.Rule.{validate_executable_rule, is_immediate}
use claim_it_all.Deadline.Rule.Laws.{IsExecutable, success_inj, validate_executable_rule_iff}
use claim_it_all.Deadline.Steps.{add_months, add_duration}
use claim_it_all.Deadline.Engine.{
  blocked_result, validate_trigger_date, validate_calendar_revision, finish, immediate_result,
  after_duration, from_trigger, refuse_trigger, refuse_checks, calculate_checked,
}

-- A month is added only where the rule says how it rolls.
abbrev pub Rolls : DurationUnit → MonthRoll → Type 0
Rolls unit roll = unit ≡ DurationUnit.month → roll ≡ MonthRoll.same_day_or_last

module _ (lx : Luxon) where
  open lx use {
    DateTime, from_iso, now, set_zone, is_valid, to_iso, plus_days, plus_weeks, plus_months,
  }

  abbrev pub IsCalculated : CalculateResult → Type 0
  IsCalculated r = r.status ≡ CalculationStatus.calculated

  add_months_iff :
      (roll : MonthRoll) (input : CalculateInput) (rule : ExecutableRule)
      (calendar : CalendarRevision) (at : DateTime) (trace : List TraceStep)
      → IsCalculated (after_duration lx input rule calendar at (add_months lx roll rule at trace))
        ↔ Rolls DurationUnit.month roll
  unfolding add_months blocked_result finish
  add_months_iff MonthRoll.same_day_or_last input rule calendar at trace = (λ _ _. refl, λ _. refl)
  add_months_iff MonthRoll.block_if_ambiguous input rule calendar at trace =
      (λ h _. cc, λ h. cc (h refl))

  add_duration_iff :
      (unit : DurationUnit) (input : CalculateInput) (rule : ExecutableRule)
      (calendar : CalendarRevision) (at : DateTime) (trace : List TraceStep)
      → IsCalculated
          (after_duration lx input rule calendar at (add_duration lx unit rule calendar at trace))
        ↔ Rolls unit rule.month_roll_behavior
  unfolding add_duration finish
  add_duration_iff DurationUnit.month input rule calendar at trace =
      add_months_iff rule.month_roll_behavior input rule calendar at trace
  add_duration_iff DurationUnit.calendar_day input rule calendar at trace = (λ _ e. cc, λ _. refl)
  add_duration_iff DurationUnit.business_day input rule calendar at trace = (λ _ e. cc, λ _. refl)
  add_duration_iff DurationUnit.week input rule calendar at trace = (λ _ e. cc, λ _. refl)
  add_duration_iff _ input rule calendar at trace = (λ _ e. cc, λ _. refl)

  from_trigger_iff :
      (input : CalculateInput) (rule : ExecutableRule) (calendar : CalendarRevision) (at : DateTime)
      → IsCalculated (from_trigger lx input rule calendar at)
        ↔ Rolls rule.duration_unit rule.month_roll_behavior
  unfolding from_trigger immediate_result
  from_trigger_iff input rule calendar at = elim (unit_cases rule.duration_unit) [
    | inl e ↦ (λ _ f. cc (sym e ∙ f), λ _. rw e refl)
    | inr e ↦ rw e (add_duration_iff rule.duration_unit input rule calendar at _)
  ]
    where
      unit_cases : (u : DurationUnit) → (u ≡ DurationUnit.immediate) ⊎ (is_immediate u ≡ false)
      unit_cases DurationUnit.immediate = inl refl
      unit_cases _ = inr refl

  -- The trigger, read in the zone of the input's calendar.
  abbrev pub trigger_of : CalculateInput → DateTime
  trigger_of input = set_zone input.calendar.timezone (from_iso input.trigger_date_iso)

  -- What a rule, a calendar and a trigger have to satisfy.
  pub record Grants (input : CalculateInput) (rule : ExecutableRule) (calendar : CalendarRevision)
      : Type 0 where
    pub executable : IsExecutable rule
    pub has_zone : is_valid (set_zone calendar.timezone now) ≡ true
    pub has_trigger : is_valid (from_iso input.trigger_date_iso) ≡ true
    pub has_trigger_zone : is_valid (trigger_of input) ≡ true
    pub rolls : Rolls rule.duration_unit rule.month_roll_behavior

  module _ (input : CalculateInput) (rule : ExecutableRule) (calendar : CalendarRevision) where
    abbrev pub outcome : CalculateResult
    outcome =
        calculate_checked lx input (validate_executable_rule (success rule))
          (validate_calendar_revision lx (success calendar))

    pub outcome_lem :
        (validate_executable_rule (success rule)).ok ≡ true
        → is_valid (set_zone calendar.timezone now) ≡ true
        → is_valid (from_iso input.trigger_date_iso) ≡ true
        → is_valid (trigger_of input) ≡ true
        → outcome ≡ from_trigger lx input rule calendar (trigger_of input)
    unfolding calculate_checked validate_executable_rule validate_calendar_revision
        validate_trigger_date
    outcome_lem e f g h = rw (e, f, g, h) refl

    executable_asked : IsCalculated outcome → (validate_executable_rule (success rule)).ok ≡ true
    unfolding calculate_checked validate_executable_rule validate_calendar_revision refuse_checks
        blocked_result
    executable_asked c = elim (Bool-cases (validate_executable_rule (success rule)).ok) [
      | inl e ↦ e
      | inr e ↦ elim (Bool-cases (is_valid (set_zone calendar.timezone now))) [
        | inl f ↦ cc (rw (e, f) at c)
        | inr f ↦ cc (rw (e, f) at c)
      ]
    ]

    zone_asked : IsCalculated outcome → is_valid (set_zone calendar.timezone now) ≡ true
    unfolding calculate_checked validate_executable_rule validate_calendar_revision refuse_checks
        blocked_result
    zone_asked c = elim (Bool-cases (is_valid (set_zone calendar.timezone now))) [
      | inl f ↦ f
      | inr f ↦ cc (rw f at c)
    ]

    trigger_asked :
        (validate_executable_rule (success rule)).ok ≡ true
        → is_valid (set_zone calendar.timezone now) ≡ true
        → IsCalculated outcome
        → (is_valid (from_iso input.trigger_date_iso) ≡ true) × (is_valid (trigger_of input) ≡ true)
    unfolding calculate_checked validate_executable_rule validate_calendar_revision
        validate_trigger_date refuse_trigger blocked_result
    trigger_asked e f c = elim (Bool-cases (is_valid (from_iso input.trigger_date_iso))) [
      | inr g ↦ cc (rw (e, f, g) at c)
      | inl g ↦ elim (Bool-cases (is_valid (trigger_of input))) [
        | inr h ↦ cc (rw (e, f, g, h) at c)
        | inl h ↦ (g, h)
      ]
    ]

    pub passes_iff : ((validate_executable_rule (success rule)).ok ≡ true) ↔ IsExecutable rule
    passes_iff = (
      λ e.
          let (r, same, x) = (validate_executable_rule_iff (success rule)).0 e in
          subst IsExecutable (sym (success_inj same)) x,
      λ x. (validate_executable_rule_iff (success rule)).1 (rule, refl, x),
    )

    pub outcome_iff : IsCalculated outcome ↔ Grants input rule calendar
    outcome_iff = (
      λ c.
          let e = executable_asked c in
          let f = zone_asked c in
          let (g, h) = trigger_asked e f c in
          record {
            executable = passes_iff.0 e;
            has_zone = f;
            has_trigger = g;
            has_trigger_zone = h;
            rolls =
                (from_trigger_iff input rule calendar (trigger_of input)).0
                  (subst IsCalculated (outcome_lem e f g h) c);
          },
      λ x.
          subst IsCalculated
            (sym
              (outcome_lem (passes_iff.1 x.executable) x.has_zone x.has_trigger x.has_trigger_zone))
            ((from_trigger_iff input rule calendar (trigger_of input)).1 x.rolls),
    )

  -- A raw input that the schemas accept, with a rule, a calendar and a trigger that grant a deadline.
  pub record Granted {Raw : Type 0} (zod : Zod Raw) (raw : Raw) : Type 0 where
    pub input : CalculateInput
    pub rule : ExecutableRule
    pub calendar : CalendarRevision
    pub input_parsed : zod.parse_input raw ≡ success input
    pub rule_parsed : zod.parse_rule input.rule ≡ success rule
    pub calendar_parsed : zod.parse_calendar input.calendar ≡ success calendar
    pub grants : Grants input rule calendar

  -- What the engine answers for what the schemas make of an input.
  module _ (input : CalculateInput) where
    abbrev verdict : Parsed ExecutableRule → Parsed CalendarRevision → CalculateResult
    verdict rule calendar =
        calculate_checked lx input (validate_executable_rule rule)
          (validate_calendar_revision lx calendar)

    pub verdict-parsed :
        (rule : Parsed ExecutableRule) (calendar : Parsed CalendarRevision)
        → IsCalculated (verdict rule calendar)
        → (r : ExecutableRule) × (c : CalendarRevision) × (rule ≡ success r)
          × (calendar ≡ success c)
          × Grants input r c
    unfolding calculate_checked validate_executable_rule validate_calendar_revision refuse_checks
        blocked_result
    verdict-parsed (failure issues) calendar c = cc c
    verdict-parsed (success r) (failure issues) c = cc c
    verdict-parsed (success r) (success k) c = (r, k, refl, refl, (outcome_iff input r k).0 c)
