-- ===== src/Deadline/Rule.antt =====
-- `validateExecutableRule`.
pub mod Laws
use claim_it_all.Prelude.{
  Bool, true, false, not, ◌&&◌, ◌||◌, Option, none, some, List, [], ◌∷◌, ◌++◌, map, null,
  if◌then◌else◌,
}
use claim_it_all.Prelude.Int.{ℤ, pos, ltb_ℤ}
use claim_it_all.Deadline.Types.{
  DurationUnit, Counting, TimeBar, ExecutableRule, Reason, not_human_approved, ambiguity_unresolved,
  time_bar_uncertain, recipients_not_approved, not_definitive, custom_not_executable,
  counting_unspecified, value_required, value_negative, immediate_has_value, issue,
}
use claim_it_all.Deadline.Luxon.{Parsed, success, failure}

-- `NON_NUMERIC.has(unit)`
abbrev pub non_numeric : DurationUnit → Bool
non_numeric DurationUnit.immediate = true
non_numeric DurationUnit.prompt = true
non_numeric DurationUnit.reasonable_time = true
non_numeric _ = false

abbrev pub is_immediate : DurationUnit → Bool
is_immediate DurationUnit.immediate = true
is_immediate _ = false

-- `if (test) reasons.push(reason)`
abbrev pub push_if : Bool → Reason → List Reason
push_if test reason = if test then reason ∷ [] else []

abbrev is_uncertain : TimeBar → Bool
is_uncertain TimeBar.uncertain = true
is_uncertain _ = false

abbrev is_unspecified : Counting → Bool
is_unspecified Counting.unspecified = true
is_unspecified _ = false

abbrev pub unit_reasons : DurationUnit → List Reason
unit_reasons DurationUnit.prompt = not_definitive DurationUnit.prompt ∷ []
unit_reasons DurationUnit.reasonable_time = not_definitive DurationUnit.reasonable_time ∷ []
unit_reasons DurationUnit.custom = custom_not_executable ∷ []
unit_reasons _ = []

abbrev pub numeric_value_reasons : Option ℤ → List Reason
numeric_value_reasons none = value_required ∷ []
numeric_value_reasons (some v) = push_if (ltb_ℤ v (pos 0)) value_negative

abbrev pub immediate_value_reasons : Option ℤ → List Reason
immediate_value_reasons none = []
immediate_value_reasons (some v) = immediate_has_value ∷ []

abbrev pub value_reasons : DurationUnit → Option ℤ → List Reason
value_reasons DurationUnit.immediate value = immediate_value_reasons value
value_reasons DurationUnit.prompt value = []
value_reasons DurationUnit.reasonable_time value = []
value_reasons _ value = numeric_value_reasons value

pub rule_reasons : ExecutableRule → List Reason
rule_reasons value =
    push_if (not value.human_approved) not_human_approved
    ++ (push_if (not (null value.ambiguity_notes)) ambiguity_unresolved
        ++ (push_if (is_uncertain value.time_bar_classification) time_bar_uncertain
            ++ (push_if (not value.required_recipients_approved) recipients_not_approved
                ++ (unit_reasons value.duration_unit
                    ++ (push_if (is_unspecified value.counting) counting_unspecified
                        ++ value_reasons value.duration_unit value.duration_value)))))

-- `value` is undefined when the schema refuses the input.
pub record RuleCheck : Type 0 where
  pub ok : Bool
  pub reasons : List Reason
  pub value : Option ExecutableRule

unfoldable pub validate_executable_rule : Parsed ExecutableRule → RuleCheck
unfolding rule_reasons
validate_executable_rule (failure issues) = record {
  ok = false;
  reasons = map issue issues;
  value = none;
}
validate_executable_rule (success value) = record {
  ok = null (rule_reasons value);
  reasons = rule_reasons value;
  value = some value;
}
