-- ===== src/Deadline/Rule/Laws.antt =====
-- Which rules are executable.
use claim_it_all.Prelude.{
  true, false, Option, none, some, List, [], ◌∷◌, ◌++◌, ◌≡◌, ◌≢◌, ◌↔◌, refl, sym, ap, arith, null,
}
use claim_it_all.Prelude.Int.{ℤ, pos, ◌≤ℤ◌}
use mathlib.Core.Path.{subst}
use claim_it_all.Deadline.Types.{
  Reason, counting_unspecified, DurationUnit, Counting, TimeBar, ExecutableRule,
}
use claim_it_all.Deadline.Luxon.{Parsed, success, failure}
use claim_it_all.Deadline.Rule.{
  push_if, is_uncertain, is_unspecified, unit_reasons, value_reasons, rule_reasons,
  validate_executable_rule,
}

-- A unit that the engine computes with, and a duration that fits it: a number of days, weeks or
-- months that is not negative, or none for IMMEDIATE.
abbrev pub HasDuration : DurationUnit → Option ℤ → Type 0
HasDuration DurationUnit.immediate value = value ≡ none
HasDuration DurationUnit.prompt value = ⊥
HasDuration DurationUnit.reasonable_time value = ⊥
HasDuration DurationUnit.custom value = ⊥
HasDuration _ value = (v : ℤ) × (value ≡ some v) × (pos 0 ≤ℤ v)

pub record IsExecutable (rule : ExecutableRule) : Type 0 where
  pub approved : rule.human_approved ≡ true
  pub unambiguous : rule.ambiguity_notes ≡ []
  pub certain : rule.time_bar_classification ≢ TimeBar.uncertain
  pub recipients : rule.required_recipients_approved ≡ true
  pub counted : rule.counting ≢ Counting.unspecified
  pub duration : HasDuration rule.duration_unit rule.duration_value

null-append_iff :
    {A : Type 0} (xs ys : List A) → (null (xs ++ ys) ≡ true) ↔ ((null xs ≡ true) × (null ys ≡ true))
null-append_iff [] ys = ground arith
null-append_iff (x ∷ xs) ys = ground arith

duration_iff :
    (unit : DurationUnit) (value : Option ℤ)
    → ((null (unit_reasons unit) ≡ true) × (null (value_reasons unit value) ≡ true))
      ↔ HasDuration unit value
duration_iff DurationUnit.immediate none = ground arith
duration_iff DurationUnit.immediate (some v) = ground arith
duration_iff DurationUnit.prompt value = ground arith
duration_iff DurationUnit.reasonable_time value = ground arith
duration_iff DurationUnit.custom none = ground arith
duration_iff DurationUnit.custom (some v) = ground arith
duration_iff _ none = (λ h. cc, λ (v, e, _). cc)
duration_iff _ (some v) = (λ h. (v, refl, ground arith), λ (w, e, le). ground arith)

null→nil : {A : Type 0} (xs : List A) → null xs ≡ true → xs ≡ []
null→nil [] h = refl
null→nil (x ∷ xs) h = cc

is_uncertain_ne : (t : TimeBar) → t ≢ TimeBar.uncertain → is_uncertain t ≡ false
is_uncertain_ne t h = ground arith

is_unspecified_ne : (c : Counting) → c ≢ Counting.unspecified → is_unspecified c ≡ false
is_unspecified_ne c h = ground arith

value_of : ExecutableRule → Parsed ExecutableRule → ExecutableRule
value_of d (success r) = r
value_of d (failure _) = d

pub success_inj : {a b : ExecutableRule} → success a ≡ success b → a ≡ b
unfolding value_of
success_inj {a} e = ap (value_of a) e

-- The reasons about approval, and those about the duration.
duration_reasons : ExecutableRule → List Reason
duration_reasons rule =
    push_if (is_unspecified rule.counting) counting_unspecified
    ++ value_reasons rule.duration_unit rule.duration_value

null-rule_reasons :
    (rule : ExecutableRule)
    → (null (rule_reasons rule) ≡ true) ↔ (
        (rule.human_approved ≡ true)
        × (null rule.ambiguity_notes ≡ true)
        × (is_uncertain rule.time_bar_classification ≡ false)
        × (rule.required_recipients_approved ≡ true)
        × (is_unspecified rule.counting ≡ false)
        × ((null (unit_reasons rule.duration_unit) ≡ true)
            × (null (value_reasons rule.duration_unit rule.duration_value) ≡ true)))
unfolding rule_reasons duration_reasons
null-rule_reasons rule =
    ground (arith, null-append_iff (unit_reasons rule.duration_unit) (duration_reasons rule))

rule_reasons-IsExecutable :
    (rule : ExecutableRule) → null (rule_reasons rule) ≡ true → IsExecutable rule
rule_reasons-IsExecutable rule h =
    let (approved, notes, certain, recipients, counted, duration) = (null-rule_reasons rule).0 h in
    record {
      approved = approved;
      unambiguous = null→nil rule.ambiguity_notes notes;
      certain = λ e. cc (ap is_uncertain e);
      recipients = recipients;
      counted = λ e. cc (ap is_unspecified e);
      duration = (duration_iff rule.duration_unit rule.duration_value).0 duration;
    }

IsExecutable-rule_reasons :
    (rule : ExecutableRule) → IsExecutable rule → null (rule_reasons rule) ≡ true
IsExecutable-rule_reasons rule x = (null-rule_reasons rule).1 (
  x.approved,
  ground arith,
  is_uncertain_ne rule.time_bar_classification x.certain,
  x.recipients,
  is_unspecified_ne rule.counting x.counted,
  (duration_iff rule.duration_unit rule.duration_value).1 x.duration,
)

-- A rule that the schema accepts passes the check exactly when it is approved, has no open ambiguity
-- note, is of a certain class, has approved recipients and a counting convention, and has a duration
-- that the engine can compute with; one that the schema refuses never passes.
pub validate_executable_rule_iff :
    (parsed : Parsed ExecutableRule)
    → ((validate_executable_rule parsed).ok ≡ true)
      ↔ ((rule : ExecutableRule) × (parsed ≡ success rule) × IsExecutable rule)
unfolding validate_executable_rule
validate_executable_rule_iff (failure issues) = (λ h. cc, λ (rule, e, _). cc)
validate_executable_rule_iff (success rule) = (
  λ h. (rule, refl, rule_reasons-IsExecutable rule h),
  λ (r, e, x). IsExecutable-rule_reasons rule (subst IsExecutable (sym (success_inj e)) x),
)
