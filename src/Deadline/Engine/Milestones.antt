-- ===== src/Deadline/Engine/Milestones.antt =====
-- The internal milestones of a calculated deadline.
use claim_it_all.Prelude.{
  ℕ, ◌*◌, Bool, true, false, not, ◌||◌, Option, none, some, List, [], ◌∷◌, ◌++◌, ◌≡◌, ◌∙◌, refl,
  sym, ap, or_else, if◌then◌else◌, Bool-cases, inl, inr,
}
use claim_it_all.Prelude.Int.{pos}
use claim_it_all.Prelude.Text.{Text}
use claim_it_all.Deadline.Types.{
  one, InternalMilestone, TraceStep, ExecutableRule, CalendarRevision, CalculateInput,
}
use claim_it_all.Deadline.Luxon.{Luxon, Zod}
use claim_it_all.Deadline.Rule.{is_immediate}
use claim_it_all.Deadline.Steps.{filled, warn, apply_end_rule, adjust_end, end_of_period}
use claim_it_all.Deadline.Engine.{finish, immediate_result, from_trigger, calculate_deadline}
use claim_it_all.Deadline.Engine.Grants.{
  Rolls, Grants, trigger_of, outcome, outcome_lem, passes_iff, Granted,
}
use claim_it_all.Deadline.Engine.Result.{
  adjusted_at, added-Finishes, deadline_after, Granted-outcome,
}

module _ (lx : Luxon) where
  open lx use {DateTime, to_iso, minus_days, at_most}

  abbrev printed : ℕ → Option Text → List InternalMilestone
  printed offset none = []
  printed offset (some []) = []
  printed offset (some (c ∷ cs)) =
      (record { due_at_iso = c ∷ cs; offset_days_before_deadline = offset }) ∷ []

  -- The milestone `offset` days before the deadline, if it lies after the trigger.
  abbrev warning : DateTime → DateTime → ℕ → List InternalMilestone
  warning trigger deadline offset =
      let at = minus_days (pos (offset * one)) deadline in
      if at_most at trigger then [] else printed offset (to_iso at)

  unfoldable pub milestones : DateTime → DateTime → List ℕ → List InternalMilestone
  milestones trigger deadline [] = []
  milestones trigger deadline (offset ∷ offsets) =
      warning trigger deadline offset ++ milestones trigger deadline offsets

  abbrev found_by : Bool → ℕ → Option Text → List InternalMilestone → List InternalMilestone
  found_by early offset due found =
      let milestone : InternalMilestone = record {
        due_at_iso = or_else due [];
        offset_days_before_deadline = offset;
      } in
      if early || not (filled lx due) then found else found ++ milestone ∷ []

  ++_nil : {A : Type 0} (xs : List A) → xs ++ [] ≡ xs
  ++_nil [] = refl
  ++_nil (x ∷ xs) = ap (λ ys. x ∷ ys) (++_nil xs)

  ++_assoc : {A : Type 0} (xs ys zs : List A) → (xs ++ ys) ++ zs ≡ xs ++ (ys ++ zs)
  ++_assoc [] ys zs = refl
  ++_assoc (x ∷ xs) ys zs = ap (λ ws. x ∷ ws) (++_assoc xs ys zs)

  found_lem :
      (early : Bool) (offset : ℕ) (due : Option Text) (found : List InternalMilestone)
      → found_by early offset due found ≡ found ++ (if early then [] else printed offset due)
  found_lem true offset due found = sym (++_nil found)
  found_lem false offset none found = sym (++_nil found)
  found_lem false offset (some []) found = sym (++_nil found)
  found_lem false offset (some (c ∷ cs)) found = refl

  warn_lem :
      (trigger deadline : DateTime) (offsets : List ℕ) (trace : List TraceStep)
      (found : List InternalMilestone)
      → (warn lx trigger deadline offsets trace found).1
        ≡ found ++ milestones trigger deadline offsets
  unfolding warn milestones
  warn_lem trigger deadline [] trace found = sym (++_nil found)
  warn_lem trigger deadline (offset ∷ offsets) trace found =
      let at = minus_days (pos (offset * one)) deadline in
      let early = at_most at trigger in
      warn_lem trigger deadline offsets _ _
      ∙ ap (λ xs. xs ++ milestones trigger deadline offsets)
          (found_lem early offset (to_iso at) found)
      ∙ ++_assoc found (warning trigger deadline offset) (milestones trigger deadline offsets)

  module _ (input : CalculateInput) (rule : ExecutableRule) (calendar : CalendarRevision) where
    finish-milestones :
        (at moved : DateTime) (trace : List TraceStep)
        → (finish lx input rule calendar at moved trace).internal_milestones
          ≡ milestones at
              (end_of_period lx rule.end_date_convention
                (adjust_end lx rule calendar moved trace).0)
              input.internal_warning_offsets_days
    unfolding finish apply_end_rule
    finish-milestones at moved trace = warn_lem at _ input.internal_warning_offsets_days _ []

    -- The milestones of a granted deadline.
    abbrev pub expected : DateTime → List InternalMilestone
    expected at =
        if is_immediate rule.duration_unit
        then []
        else milestones at (deadline_after lx rule calendar at) input.internal_warning_offsets_days

    from_trigger_milestones :
        (at : DateTime)
        → Rolls rule.duration_unit rule.month_roll_behavior
        → (from_trigger lx input rule calendar at).internal_milestones ≡ expected at
    unfolding from_trigger immediate_result
    from_trigger_milestones at rolls = elim (Bool-cases (is_immediate rule.duration_unit)) [
      | inl e ↦ rw e refl
      | inr e ↦
          let (moved, trace, same, moves) =
            added-Finishes lx input rule calendar at _ rule.duration_unit refl rolls in
          rw e (
            ap (λ r. r.internal_milestones) same
            ∙ finish-milestones at moved trace
            ∙ ap
                (λ d.
                  milestones at (end_of_period lx rule.end_date_convention d)
                    input.internal_warning_offsets_days)
                (adjusted_at lx rule calendar moved trace ∙ moves))
    ]

    granted_milestones :
        Grants lx input rule calendar
        → (outcome lx input rule calendar).internal_milestones ≡ expected (trigger_of lx input)
    granted_milestones x =
        rw
          (outcome_lem lx input rule calendar ((passes_iff lx input rule calendar).1 x.executable)
            x.has_zone x.has_trigger x.has_trigger_zone)
          (from_trigger_milestones (trigger_of lx input) x.rolls)

  -- A granted deadline has, for each offset asked for and in their order, the milestone that many
  -- days before the deadline, without those at or before the trigger; an IMMEDIATE one has none.
  pub calculate_deadline_milestones :
      {Raw : Type 0} (zod : Zod Raw) (raw : Raw) (g : Granted lx zod raw)
      → (calculate_deadline lx zod raw).internal_milestones
        ≡ expected g.input g.rule g.calendar (trigger_of lx g.input)
  calculate_deadline_milestones zod raw g =
      ap (λ r. r.internal_milestones) (Granted-outcome lx zod raw g)
      ∙ granted_milestones g.input g.rule g.calendar g.grants
