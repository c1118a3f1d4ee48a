-- ===== src/Deadline/Engine/Compare.antt =====
-- `compareCalculationResults`.
use claim_it_all.Prelude.{
  Bool, true, false, not, Option, none, some, List, [], ◌∷◌, ◌++◌, ◌≡◌, ◌↔◌, refl, ap, arith,
  length, null, ◌==◌, ==_iff, if◌then◌else◌, some_inj,
}
use claim_it_all.Prelude.Text.{Text, text_eq, text_eq_iff}
use claim_it_all.Deadline.Types.{CalculationStatus, CalculateResult}

-- The texts of `differences`, without the two values that each one quotes.
pub data Difference : Type 0 where
  status deadline_at trace_length : Difference

pub record Comparison : Type 0 where
  pub equal : Bool
  pub differences : List Difference

abbrev same_status : CalculationStatus → CalculationStatus → Bool
same_status CalculationStatus.calculated CalculationStatus.calculated = true
same_status CalculationStatus.blocked CalculationStatus.blocked = true
same_status _ _ = false

abbrev same_text : Option Text → Option Text → Bool
same_text none none = true
same_text (some a) (some b) = text_eq a b
same_text _ _ = false

abbrev differs : Bool → Difference → List Difference
differs same difference = if not same then difference ∷ [] else []

abbrev differences_of : CalculateResult → CalculateResult → List Difference
differences_of a b =
    differs (same_status a.status b.status) status
    ++ (differs (same_text a.contractual_deadline_at b.contractual_deadline_at) deadline_at
        ++ differs (length a.trace == length b.trace) trace_length)

unfoldable pub compare_calculation_results : CalculateResult → CalculateResult → Comparison
compare_calculation_results a b = record {
  equal = null (differences_of a b);
  differences = differences_of a b;
}

same_status_iff : (a b : CalculationStatus) → (same_status a b ≡ true) ↔ (a ≡ b)
same_status_iff CalculationStatus.calculated CalculationStatus.calculated = (λ _. refl, λ _. refl)
same_status_iff CalculationStatus.blocked CalculationStatus.blocked = (λ _. refl, λ _. refl)
same_status_iff CalculationStatus.calculated CalculationStatus.blocked = (λ e. cc, λ e. cc)
same_status_iff CalculationStatus.blocked CalculationStatus.calculated = (λ e. cc, λ e. cc)

same_text_iff : (a b : Option Text) → (same_text a b ≡ true) ↔ (a ≡ b)
same_text_iff none none = (λ _. refl, λ _. refl)
same_text_iff none (some b) = (λ e. cc, λ e. cc)
same_text_iff (some a) none = (λ e. cc, λ e. cc)
same_text_iff (some a) (some b) =
    (λ e. ap some ((text_eq_iff a b).0 e), λ e. (text_eq_iff a b).1 (some_inj e))

null-differs :
    (s t u : Bool)
    → (null (differs s status ++ (differs t deadline_at ++ differs u trace_length)) ≡ true)
      ↔ ((s ≡ true) × (t ≡ true) × (u ≡ true))
null-differs s t u = ground arith

-- Two results compare as equal exactly when they have the same status, the same deadline and traces
-- of the same length.
pub compare_calculation_results_iff :
    (a b : CalculateResult)
    → ((compare_calculation_results a b).equal ≡ true) ↔ (
        (a.status ≡ b.status)
        × (a.contractual_deadline_at ≡ b.contractual_deadline_at)
        × (length a.trace ≡ length b.trace))
unfolding compare_calculation_results
compare_calculation_results_iff a b =
    let tests =
      null-differs (same_status a.status b.status)
        (same_text a.contractual_deadline_at b.contractual_deadline_at)
        (length a.trace == length b.trace) in
    (
      λ e.
          let (s, t, u) = tests.0 e in
          (
            (same_status_iff a.status b.status).0 s,
            (same_text_iff a.contractual_deadline_at b.contractual_deadline_at).0 t,
            (==_iff (length a.trace) (length b.trace)).0 u,
          ),
      λ (s, t, u). tests.1 (
        (same_status_iff a.status b.status).1 s,
        (same_text_iff a.contractual_deadline_at b.contractual_deadline_at).1 t,
        (==_iff (length a.trace) (length b.trace)).1 u,
      ),
    )
