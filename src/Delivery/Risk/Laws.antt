-- ===== src/Delivery/Risk/Laws.antt =====
-- The reported level against the indicators.
use claim_it_all.Prelude.{
  ℕ, ◌+◌, Bool, true, false, not, Option, none, some, List, [], ◌∷◌, ◌++◌, ◌≡◌, refl, arith, ltb,
  leb, if◌then◌else◌,
}
use Prim.Native.Nat.{max}
use mathlib.Core.List.{append_assoc, append-nil}
use claim_it_all.Delivery.Types.{RiskLevel, medium, high, critical}
use claim_it_all.Delivery.Risk.{
  Indicator, RiskInput, Risk, index_of, bump, bump_if, bump_deadline, compute_delivery_risk,
}

-- How bad each indicator is.
abbrev pub severity : Indicator → ℕ
severity Indicator.missing_verified_recipient = 3
severity Indicator.authorization_expired = 3
severity Indicator.dispatched_after_deadline = 3
severity Indicator.deadline_passed = 3
severity Indicator.manual_proof_missing = 1
severity Indicator.receipt_unconfirmed = 1
severity _ = 2

abbrev pub worst : List Indicator → ℕ
worst [] = 0
worst (i ∷ is) = max (severity i) (worst is)

-- The level is that of the worst indicator.
abbrev pub IsWorst : Risk → Type 0
IsWorst r = index_of r.level ≡ worst r.indicators

worst-append : (is js : List Indicator) → worst (is ++ js) ≡ max (worst is) (worst js)
worst-append [] js = omega arith
worst-append (i ∷ is) js = omega (arith, worst-append is js)

bump-IsWorst :
    (next : RiskLevel) (code : Indicator) (r : Risk)
    → index_of next ≡ severity code
    → IsWorst r
    → IsWorst (bump next code r)
unfolding bump
bump-IsWorst next code r s w = ground (arith, worst-append r.indicators (code ∷ []))

bump_if-IsWorst :
    (test : Bool) (next : RiskLevel) (code : Indicator) (r : Risk)
    → index_of next ≡ severity code
    → IsWorst r
    → IsWorst (bump_if test next code r)
unfolding bump_if
bump_if-IsWorst true next code r s w = bump-IsWorst next code r s w
bump_if-IsWorst false next code r s w = w

bump_deadline-IsWorst :
    (at : Option ℕ) (now : ℕ) (r : Risk) → IsWorst r → IsWorst (bump_deadline at now r)
unfolding bump_deadline
bump_deadline-IsWorst none now r w = w
bump_deadline-IsWorst (some at) now r w = ground (
  arith,
  bump-IsWorst critical Indicator.deadline_passed r refl w,
  bump-IsWorst high Indicator.deadline_within_24h r refl w,
)

-- The risk level is exactly that of the worst indicator raised, LOW if there is none.
pub compute_delivery_risk-IsWorst : (input : RiskInput) → IsWorst (compute_delivery_risk input)
unfolding compute_delivery_risk
compute_delivery_risk-IsWorst input = bump_deadline-IsWorst input.deadline_at input.now _ (
    bump_if-IsWorst _ critical Indicator.dispatched_after_deadline _ refl (
      bump_if-IsWorst _ medium Indicator.receipt_unconfirmed _ refl (
        bump_if-IsWorst _ medium Indicator.manual_proof_missing _ refl (
          bump_if-IsWorst _ high Indicator.required_recipient_failed _ refl (
            bump_if-IsWorst _ high Indicator.provider_unavailable _ refl (
              bump_if-IsWorst _ high Indicator.attachment_over_limit _ refl (
                bump_if-IsWorst _ high Indicator.method_not_permitted _ refl (
                  bump_if-IsWorst _ critical Indicator.authorization_expired _ refl (
                    bump_if-IsWorst _ critical Indicator.missing_verified_recipient _ refl
                      refl)))))))))

abbrev pub raised : Bool → Indicator → List Indicator
raised test code = if test then code ∷ [] else []

abbrev pub raised_deadline : Option ℕ → ℕ → List Indicator
raised_deadline none now = []
raised_deadline (some at) now =
    if ltb at now
    then Indicator.deadline_passed ∷ []
    else raised (leb at (now + 86400000)) Indicator.deadline_within_24h

bump_if-indicators :
    (test : Bool) (next : RiskLevel) (code : Indicator) (r : Risk)
    → (bump_if test next code r).indicators ≡ r.indicators ++ raised test code
unfolding bump_if bump
bump_if-indicators true next code r = refl
bump_if-indicators false next code r = rw append-nil

bump_deadline-indicators :
    (at : Option ℕ) (now : ℕ) (r : Risk)
    → (bump_deadline at now r).indicators ≡ r.indicators ++ raised_deadline at now
unfolding bump_deadline bump
bump_deadline-indicators none now r = rw append-nil
bump_deadline-indicators (some at) now r = ground (arith, append-nil r.indicators)

-- Each indicator is raised exactly when its flag is set, in the order of the source, and that of the
-- deadline when it has passed or is at most a day away; the level is that of the worst of them.
pub compute_delivery_risk_lem :
    (input : RiskInput)
    → ((compute_delivery_risk input).indicators
        ≡ raised input.missing_verified_recipient Indicator.missing_verified_recipient
          ++ (raised input.authorization_expired Indicator.authorization_expired
              ++ (raised input.method_not_permitted Indicator.method_not_permitted
                  ++ (raised input.attachment_over_limit Indicator.attachment_over_limit
                      ++ (raised (not input.provider_configured) Indicator.provider_unavailable
                          ++ (raised input.required_recipient_failed
                                Indicator.required_recipient_failed
                              ++ (raised input.manual_proof_missing Indicator.manual_proof_missing
                                  ++ (raised input.receipt_unconfirmed Indicator.receipt_unconfirmed
                                      ++ (raised input.dispatched_after_deadline
                                            Indicator.dispatched_after_deadline
                                          ++ raised_deadline input.deadline_at input.now)))))))))
      × IsWorst (compute_delivery_risk input)
unfolding compute_delivery_risk
compute_delivery_risk_lem input = (
  simp (bump_deadline-indicators, bump_if-indicators, append_assoc),
  compute_delivery_risk-IsWorst input,
)
