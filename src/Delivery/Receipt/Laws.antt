-- ===== src/Delivery/Receipt/Laws.antt =====
-- The day that the NEXT_WORKING_DAY rule finds.
use claim_it_all.Prelude.{
  ℕ, zero, suc, ◌+◌, ◌*◌, ◌≤◌, ◌<◌, Bool, true, false, Option, none, some, ◌≡◌, ◌↔◌, ◌⊎◌, inl, inr,
  refl, arith, Bool-cases, Option-cases, some_inj,
}
use mathlib.Core.Path.{subst}
use claim_it_all.Delivery.Types.{AuthorizationStatus}
use claim_it_all.Delivery.Receipt.{
  DeemedRule, day, is_week_day, seek, DeemedReceipt, found_day, assess_deemed_receipt,
  assert_authorization_dispatchable, is_past,
}

-- `t` is the first of the days after `from` that passes the test, at most `left` days on.
abbrev pub IsFirst : (ℕ → Bool) → ℕ → ℕ → ℕ → Type 0
IsFirst is_working left from t =
    (k : ℕ) × (k < left)
    × (t ≡ from + k * day)
    × (is_working t ≡ true)
    × ((j : ℕ) → j < k → is_working (from + j * day) ≡ false)

later_rests :
    (is_working : ℕ → Bool) (from k : ℕ)
    → is_working from ≡ false
    → ((j : ℕ) → j < k → is_working (from + day + j * day) ≡ false)
    → (j : ℕ) → j < suc k
    → is_working (from + j * day) ≡ false
later_rests is_working from k rests h zero lt =
    subst (λ n. is_working n ≡ false) (omega arith) rests
later_rests is_working from k rests h (suc j) lt =
    subst (λ n. is_working n ≡ false) (omega arith) (h j (omega arith))

IsFirst-suc :
    (is_working : ℕ → Bool) (left from t : ℕ)
    → is_working from ≡ false
    → IsFirst is_working left (from + day) t
    → IsFirst is_working (suc left) from t
IsFirst-suc is_working left from t rests (k, lt, at, works, earlier) =
    (suc k, omega arith, omega arith, works, later_rests is_working from k rests earlier)

seek_sound :
    (is_working : ℕ → Bool) (left from t : ℕ)
    → seek is_working left from ≡ some t
    → IsFirst is_working left from t
unfolding seek
seek_sound is_working zero from t e = cc
seek_sound is_working (suc left) from t e = elim (Bool-cases (is_working from)) [
  | inl works ↦
      let here : from ≡ t = some_inj (rw works at e) in
      (0, omega arith, omega arith, rw (← here) works, λ j lt. absurd (omega arith))
  | inr rests ↦
      IsFirst-suc is_working left from t rests
        (seek_sound is_working left (from + day) t (rw rests at e))
]

seek-none :
    (is_working : ℕ → Bool) (left from : ℕ)
    → seek is_working left from ≡ none
    → (j : ℕ) → j < left
    → is_working (from + j * day) ≡ false
unfolding seek
seek-none is_working zero from e = λ j lt. absurd (omega arith)
seek-none is_working (suc left) from e = elim (Bool-cases (is_working from)) [
  | inl works ↦ cc (rw works at e)
  | inr rests ↦
      later_rests is_working from left rests
        (seek-none is_working left (from + day) (rw rests at e))
]

-- What NEXT_WORKING_DAY answers for a message sent at `t`.
abbrev pub Answers : (ℕ → Bool) → ℕ → DeemedReceipt → Type 0
Answers is_working t r =
    ((u : ℕ) × (r.advisory_at ≡ some u) × IsFirst is_working 14 (t + day) u)
    ⊎ ((r.advisory_at ≡ none) × ((j : ℕ) → j < 14 → is_working (t + day + j * day) ≡ false))

found_day-Answers :
    (is_working : ℕ → Bool) (t : ℕ)
    → Answers is_working t (found_day DeemedRule.next_working_day (seek is_working 14 (t + day)))
found_day-Answers is_working t = elim (Option-cases (seek is_working 14 (t + day))) [
  | inl e ↦ rw e (inr (refl, seek-none is_working 14 (t + day) e))
  | inr (u, e) ↦ rw e (inl (u, refl, seek_sound is_working 14 (t + day) u e))
]

-- The rule finds the first working day after the day of sending, if one of the next fourteen days is
-- one, and answers nothing only if none of them is.
pub assess_next_working_day :
    (is_working : ℕ → Bool) (t : ℕ) (delivered days : Option ℕ)
    → Answers is_working t (
        assess_deemed_receipt DeemedRule.next_working_day (some t) delivered days (some is_working))
unfolding assess_deemed_receipt
assess_next_working_day is_working t delivered days = found_day-Answers is_working t

seek_week_day : (t : ℕ) → (u : ℕ) × (seek is_week_day 14 t ≡ some u) × (u ≤ t + 2 * day)
unfolding seek
seek_week_day t = elim (Bool-cases (is_week_day t)) [
  | inl e ↦ (t, rw e, omega arith)
  | inr e ↦ elim (Bool-cases (is_week_day (t + day))) [
    | inl f ↦ (t + day, rw (e, f), omega arith)
    | inr f ↦ (t + day + day, rw (e, f, third t e f), omega arith)
  ]
]
  where
    third :
        (t : ℕ)
        → is_week_day t ≡ false
        → is_week_day (t + day) ≡ false
        → is_week_day (t + day + day) ≡ true
    third t e f = unfold is_week_day in ground arith

-- With the default calendar the rule always answers, with a day at most three days after sending.
pub assess_next_working_day_default :
    (t : ℕ) (delivered days : Option ℕ)
    → (u : ℕ) × ((assess_deemed_receipt DeemedRule.next_working_day
          (some t)
          delivered
          days
          none).advisory_at
        ≡ some u)
      × (t < u)
      × (u ≤ t + 3 * day)
      × (is_week_day u ≡ true)
unfolding assess_deemed_receipt
assess_next_working_day_default t delivered days =
    let (u, e, near) = seek_week_day (t + day) in
    let (k, lt, at, works, earlier) = seek_sound is_week_day 14 (t + day) u e in
    (u, rw e, omega arith, omega arith, works)

-- An authorization can be dispatched exactly when it is authorized and its expiry, if it has one, is
-- not past.
pub assert_authorization_dispatchable_iff :
    (status : AuthorizationStatus) (expires_at : Option ℕ) (now : ℕ)
    → (assert_authorization_dispatchable status expires_at now ≡ none)
      ↔ ((status ≡ AuthorizationStatus.authorized) × (is_past expires_at now ≡ false))
unfolding assert_authorization_dispatchable
assert_authorization_dispatchable_iff AuthorizationStatus.authorized expires_at now = ground arith
assert_authorization_dispatchable_iff _ expires_at now = ground arith
