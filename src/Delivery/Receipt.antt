-- ===== src/Delivery/Receipt.antt =====
-- `assessDeemedReceipt` and `assertAuthorizationDispatchable` of
-- packages/notice-delivery/src/domain.ts. Times are milliseconds since 1970; a line of the trace is
-- a constructor that holds what the source formats.
pub mod Laws
use claim_it_all.Prelude.{
  ℕ, zero, suc, ◌+◌, ◌*◌, ◌/◌, ◌%◌, Bool, true, false, not, ◌&&◌, Option, none, some, List, [], ◌∷◌,
  ltb, ◌==◌, or_else, if◌then◌else◌,
}
use claim_it_all.Delivery.Types.{AuthorizationStatus}

pub data DeemedRule : Type 0 where
  actual_delivery on_transmission next_working_day postal_period platform_submission none_rule :
      DeemedRule

pub data Ambiguity : Type 0 where
  no_deemed_rule delivery_time_unknown sent_time_unknown working_day_lookup_failed : Ambiguity
  requires_human_review : Ambiguity

pub data TraceLine : Type 0 where
  rule_is : DeemedRule → TraceLine
  delivered_at sent_at next_working_day_at advisory_at_line : ℕ → TraceLine
  postal_days : ℕ → TraceLine

pub record DeemedReceipt : Type 0 where
  pub advisory_at : Option ℕ
  pub ambiguity : Option Ambiguity
  pub trace : List TraceLine

abbrev pub day : ℕ
day = 86400000

-- `d.getUTCDay()`: 0 is Sunday, and 1970-01-01 was a Thursday.
pub utc_day : ℕ → ℕ
utc_day t = (t / day + 4) % 7

-- The default of `isWorkingDay`.
unfoldable pub is_week_day : ℕ → Bool
unfolding utc_day
is_week_day t = not (utc_day t == 0) && not (utc_day t == 6)

-- The `while`, with 14 - guard rounds left: the cursor, or none when they are used up.
pub seek : (ℕ → Bool) → ℕ → ℕ → Option ℕ
seek is_working zero cursor = none
seek is_working (suc left) cursor =
    let later = seek is_working left (cursor + day) in
    if is_working cursor then some cursor else later

abbrev pub unanswered : Ambiguity → List TraceLine → DeemedReceipt
unanswered why trace = record { advisory_at = none; ambiguity = some why; trace = trace }

abbrev pub found_day : DeemedRule → Option ℕ → DeemedReceipt
found_day rule none = unanswered Ambiguity.working_day_lookup_failed (TraceLine.rule_is rule ∷ [])
found_day rule (some t) = record {
  advisory_at = some t;
  ambiguity = some Ambiguity.requires_human_review;
  trace = TraceLine.rule_is rule ∷ TraceLine.next_working_day_at t ∷ [];
}

unfoldable pub assess_deemed_receipt :
    DeemedRule → Option ℕ → Option ℕ → Option ℕ → Option (ℕ → Bool) → DeemedReceipt
unfolding seek
assess_deemed_receipt DeemedRule.none_rule sent delivered days working =
    unanswered Ambiguity.no_deemed_rule (TraceLine.rule_is DeemedRule.none_rule ∷ [])
assess_deemed_receipt DeemedRule.actual_delivery sent none days working =
    unanswered Ambiguity.delivery_time_unknown (TraceLine.rule_is DeemedRule.actual_delivery ∷ [])
assess_deemed_receipt DeemedRule.actual_delivery sent (some t) days working = record {
  advisory_at = some t;
  ambiguity = none;
  trace = TraceLine.rule_is DeemedRule.actual_delivery ∷ TraceLine.delivered_at t ∷ [];
}
assess_deemed_receipt DeemedRule.next_working_day (some t) delivered days working =
    found_day DeemedRule.next_working_day (seek (or_else working is_week_day) 14 (t + day))
assess_deemed_receipt DeemedRule.postal_period (some t) delivered days working =
    let n = or_else days 3 in
    record {
      advisory_at = some (t + n * day);
      ambiguity = some Ambiguity.requires_human_review;
      trace =
          TraceLine.rule_is DeemedRule.postal_period
          ∷ TraceLine.postal_days n
          ∷ TraceLine.advisory_at_line (t + n * day)
          ∷ [];
    }
assess_deemed_receipt rule none delivered days working =
    unanswered Ambiguity.sent_time_unknown (TraceLine.rule_is rule ∷ [])
assess_deemed_receipt rule (some t) delivered days working = record {
  advisory_at = some t;
  ambiguity = none;
  trace = TraceLine.rule_is rule ∷ TraceLine.sent_at t ∷ [];
}

-- `none`: the authorization can be dispatched. The errors are thrown by the source.
pub data Undispatchable : Type 0 where
  not_dispatchable : AuthorizationStatus → Undispatchable
  authorization_expired : Undispatchable

abbrev pub is_past : Option ℕ → ℕ → Bool
is_past none now = false
is_past (some at) now = ltb at now

unfoldable pub assert_authorization_dispatchable :
    AuthorizationStatus → Option ℕ → ℕ → Option Undispatchable
assert_authorization_dispatchable AuthorizationStatus.authorized expires_at now =
    if is_past expires_at now then some Undispatchable.authorization_expired else none
assert_authorization_dispatchable status expires_at now =
    some (Undispatchable.not_dispatchable status)
