-- ===== src/Delivery/Risk.antt =====
-- `computeDeliveryRisk` of packages/notice-delivery/src/domain.ts. Times are milliseconds since 1970.
pub mod Laws
use claim_it_all.Prelude.{
  ℕ, ◌+◌, Bool, true, false, not, Option, none, some, List, [], ◌∷◌, ◌++◌, ltb, leb, if◌then◌else◌,
}
use claim_it_all.Delivery.Types.{RiskLevel, low, medium, high, critical, unknown}

pub data Indicator : Type 0 where
  missing_verified_recipient authorization_expired method_not_permitted : Indicator
  attachment_over_limit provider_unavailable required_recipient_failed : Indicator
  manual_proof_missing receipt_unconfirmed dispatched_after_deadline deadline_passed : Indicator
  deadline_within_24h : Indicator

pub record RiskInput : Type 0 where
  pub deadline_at : Option ℕ
  pub now : ℕ
  pub missing_verified_recipient : Bool
  pub provider_configured : Bool
  pub attachment_over_limit : Bool
  pub required_recipient_failed : Bool
  pub receipt_unconfirmed : Bool
  pub authorization_expired : Bool
  pub manual_proof_missing : Bool
  pub dispatched_after_deadline : Bool
  pub method_not_permitted : Bool

pub record Risk : Type 0 where
  pub level : RiskLevel
  pub indicators : List Indicator

-- `order.indexOf(level)`
abbrev pub index_of : RiskLevel → ℕ
index_of low = 0
index_of medium = 1
index_of high = 2
index_of critical = 3
index_of unknown = 4

pub bump : RiskLevel → Indicator → Risk → Risk
bump next code r = record {
  level = if ltb (index_of r.level) (index_of next) then next else r.level;
  indicators = r.indicators ++ code ∷ [];
}

pub bump_if : Bool → RiskLevel → Indicator → Risk → Risk
unfolding bump
bump_if test next code r = if test then bump next code r else r

-- `hours < 0` and `hours <= 24`, with the quotient multiplied out.
pub bump_deadline : Option ℕ → ℕ → Risk → Risk
unfolding bump
bump_deadline none now r = r
bump_deadline (some at) now r =
    if ltb at now
    then bump critical Indicator.deadline_passed r
    else if leb at (now + 86400000)
    then bump high Indicator.deadline_within_24h r
    else r

unfoldable pub compute_delivery_risk : RiskInput → Risk
compute_delivery_risk input =
    let r0 : Risk = record { level = low; indicators = [] } in
    let r1 =
      bump_if input.missing_verified_recipient critical Indicator.missing_verified_recipient r0 in
    let r2 = bump_if input.authorization_expired critical Indicator.authorization_expired r1 in
    let r3 = bump_if input.method_not_permitted high Indicator.method_not_permitted r2 in
    let r4 = bump_if input.attachment_over_limit high Indicator.attachment_over_limit r3 in
    let r5 = bump_if (not input.provider_configured) high Indicator.provider_unavailable r4 in
    let r6 = bump_if input.required_recipient_failed high Indicator.required_recipient_failed r5 in
    let r7 = bump_if input.manual_proof_missing medium Indicator.manual_proof_missing r6 in
    let r8 = bump_if input.receipt_unconfirmed medium Indicator.receipt_unconfirmed r7 in
    let r9 =
      bump_if input.dispatched_after_deadline critical Indicator.dispatched_after_deadline r8 in
    bump_deadline input.deadline_at input.now r9
