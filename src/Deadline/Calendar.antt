-- ===== src/Deadline/Calendar.antt =====
-- `isBusinessDay`, `adjustNonWorking` and `addBusinessDays`. The two loops count `guard` up to a
-- bound; here the rounds left go down from it.
pub mod Loops
pub mod Laws
use claim_it_all.Prelude.{
  ℕ, zero, suc, ◌-◌, Bool, true, false, not, any, Option, none, some, List, ◌==◌, ltb, or_else,
  if◌then◌else◌,
}
use claim_it_all.Prelude.Int.{ℤ, pos}
use claim_it_all.Prelude.Text.{Text, codes, text_eq}
use claim_it_all.Deadline.Types.{one, NonWorkingAdjustment, CalendarRevision}
use claim_it_all.Deadline.Luxon.{Luxon}

module _ (lx : Luxon) (calendar : CalendarRevision) where
  open lx use {DateTime, weekday, to_iso_date, plus_days, minus_days}

  abbrev pub date_key : DateTime → Text
  date_key dt = or_else (to_iso_date dt) (codes "")

  unfoldable pub is_business_day : DateTime → Bool
  is_business_day dt =
      if any (text_eq (date_key dt)) calendar.special_working_days
      then true
      else if any (λ d. d == weekday dt) calendar.weekend_days
      then false
      else if any (text_eq (date_key dt)) calendar.holidays
      then false
      else true

  -- One turn of the loop of `adjustNonWorking`; `NONE` never gets there.
  abbrev pub turn : NonWorkingAdjustment → DateTime → DateTime
  turn NonWorkingAdjustment.forward dt = plus_days (pos one) dt
  turn NonWorkingAdjustment.backward dt = minus_days (pos one) dt
  turn NonWorkingAdjustment.no_adjustment dt = dt

  pub adjust_loop : NonWorkingAdjustment → ℕ → DateTime → DateTime
  adjust_loop way zero cursor = cursor
  adjust_loop way (suc left) cursor =
      let moved = adjust_loop way left (turn way cursor) in
      if is_business_day cursor then cursor else moved

  unfoldable pub adjust_non_working : DateTime → NonWorkingAdjustment → DateTime
  unfolding adjust_loop
  adjust_non_working dt NonWorkingAdjustment.no_adjustment = dt
  adjust_non_working dt NonWorkingAdjustment.forward =
      adjust_loop NonWorkingAdjustment.forward 370 dt
  adjust_non_working dt NonWorkingAdjustment.backward =
      adjust_loop NonWorkingAdjustment.backward 370 dt

  -- `remaining` is tested for being positive only, so the subtraction may stop at 0.
  pub business_loop : ℕ → ℕ → DateTime → DateTime
  business_loop zero remaining cursor = cursor
  business_loop (suc left) remaining cursor =
      let next = plus_days (pos one) cursor in
      let later =
        business_loop left (if is_business_day next then remaining - one else remaining) next in
      if ltb 0 remaining then later else cursor

  unfoldable pub add_business_days : DateTime → ℕ → DateTime
  unfolding business_loop
  add_business_days start days = business_loop 5000 days start
