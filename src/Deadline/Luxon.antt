-- ===== src/Deadline/Luxon.antt =====
-- What the engine uses of the package luxon, whose `DateTime` is immutable, and of zod.
use claim_it_all.Prelude.{ℕ, Bool, Option, List}
use claim_it_all.Prelude.Int.{ℤ}
use claim_it_all.Prelude.Text.{Text}
use claim_it_all.Deadline.Types.{ExecutableRule, CalendarRevision, CalculateInput}

pub record Luxon : Type 1 where
  pub DateTime : Type 0
  pub from_iso : Text → DateTime  -- with `setZone: true`
  pub now : DateTime
  pub set_zone : Text → DateTime → DateTime
  pub is_valid : DateTime → Bool
  pub invalid_reason : DateTime → Text
  pub zone_name : DateTime → Text
  pub weekday : DateTime → ℕ
  pub to_iso_date : DateTime → Option Text
  pub to_iso : DateTime → Option Text
  pub plus_days : ℤ → DateTime → DateTime
  pub minus_days : ℤ → DateTime → DateTime
  pub plus_weeks : ℤ → DateTime → DateTime
  pub plus_months : ℤ → DateTime → DateTime
  pub start_of_day : DateTime → DateTime
  pub end_of_day : DateTime → DateTime
  pub has_same_day : DateTime → DateTime → Bool
  pub at_most : DateTime → DateTime → Bool  -- `<=`

-- `safeParse`: the issues' messages, or the value with its defaults filled in.
pub data Parsed (A : Type 0) : Type 0 where
  success : A → Parsed A
  failure : List Text → Parsed A

pub record Zod (Raw : Type 0) : Type 0 where
  pub parse_input : Raw → Parsed CalculateInput
  pub parse_rule : ExecutableRule → Parsed ExecutableRule
  pub parse_calendar : CalendarRevision → Parsed CalendarRevision
