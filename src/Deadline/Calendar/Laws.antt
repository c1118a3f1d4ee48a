-- ===== src/Deadline/Calendar/Laws.antt =====
-- What business-day arithmetic reaches.
use claim_it_all.Prelude.{
  ℕ, zero, suc, ◌+◌, ◌*◌, ◌≤◌, ◌<◌, true, ◌≡◌, ◌⊎◌, inl, inr, refl, ap, ◌∙◌, arith, Bool-cases,
  if◌then◌else◌,
}
use claim_it_all.Prelude.Int.{pos}
use claim_it_all.Deadline.Types.{one, NonWorkingAdjustment, CalendarRevision}
use claim_it_all.Deadline.Luxon.{Luxon}
use claim_it_all.Deadline.Calendar.{is_business_day, add_business_days, adjust_non_working}
use claim_it_all.Deadline.Calendar.Loops.{
  later, business_days, Advances, business_loop-Advances, Settles, adjust_loop-Settles,
}

module _ (lx : Luxon) (calendar : CalendarRevision) where
  open lx use {DateTime, plus_days}

  business_days-suc :
      (k : ℕ) (dt : DateTime)
      → business_days lx calendar (suc k) dt
        ≡ business_days lx calendar k dt
          + (if is_business_day lx calendar (later lx calendar (suc k) dt) then 1 else 0)
  unfolding later business_days
  business_days-suc zero dt = omega arith
  business_days-suc (suc k) dt = omega (arith, business_days-suc k (plus_days (pos one) dt))

  pub business_days_mono :
      (k n : ℕ) (dt : DateTime)
      → k ≤ n
      → business_days lx calendar k dt ≤ business_days lx calendar n dt
  unfolding business_days
  business_days_mono zero n dt le = omega arith
  business_days_mono (suc k) zero dt le = absurd (omega arith)
  business_days_mono (suc k) (suc n) dt le =
      omega (arith, business_days_mono k n (plus_days (pos one) dt) (omega arith))

  last_works :
      (k days : ℕ) (start : DateTime)
      → ((j : ℕ) → j < k → one * business_days lx calendar j start < days)
      → days ≤ one * business_days lx calendar k start
      → 0 < days
      → is_business_day lx calendar (later lx calendar k start) ≡ true
  unfolding business_days
  last_works zero days start first enough more = absurd (omega arith)
  last_works (suc k) days start first enough more =
      elim (Bool-cases (is_business_day lx calendar (later lx calendar (suc k) start))) [
        | inl works ↦ works
        | inr rests ↦
            absurd (omega (arith, first k (omega arith), (rw rests at (business_days-suc k start))))
      ]

  -- `k` is the least number of days that hold enough business days for `amount`, in ten-thousandths.
  pub record Covers (amount k : ℕ) (start : DateTime) : Type 0 where
    pub enough : amount ≤ one * business_days lx calendar k start
    pub least : (j : ℕ) → j < k → one * business_days lx calendar j start < amount
    pub ends_on_business_day :
        0 < amount → is_business_day lx calendar (later lx calendar k start) ≡ true

  Advances-Covers :
      (bound amount : ℕ) (start reached : DateTime)
      → amount ≤ one * business_days lx calendar bound start
      → Advances lx calendar bound amount start reached
      → (k : ℕ) × (reached ≡ later lx calendar k start) × Covers amount k start
  Advances-Covers bound amount start reached enough a = (
    a.days,
    a.reaches,
    record {
      enough = met a.ends;
      least = a.first;
      ends_on_business_day = last_works a.days amount start a.first (met a.ends);
    },
  )
    where
      met :
          (amount ≤ one * business_days lx calendar a.days start) ⊎ (a.days ≡ bound)
          → amount ≤ one * business_days lx calendar a.days start
      met (inl e) = e
      met (inr e) = rw e enough

  Advances-short :
      (bound amount : ℕ) (start reached : DateTime)
      → one * business_days lx calendar bound start < amount
      → Advances lx calendar bound amount start reached
      → reached ≡ later lx calendar bound start
  Advances-short bound amount start reached short a = reached_at a.ends
    where
      reached_at :
          (amount ≤ one * business_days lx calendar a.days start) ⊎ (a.days ≡ bound)
          → reached ≡ later lx calendar bound start
      reached_at (inl e) = absurd (omega (arith, business_days_mono a.days bound start a.within))
      reached_at (inr e) = a.reaches ∙ ap (λ k. later lx calendar k start) e

  module _ (start : DateTime) (amount : ℕ) where
    -- If the next 5000 days hold enough business days, the result is the first day by which as many
    -- business days have passed as were asked for, and it is a business day unless none was.
    pub add_business_days-Covers :
        amount ≤ one * business_days lx calendar 5000 start
        → (k : ℕ) × (add_business_days lx calendar start amount ≡ later lx calendar k start)
          × Covers amount k start
    unfolding add_business_days
    add_business_days-Covers enough =
        Advances-Covers 5000 amount start _ enough
          (business_loop-Advances lx calendar 5000 amount start)

    -- If they do not, the loop stops after 5000 days, and the result has fewer business days before
    -- it than were asked for.
    pub add_business_days_short :
        one * business_days lx calendar 5000 start < amount
        → add_business_days lx calendar start amount ≡ later lx calendar 5000 start
    unfolding add_business_days
    add_business_days_short short =
        Advances-short 5000 amount start _ short
          (business_loop-Advances lx calendar 5000 amount start)

  -- The adjustment, read as days skipped one way.
  abbrev pub Adjusts : NonWorkingAdjustment → DateTime → DateTime → Type 0
  Adjusts NonWorkingAdjustment.no_adjustment dt reached = reached ≡ dt
  Adjusts NonWorkingAdjustment.forward dt reached =
      Settles lx calendar NonWorkingAdjustment.forward 370 dt reached
  Adjusts NonWorkingAdjustment.backward dt reached =
      Settles lx calendar NonWorkingAdjustment.backward 370 dt reached

  -- The adjustment moves over days that are not business days only, one way only, and stops on a
  -- business day or after 370 days; `NONE` moves nothing.
  pub adjust_non_working-Adjusts :
      (dt : DateTime) (way : NonWorkingAdjustment)
      → Adjusts way dt (adjust_non_working lx calendar dt way)
  unfolding adjust_non_working
  adjust_non_working-Adjusts dt NonWorkingAdjustment.no_adjustment = refl
  adjust_non_working-Adjusts dt NonWorkingAdjustment.forward =
      adjust_loop-Settles lx calendar NonWorkingAdjustment.forward 370 dt
  adjust_non_working-Adjusts dt NonWorkingAdjustment.backward =
      adjust_loop-Settles lx calendar NonWorkingAdjustment.backward 370 dt
