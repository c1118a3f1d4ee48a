-- ===== src/Deadline/Calendar/Loops.antt =====
-- The two loops, one round at a time.
use claim_it_all.Prelude.{
  ℕ, zero, suc, ◌+◌, ◌-◌, ◌*◌, ◌≤◌, ◌<◌, true, false, ◌≡◌, ◌⊎◌, inl, inr, refl, ap, arith,
  Bool-cases, if◌then◌else◌, ltb,
}
use claim_it_all.Prelude.Int.{pos}
use claim_it_all.Deadline.Types.{one, NonWorkingAdjustment, CalendarRevision}
use claim_it_all.Deadline.Luxon.{Luxon}
use claim_it_all.Deadline.Calendar.{is_business_day, turn, adjust_loop, business_loop}

positive : (n : ℕ) → ltb 0 (suc n) ≡ true
positive n = ground arith

module _ (lx : Luxon) (calendar : CalendarRevision) where
  open lx use {DateTime, plus_days}

  -- The day `k` turns on.
  unfoldable pub turned : NonWorkingAdjustment → ℕ → DateTime → DateTime
  turned way zero dt = dt
  turned way (suc k) dt = turned way k (turn lx calendar way dt)

  -- The day `k` days later.
  unfoldable pub later : ℕ → DateTime → DateTime
  later zero dt = dt
  later (suc k) dt = later k (plus_days (pos one) dt)

  -- How many of the `k` days after `dt` are business days.
  unfoldable pub business_days : ℕ → DateTime → ℕ
  business_days zero dt = 0
  business_days (suc k) dt =
      let next = plus_days (pos one) dt in
      (if is_business_day lx calendar next then 1 else 0) + business_days k next

  -- After `k` days: the first number of days that hold enough business days, or the end of the loop.
  pub record Advances (left remaining : ℕ) (start reached : DateTime) : Type 0 where
    pub days : ℕ
    pub within : days ≤ left
    pub reaches : reached ≡ later days start
    pub first : (j : ℕ) → j < days → one * business_days j start < remaining
    pub ends : (remaining ≤ one * business_days days start) ⊎ (days ≡ left)

  module _ (left remaining : ℕ) (start reached : DateTime) (more : 0 < remaining) where
    Advances-working :
        is_business_day lx calendar (plus_days (pos one) start) ≡ true
        → Advances left (remaining - one) (plus_days (pos one) start) reached
        → Advances (suc left) remaining start reached
    unfolding later business_days
    Advances-working works a = record {
      days = suc a.days;
      within = omega (arith, a.within);
      reaches = a.reaches;
      first = earlier;
      ends = rw works (at_end a.ends);
    }
      where
        earlier : (j : ℕ) → j < suc a.days → one * business_days j start < remaining
        earlier zero lt = omega arith
        earlier (suc j) lt = rw works (omega (arith, a.first j (omega arith)))

        at_end :
            (remaining - one ≤ one * business_days a.days (plus_days (pos one) start))
              ⊎ (a.days ≡ left)
            → (remaining ≤ one * (1 + business_days a.days (plus_days (pos one) start)))
              ⊎ (suc a.days ≡ suc left)
        at_end (inl e) = inl (omega arith)
        at_end (inr e) = inr (ap suc e)

    Advances-resting :
        is_business_day lx calendar (plus_days (pos one) start) ≡ false
        → Advances left remaining (plus_days (pos one) start) reached
        → Advances (suc left) remaining start reached
    unfolding later business_days
    Advances-resting rests a = record {
      days = suc a.days;
      within = omega (arith, a.within);
      reaches = a.reaches;
      first = earlier;
      ends = rw rests (at_end a.ends);
    }
      where
        earlier : (j : ℕ) → j < suc a.days → one * business_days j start < remaining
        earlier zero lt = omega arith
        earlier (suc j) lt = rw rests (omega (arith, a.first j (omega arith)))

        at_end :
            (remaining ≤ one * business_days a.days (plus_days (pos one) start)) ⊎ (a.days ≡ left)
            → (remaining ≤ one * (0 + business_days a.days (plus_days (pos one) start)))
              ⊎ (suc a.days ≡ suc left)
        at_end (inl e) = inl (omega arith)
        at_end (inr e) = inr (ap suc e)

  Advances-none : (left : ℕ) (start : DateTime) → Advances left 0 start start
  unfolding later business_days
  Advances-none left start = record {
    days = 0;
    within = omega arith;
    reaches = refl;
    first = λ j lt. absurd (omega arith);
    ends = inl (omega arith);
  }

  pub business_loop-Advances :
      (left remaining : ℕ) (start : DateTime)
      → Advances left remaining start (business_loop lx calendar left remaining start)
  unfolding business_loop later business_days
  business_loop-Advances zero remaining start = record {
    days = 0;
    within = omega arith;
    reaches = refl;
    first = λ j lt. absurd (omega arith);
    ends = inr refl;
  }
  business_loop-Advances (suc left) zero start = Advances-none (suc left) start
  business_loop-Advances (suc left) (suc remaining) start =
      let next = plus_days (pos one) start in
      let more : 0 < suc remaining = omega arith in
      elim (Bool-cases (is_business_day lx calendar next)) [
        | inl works ↦
            rw (positive remaining, works)
              (Advances-working left (suc remaining) start _ more works
                (business_loop-Advances left (suc remaining - one) next))
        | inr rests ↦
            rw (positive remaining, rests)
              (Advances-resting left (suc remaining) start _ more rests
                (business_loop-Advances left (suc remaining) next))
      ]

  -- After `turns` turns: the first day that is a business day, or the end of the loop.
  pub record Settles (way : NonWorkingAdjustment) (left : ℕ) (start reached : DateTime)
      : Type 0 where
    pub turns : ℕ
    pub within : turns ≤ left
    pub reaches : reached ≡ turned way turns start
    pub skipped : (j : ℕ) → j < turns → is_business_day lx calendar (turned way j start) ≡ false
    pub ends : (is_business_day lx calendar reached ≡ true) ⊎ (turns ≡ left)

  module _ (way : NonWorkingAdjustment) (left : ℕ) (start reached : DateTime) where
    Settles-suc :
        is_business_day lx calendar start ≡ false
        → Settles way left (turn lx calendar way start) reached
        → Settles way (suc left) start reached
    unfolding turned
    Settles-suc rests a = record {
      turns = suc a.turns;
      within = omega (arith, a.within);
      reaches = a.reaches;
      skipped = earlier;
      ends = at_end a.ends;
    }
      where
        earlier :
            (j : ℕ) → j < suc a.turns → is_business_day lx calendar (turned way j start) ≡ false
        earlier zero lt = rests
        earlier (suc j) lt = a.skipped j (omega arith)

        at_end :
            (is_business_day lx calendar reached ≡ true) ⊎ (a.turns ≡ left)
            → (is_business_day lx calendar reached ≡ true) ⊎ (suc a.turns ≡ suc left)
        at_end (inl e) = inl e
        at_end (inr e) = inr (ap suc e)

  pub adjust_loop-Settles :
      (way : NonWorkingAdjustment) (left : ℕ) (start : DateTime)
      → Settles way left start (adjust_loop lx calendar way left start)
  unfolding adjust_loop turned
  adjust_loop-Settles way zero start = record {
    turns = 0;
    within = omega arith;
    reaches = refl;
    skipped = λ j lt. absurd (omega arith);
    ends = inr refl;
  }
  adjust_loop-Settles way (suc left) start = elim (Bool-cases (is_business_day lx calendar start)) [
    | inl works ↦ rw works (record {
      turns = 0;
      within = omega arith;
      reaches = refl;
      skipped = λ j lt. absurd (omega arith);
      ends = inl works;
    })
    | inr rests ↦ rw rests (
        Settles-suc way left start _ rests
          (adjust_loop-Settles way left (turn lx calendar way start)))
  ]
