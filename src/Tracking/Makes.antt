-- ===== src/Tracking/Makes.antt =====
-- A calculation that is made, verified or replaced keeps the tables traceable.
use claim_it_all.Prelude.{
  ℕ, ◌+◌, ◌<◌, Bool, true, false, Option, some, [], ◌∷◌, ◌++◌, ◌≡◌, ◌⊎◌, inl, inr, refl, sym, arith,
  ◌==◌, All, Some, All-mono, All-append, find,
}
use claim_it_all.Service.Result.{
  ok, >>=-returns, guard-returns, or_throw-returns, holds_of, left_by,
}
use mathlib.Core.Path.{subst}
use claim_it_all.Service.Context.{ProjectContext}
use claim_it_all.Tracking.Keeps.{IsTraceable-keeps, Grounded-same}
use claim_it_all.Service.Rows.{AtMostOne-append, find_test, find-Some}
use claim_it_all.Deadline.Types as Engine
use claim_it_all.Tracking.Types.{
  RuleSnapshot, RevisionStatus, CalculationStatus, DeadlineCalculation,
}
use claim_it_all.Tracking.Store.{
  Db, Surroundings, date_column, load_project_event, snapshot_structured_rule,
}
use claim_it_all.Tracking.Rules.{is_for_analysis, is_configured}
use claim_it_all.Tracking.Calculation.{
  CalculateInput, is_assessment_of, is_trigger, is_approved, is_calendar_revision, engine_result,
  status_of_result, next_version, new_calculation, milestone_rows, Grounds, look_up,
  make_calculation, calculate_internal, calculate_in,
}
use claim_it_all.Tracking.Deadlines.{is_blocked}
use claim_it_all.Tracking.Traceable.{
  was_approved, is_engine_blocked, HoldsFor, RestsOn, StartsAt, IsAssessment, IsReviewed,
  IsGrounded, IsBounded, IsTraceable,
}

blocked_by_engine :
    (s : Engine.CalculationStatus) → is_blocked (status_of_result s) ≡ is_engine_blocked s
blocked_by_engine Engine.CalculationStatus.blocked = refl
blocked_by_engine Engine.CalculationStatus.calculated = refl

IsReviewed-later :
    (segregated : Bool) (s : Engine.CalculationStatus) (c : DeadlineCalculation)
    → IsReviewed segregated (status_of_result s) c
IsReviewed-later segregated Engine.CalculationStatus.blocked c = tt
IsReviewed-later segregated Engine.CalculationStatus.calculated c = tt

-- The two statuses of a calculation that no one has seen yet.
abbrev pub IsNew : CalculationStatus → Type 0
IsNew s = (s ≡ CalculationStatus.blocked) ⊎ (s ≡ CalculationStatus.review_required)

status_of_result-IsNew : (s : Engine.CalculationStatus) → IsNew (status_of_result s)
status_of_result-IsNew Engine.CalculationStatus.blocked = inl refl
status_of_result-IsNew Engine.CalculationStatus.calculated = inr refl

approved_once : (s : RevisionStatus) → is_approved s ≡ true → was_approved s ≡ true
approved_once RevisionStatus.approved e = refl
approved_once RevisionStatus.superseded e = refl
approved_once RevisionStatus.draft e = cc
approved_once RevisionStatus.in_review e = cc

-- What the rows that were looked up are.
pub record AreGrounds (ctx : ProjectContext) (event_id : ℕ) (input : CalculateInput) (db : Db)
    (g : Grounds) : Type 0 where
  pub assessment :
      find (is_assessment_of ctx event_id input.assessment_id) db.assessments ≡ some g.assessment
  pub date : find (is_trigger ctx event_id input.trigger_date_id) db.dates ≡ some g.date
  pub revision :
      find (is_calendar_revision ctx input.calendar_revision_id) db.revisions ≡ some g.revision
  pub snapshot :
      find (λ (t : RuleSnapshot). t.id == g.assessment.approved_rule_snapshot_id) db.snapshots
      ≡ some g.snapshot

look_up-AreGrounds :
    (ctx : ProjectContext) (event_id : ℕ) (input : CalculateInput) (db : Db) (g : Grounds)
    → look_up ctx event_id input db ≡ ok g
    → AreGrounds ctx event_id input db g
unfolding look_up
look_up-AreGrounds ctx event_id input db g e =
    let (a, p, e) =
      or_throw-returns (find (is_assessment_of ctx event_id input.assessment_id) db.assessments) _ _
        e in
    let (d, on, e) =
      or_throw-returns (find (is_trigger ctx event_id input.trigger_date_id) db.dates) _ _ e in
    let (r, by, e) =
      or_throw-returns (find (is_calendar_revision ctx input.calendar_revision_id) db.revisions) _ _
        e in
    let (s, of_, e) =
      or_throw-returns
        (find (λ (t : RuleSnapshot). t.id == a.approved_rule_snapshot_id) db.snapshots) _ _ e in
    let (configured, e) =
      guard-returns (is_configured db.configurations s.configuration_revision_id) _ _ e in
    let (executable, q, e) = >>=-returns (snapshot_structured_rule s.structured_rule) _ e in
    holds_of (AreGrounds ctx event_id input db) e
      (record { assessment = p; date = on; revision = by; snapshot = of_ })

module _ (env : Surroundings) where
  abbrev made :
      ProjectContext → ℕ → CalculateInput → Grounds → Option ℕ → ℕ → ℕ → DeadlineCalculation
  made ctx event_id input g at version id =
      new_calculation ctx event_id input g.assessment g.snapshot g.date g.revision
        (engine_result env g.snapshot g.date g.revision) at version id

  made-StartsAt :
      (ctx : ProjectContext) (event_id : ℕ) (input : CalculateInput) (db : Db) (g : Grounds)
      (at : Option ℕ) (version id : ℕ)
      → AreGrounds ctx event_id input db g
      → date_column env (engine_result env g.snapshot g.date g.revision).contractual_deadline_at
        ≡ ok at
      → Some
          (StartsAt env db.revisions db.snapshots (made ctx event_id input g at version id))
          db.dates
  made-StartsAt ctx event_id input db g at version id h column =
      let c = made ctx event_id input g at version id in
      let date = find_test (is_trigger ctx event_id input.trigger_date_id) db.dates g.date h.date in
      let calendar =
        find_test (is_calendar_revision ctx input.calendar_revision_id) db.revisions g.revision
          h.revision in
      find-Some (StartsAt env db.revisions db.snapshots c) _ db.dates g.date h.date (
        (refl, ground arith, refl, ground arith, ground arith),
        find-Some (RestsOn env db.snapshots c g.date) _ db.revisions g.revision h.revision (
          (refl, refl, approved_once g.revision.status (ground arith)),
          find-Some (HoldsFor env c g.date g.revision) _ db.snapshots g.snapshot h.snapshot
              (refl, (column, refl, refl, refl, refl, blocked_by_engine _)),
        ),
      )

  made-IsAssessment :
      (ctx : ProjectContext) (event_id : ℕ) (input : CalculateInput) (db : Db) (g : Grounds)
      (at : Option ℕ) (version id : ℕ)
      → AreGrounds ctx event_id input db g
      → Some (IsAssessment (made ctx event_id input g at version id)) db.assessments
  made-IsAssessment ctx event_id input db g at version id h =
      let test =
        find_test (is_assessment_of ctx event_id input.assessment_id) db.assessments g.assessment
          h.assessment in
      let rule =
        find_test (λ (t : RuleSnapshot). t.id == g.assessment.approved_rule_snapshot_id)
          db.snapshots g.snapshot h.snapshot in
      find-Some (IsAssessment (made ctx event_id input g at version id)) _ db.assessments
        g.assessment h.assessment (refl, ground arith, ground arith, ground arith)

  pub IsTraceable-add :
      (db after : Db) (c : DeadlineCalculation)
      → IsTraceable env db
      → c.id ≡ db.next_id
      → db.next_id < after.next_id
      → after.calculations ≡ db.calculations ++ c ∷ []
      → after.deadlines ≡ db.deadlines
      → ((x : DeadlineCalculation) → IsGrounded env db x → IsGrounded env after x)
      → IsGrounded env after c
      → IsTraceable env after
  IsTraceable-add db after c h fresh more calcs deadlines moves g = record {
    calculations = subst (All (IsGrounded env after)) (sym calcs) (
        All-append (IsGrounded env after) db.calculations (c ∷ [])
          (All-mono (IsGrounded env db) (IsGrounded env after) moves db.calculations h.calculations)
          (g, tt));
    unique = λ id. rw calcs (
        AtMostOne-append (λ (x : DeadlineCalculation). x.id == id) db.calculations c (h.unique id)
          (λ same.
            All-mono (IsGrounded env db) (λ (x : DeadlineCalculation). (x.id == id) ≡ false)
              (λ x b. other id same x b.bounded) db.calculations h.calculations));
    bounded = rw deadlines (
        All-mono (IsBounded db.next_id) (IsBounded after.next_id) (λ d b. omega arith) db.deadlines
          h.bounded);
    tracked_once = λ id. rw deadlines (h.tracked_once id);
  }
    where
      other :
          (id : ℕ)
          → (c.id == id) ≡ true
          → (x : DeadlineCalculation) → x.id < db.next_id
          → (x.id == id) ≡ false
      other id same x b = ground arith

  -- A calculation that was made: the next row, beside which no deadline changes.
  pub record IsMade (db : Db) (p : DeadlineCalculation × Db) : Type 0 where
    pub sound : IsTraceable env p.1
    pub fresh : p.0.id ≡ db.next_id
    pub more : db.next_id < p.1.next_id
    pub calculations : p.1.calculations ≡ db.calculations ++ p.0 ∷ []
    pub same_deadlines : p.1.deadlines ≡ db.deadlines
    pub unverified : IsNew p.0.calculation_status

  make-IsMade :
      (ctx : ProjectContext) (event_id : ℕ) (input : CalculateInput) (g : Grounds) (db : Db)
      (p : DeadlineCalculation × Db)
      → AreGrounds ctx event_id input db g
      → make_calculation env ctx event_id input g db ≡ ok p
      → IsTraceable env db
      → IsMade db p
  unfolding make_calculation
  make-IsMade ctx event_id input g db p grounds e h =
      let result = engine_result env g.snapshot g.date g.revision in
      let (at, column, e) = >>=-returns (date_column env result.contractual_deadline_at) _ e in
      let version = next_version event_id g.assessment.id db.calculations in
      let c = made ctx event_id input g at version db.next_id in
      let (rows, m, e) = >>=-returns (milestone_rows env ctx c.id result at (db.next_id + 1)) _ e in
      holds_of (IsMade db) e (record {
        sound =
            IsTraceable-add db _ c h refl (omega arith) refl refl
              (Grounded-same env db _ (omega arith) refl refl refl refl)
              (record {
                bounded = omega arith;
                trigger =
                    made-StartsAt ctx event_id input db g at version db.next_id grounds column;
                assessment =
                    made-IsAssessment ctx event_id input db g at version db.next_id grounds;
                reviewed = IsReviewed-later env.calculation_segregated result.status c;
              });
        fresh = refl;
        more = omega arith;
        calculations = refl;
        same_deadlines = refl;
        unverified = status_of_result-IsNew result.status;
      })

  pub calculate_internal-IsMade :
      (ctx : ProjectContext) (event_id : ℕ) (input : CalculateInput) (db : Db)
      (p : DeadlineCalculation × Db)
      → calculate_internal env ctx event_id input db ≡ ok p
      → IsTraceable env db
      → IsMade db p
  unfolding calculate_internal
  calculate_internal-IsMade ctx event_id input db p e h =
      let (g, found, e) = >>=-returns (look_up ctx event_id input db) _ e in
      make-IsMade ctx event_id input g db p (look_up-AreGrounds ctx event_id input db g found) e h

  pub calculate-IsTraceable :
      (ctx : ProjectContext) (event_id : ℕ) (input : Option (ℕ × ℕ × ℕ)) (db after : Db)
      (c : DeadlineCalculation)
      → calculate_in env ctx event_id input db ≡ ok (c, after)
      → IsTraceable env db
      → IsTraceable env after
  unfolding calculate_in
  calculate-IsTraceable ctx event_id input db after c e h =
      let (parsed, p, e) = or_throw-returns input _ _ e in
      let (event, q, e) = >>=-returns (load_project_event ctx event_id db) _ e in
      let (confirmed, e) = guard-returns (is_for_analysis event.confirmation_status) _ _ e in
      let (created, r, e) = >>=-returns (calculate_internal env ctx event_id _ db) _ e in
      let is_made = calculate_internal-IsMade ctx event_id _ db created r h in
      left_by (IsTraceable env) e (
        IsTraceable-keeps env created.1 _ (omega arith) refl refl
          (Grounded-same env created.1 _ (omega arith) refl refl refl refl) is_made.sound)
