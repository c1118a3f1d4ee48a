-- ===== src/Tracking/Replaces.antt =====
-- A calculation that is verified, tracked or replaced keeps the tables traceable.
use claim_it_all.Prelude.{
  ℕ, ◌≤◌, ◌<◌, Bool, true, false, not, ◌&&◌, Option, some, List, [], ◌∷◌, ◌++◌, ◌≡◌, ◌∙◌, refl, sym,
  arith, ◌==◌, All, All-mono, All-append, All-update_where, find, find-All, any, update_where,
  length, keep,
}
use mathlib.Core.Path.{subst}
use claim_it_all.Prelude.Text.{Text}
use claim_it_all.Service.Result.{ok, >>=-returns, guard-returns, or_throw-returns, left_by}
use claim_it_all.Service.Context.{ProjectContext}
use claim_it_all.Service.Rows.{
  AtMostOne-append, find_test, find-append, none_passes, Some-mono, keep-update_where,
  keep-drop_where, All-update_found,
}
use claim_it_all.Tracking.Types.{
  ProjectEventDate, RuleSnapshot, ProjectCalendarRevision, CalculationStatus, DeadlineCalculation,
  ProjectDeadline,
}
use claim_it_all.Tracking.Store.{Db, Surroundings}
use claim_it_all.Tracking.Calculation.{calculate_internal}
use claim_it_all.Tracking.Deadlines.{
  is_calculation, find_calculation, is_verified, is_blocked, can_verify, verify_in, is_live_for,
  supersede_deadline, superseding, replace_deadline, replace_deadlines, can_recalculate,
  RecalculateInput, trigger_of, recalculate_in, track_in, new_deadline, contractual_milestone_of,
  notice_category_of, replaced,
}
use claim_it_all.Tracking.Traceable.{
  HoldsFor, RestsOn, StartsAt, Differs, IsReviewed, IsGrounded, IsBounded, IsTraceable,
}
use claim_it_all.Tracking.Keeps.{IsTraceable-keeps, Grounded-same}
use claim_it_all.Tracking.Makes.{IsMade, calculate_internal-IsMade}

-- Another status and review.
abbrev restatus :
    CalculationStatus → Option ℕ → Option ℕ → DeadlineCalculation → DeadlineCalculation
restatus status by at c = record c {
  calculation_status = status;
  reviewed_by_user_id = by;
  reviewed_at = at;
}

pub verifiable : (s : CalculationStatus) → can_verify s ≡ true → is_blocked s ≡ false
verifiable CalculationStatus.blocked e = cc
verifiable _ e = refl

pub recalculable : (s : CalculationStatus) → can_recalculate s ≡ true → is_blocked s ≡ false
recalculable CalculationStatus.blocked e = cc
recalculable _ e = refl

pub differs :
    (segregated : Bool) (user by : ℕ)
    → not (segregated && by == user) ≡ true
    → Differs segregated user by
differs true user by e = λ same. ground arith
differs false user by e = tt

module _ (env : Surroundings) where
  StartsAt-restatus :
      (status : CalculationStatus) (by at : Option ℕ) (revisions : List ProjectCalendarRevision)
      (snapshots : List RuleSnapshot) (c : DeadlineCalculation) (d : ProjectEventDate)
      → is_blocked status ≡ is_blocked c.calculation_status
      → StartsAt env revisions snapshots c d
      → StartsAt env revisions snapshots (restatus status by at c) d
  StartsAt-restatus status by at revisions snapshots c d same (t, s) =
      let c' = restatus status by at c in
      (
        t,
        Some-mono (RestsOn env snapshots c d) (RestsOn env snapshots c' d)
            (λ r (k, m). (
              k,
              Some-mono (HoldsFor env c d r) (HoldsFor env c' d r)
                  (λ x (i, (a, b, e, f, g, blocked)). (i, (a, b, e, f, g, same ∙ blocked)))
                  snapshots m,
            ))
            revisions s,
      )

  IsTraceable-restatus :
      (ctx : ProjectContext) (id : ℕ) (db : Db) (y : DeadlineCalculation)
      (status : CalculationStatus) (by at : DeadlineCalculation → Option ℕ)
      → find (is_calculation ctx id) db.calculations ≡ some y
      → is_blocked y.calculation_status ≡ false
      → is_blocked status ≡ false
      → IsReviewed env.calculation_segregated status (restatus status (by y) (at y) y)
      → IsTraceable env db
      → IsTraceable env (record db {
        calculations =
            update_where
              (λ (c : DeadlineCalculation). c.id == y.id)
              (λ c. restatus status (by c) (at c) c)
              db.calculations;
      })
  IsTraceable-restatus ctx id db y status by at found open_ same reviewed h =
      let after : Db = record db {
        calculations =
            update_where (λ (c : DeadlineCalculation). c.id == y.id)
              (λ c. restatus status (by c) (at c) c) db.calculations;
      } in
      let test = find_test (is_calculation ctx id) db.calculations y found in
      record {
        calculations =
            All-update_found (IsGrounded env db) (IsGrounded env after) (is_calculation ctx id)
              (λ (c : DeadlineCalculation). c.id == y.id) (λ c. restatus status (by c) (at c) c)
              (λ x t. ground arith) db.calculations y found (h.unique y.id)
              (λ g. record {
                bounded = g.bounded;
                trigger =
                    Some-mono (StartsAt env db.revisions db.snapshots y)
                      (StartsAt env db.revisions db.snapshots (restatus status (by y) (at y) y))
                      (λ d.
                        StartsAt-restatus status (by y) (at y) db.revisions db.snapshots y d
                          (same ∙ sym open_))
                      db.dates g.trigger;
                assessment = g.assessment;
                reviewed = reviewed;
              })
              (Grounded-same env db after (omega arith) refl refl refl refl) h.calculations;
        unique = λ k.
            rw
              (keep-update_where (λ (c : DeadlineCalculation). c.id == k)
                (λ (c : DeadlineCalculation). c.id == y.id) (λ c. restatus status (by c) (at c) c)
                (λ x. refl) db.calculations)
              (h.unique k);
        bounded = h.bounded;
        tracked_once = h.tracked_once;
      }

  pub verify-IsTraceable :
      (now : ℕ) (ctx : ProjectContext) (id : ℕ) (db after : Db) (c : DeadlineCalculation)
      → verify_in env now ctx id db ≡ ok (c, after)
      → IsTraceable env db
      → IsTraceable env after
  unfolding verify_in find_calculation
  verify-IsTraceable now ctx id db after c e h =
      let (y, found, e) = or_throw-returns (find (is_calculation ctx id) db.calculations) _ _ e in
      let (verified, e) = guard-returns (not (is_verified y.calculation_status)) _ _ e in
      let (blocked, e) = guard-returns (not (is_blocked y.calculation_status)) _ _ e in
      let (can, e) = guard-returns (can_verify y.calculation_status) _ _ e in
      let (segregated, e) =
        guard-returns (not (env.calculation_segregated && y.calculated_by_user_id == ctx.user_id)) _
          _ e in
      let sound =
        IsTraceable-restatus ctx id db y CalculationStatus.verified (λ _. some ctx.user_id)
          (λ _. some now) found (verifiable y.calculation_status can) refl
          (
            ctx.user_id,
            refl,
            differs env.calculation_segregated ctx.user_id y.calculated_by_user_id segregated,
          )
          h in
      left_by (IsTraceable env) e (
        IsTraceable-keeps env _ _ (omega arith) refl refl
          (Grounded-same env _ _ (omega arith) refl refl refl refl) sound)

  -- A deadline more, for a calculation that has none that is live.
  IsTraceable-track :
      (db after : Db) (d : ProjectDeadline)
      → db.next_id ≤ after.next_id
      → after.calculations ≡ db.calculations
      → after.deadlines ≡ db.deadlines ++ d ∷ []
      → IsBounded after.next_id d
      → All (λ x. is_live_for d.deadline_calculation_id x ≡ false) db.deadlines
      → ((c : DeadlineCalculation) → IsGrounded env db c → IsGrounded env after c)
      → IsTraceable env db
      → IsTraceable env after
  IsTraceable-track db after d more calcs deadlines bound none_live moves h = record {
    calculations =
        subst (All (IsGrounded env after)) (sym calcs) (
          All-mono (IsGrounded env db) (IsGrounded env after) moves db.calculations h.calculations);
    unique = λ id. rw calcs (h.unique id);
    bounded = subst (All (IsBounded after.next_id)) (sym deadlines) (
        All-append _ db.deadlines (d ∷ [])
          (All-mono (IsBounded db.next_id) _ (λ x b. omega arith) db.deadlines h.bounded)
          (bound, tt));
    tracked_once = λ id. rw deadlines (
        AtMostOne-append (is_live_for id) db.deadlines d (h.tracked_once id) (λ t.
          let same : d.deadline_calculation_id ≡ id = ground arith in
          subst (λ k. All (λ x. is_live_for k x ≡ false) db.deadlines) same none_live));
  }

  -- Deadlines that are live no more.
  IsTraceable-drop :
      (db : Db) (id by : ℕ)
      → IsTraceable env db
      → IsTraceable env (record db {
        deadlines =
            update_where (λ (d : ProjectDeadline). d.id == id) (supersede_deadline by) db.deadlines;
      })
  IsTraceable-drop db id by h = record {
    calculations =
        All-mono (IsGrounded env db) _ (Grounded-same env db _ (omega arith) refl refl refl refl)
          db.calculations h.calculations;
    unique = h.unique;
    bounded =
        All-update_where (IsBounded db.next_id) _ _ (supersede_deadline by) (λ x b _. b)
          (λ x b _. b) db.deadlines h.bounded;
    tracked_once = λ k. omega (
      arith,
      h.tracked_once k,
      keep-drop_where (is_live_for k) (λ (d : ProjectDeadline). d.id == id) (supersede_deadline by)
          (λ x. ground arith) db.deadlines,
    );
  }

  pub track-IsTraceable :
      (ctx : ProjectContext) (id : ℕ) (db after : Db) (d : ProjectDeadline)
      → track_in ctx id db ≡ ok (d, after)
      → IsTraceable env db
      → IsTraceable env after
  unfolding track_in find_calculation
  track-IsTraceable ctx id db after d e h =
      let (y, found, e) = or_throw-returns (find (is_calculation ctx id) db.calculations) _ _ e in
      let (verified, e) = guard-returns (is_verified y.calculation_status) _ _ e in
      let (fresh, e) = guard-returns (not (any (is_live_for y.id) db.deadlines)) _ _ e in
      let none_live = none_passes (is_live_for y.id) db.deadlines (ground arith) in
      let row =
        (find-All (IsGrounded env db) (is_calculation ctx id) db.calculations y found
          h.calculations).0 in
      left_by (IsTraceable env) e (
        IsTraceable-track db _
          (new_deadline ctx y (contractual_milestone_of y.id db.milestones)
            (notice_category_of y.approved_rule_snapshot_id db.snapshots) db.next_id)
          (omega arith) refl refl (omega (arith, row.bounded), omega arith) none_live
          (Grounded-same env db _ (omega arith) refl refl refl refl) h)

  replace_deadline-IsTraceable :
      (ctx : ProjectContext) (reason : Text) (prior c : DeadlineCalculation) (old : ProjectDeadline)
      (db : Db)
      → c.id < db.next_id
      → All (λ x. is_live_for c.id x ≡ false) db.deadlines
      → IsTraceable env db
      → IsTraceable env (replace_deadline ctx reason prior c old db)
  replace_deadline-IsTraceable ctx reason prior c old db bound none_live h =
      let d = superseding ctx prior c old db.next_id in
      let added : Db = record (replace_deadline ctx reason prior c old db) {
        deadlines = db.deadlines ++ d ∷ [];
      } in
      IsTraceable-drop added old.id db.next_id (
        IsTraceable-track db added d (omega arith) refl refl (omega arith, omega arith) none_live
          (Grounded-same env db added (omega arith) refl refl refl refl) h)

  -- There is one deadline to replace at most.
  replace_deadlines-IsTraceable :
      (ctx : ProjectContext) (reason : Text) (prior c : DeadlineCalculation)
      (olds : List ProjectDeadline) (db : Db)
      → length olds ≤ 1
      → c.id < db.next_id
      → All (λ x. is_live_for c.id x ≡ false) db.deadlines
      → IsTraceable env db
      → IsTraceable env (replace_deadlines ctx reason prior c olds db)
  unfolding replace_deadlines
  replace_deadlines-IsTraceable ctx reason prior c [] db one bound none_live h = h
  replace_deadlines-IsTraceable ctx reason prior c (old ∷ []) db one bound none_live h =
      replace_deadline-IsTraceable ctx reason prior c old db bound none_live h
  replace_deadlines-IsTraceable ctx reason prior c (old ∷ next ∷ more) db one bound none_live h =
      absurd (omega arith)

  unborn :
      (id : ℕ) (d : ProjectDeadline) → d.deadline_calculation_id < id → is_live_for id d ≡ false
  unborn id d b = ground arith

  -- From a new calculation on.
  replaced-IsTraceable :
      (ctx : ProjectContext) (id : ℕ) (reason : Text) (prior : DeadlineCalculation) (db : Db)
      (made : DeadlineCalculation × Db)
      → find (is_calculation ctx id) db.calculations ≡ some prior
      → is_blocked prior.calculation_status ≡ false
      → IsTraceable env db
      → IsMade env db made
      → IsTraceable env (replaced ctx reason prior made)
  replaced-IsTraceable ctx id reason prior db made found open_ h m =
      let found' : find (is_calculation ctx id) made.1.calculations ≡ some prior =
        rw m.calculations
          (find-append (is_calculation ctx id) db.calculations (made.0 ∷ []) prior found) in
      let sound =
        IsTraceable-restatus ctx id made.1 prior CalculationStatus.superseded
          (λ c. c.reviewed_by_user_id) (λ c. c.reviewed_at) found' open_ refl tt m.sound in
      replace_deadlines-IsTraceable ctx reason prior made.0
        (keep (is_live_for prior.id) made.1.deadlines) _ (m.sound.tracked_once prior.id)
        (omega (arith, m.fresh, m.more))
        (subst (All (λ x. is_live_for made.0.id x ≡ false)) (sym m.same_deadlines) (
          All-mono (IsBounded db.next_id) _
            (λ d b. unborn made.0.id d (omega (arith, m.fresh, b.0))) db.deadlines h.bounded))
        sound

  pub recalculate-IsTraceable :
      (ctx : ProjectContext) (id : ℕ) (input : Option RecalculateInput) (db after : Db)
      (c : DeadlineCalculation)
      → recalculate_in env ctx id input db ≡ ok (c, after)
      → IsTraceable env db
      → IsTraceable env after
  unfolding recalculate_in find_calculation
  recalculate-IsTraceable ctx id input db after c e h =
      let (parsed, p, e) = or_throw-returns input _ _ e in
      let (prior, found, e) =
        or_throw-returns (find (is_calculation ctx id) db.calculations) _ _ e in
      let (can, e) = guard-returns (can_recalculate prior.calculation_status) _ _ e in
      let (trigger, q, e) =
        or_throw-returns (trigger_of parsed.trigger_date_id prior.trigger_date_evidence) _ _ e in
      let (made, r, e) = >>=-returns (calculate_internal env ctx prior.project_event_id _ db) _ e in
      let m = calculate_internal-IsMade env ctx prior.project_event_id _ db made r h in
      let sound =
        replaced-IsTraceable ctx id parsed.reason prior db made found
          (recalculable prior.calculation_status can) h m in
      left_by (IsTraceable env) e (
        IsTraceable-keeps env _ _ (omega arith) refl refl
          (Grounded-same env _ _ (omega arith) refl refl refl refl) sound)
