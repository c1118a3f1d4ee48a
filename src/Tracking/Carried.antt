-- ===== src/Tracking/Carried.antt =====
-- What a recalculation does to the deadlines that are tracked.
use claim_it_all.Prelude.{
  ℕ, suc, ◌≤◌, ◌<◌, Bool, true, false, Option, List, [], ◌∷◌, ◌++◌, ◌≡◌, ◌≢◌, ◌∙◌, refl, sym, ap,
  arith, ◌==◌, ==_refl, All-append, inl, inr, All, All-mono, find, find-All, update_where, length,
  length-append, keep, keep-append, Bool-cases,
}
use mathlib.Core.Path.{subst}
use claim_it_all.Prelude.Text.{Text}
use claim_it_all.Authz.Capabilities.{deadline_recalculate}
use claim_it_all.Authz.Permissions.{has_capability}
use claim_it_all.Service.Result.{
  ok, >>=-returns, guard-returns, or_throw-returns, or_throw-ok, not_found, holds_of,
}
use claim_it_all.Service.Context.{ProjectContext, with_capability-ok}
use claim_it_all.Service.Rows.{keep-none, none_kept, All-keep}
use claim_it_all.Tracking.Types.{DeadlineCalculation, ProjectDeadline, AuditAction}
use claim_it_all.Tracking.Store.{Db, Surroundings, write_audit_log, as_capable}
use claim_it_all.Tracking.Calculation.{calculate_internal}
use claim_it_all.Tracking.Deadlines.{
  is_calculation, find_calculation, is_live_for, supersede_deadline, superseding, replace_deadlines,
  can_recalculate, RecalculateInput, trigger_of, supersede_calculation, replaced, recalculate_in,
  recalculate_deadline,
}
use claim_it_all.Tracking.Traceable.{IsGrounded, IsBounded, IsTraceable}
use claim_it_all.Tracking.Makes.{IsNew, IsMade, calculate_internal-IsMade}

unborn_deadline :
    (id : ℕ) (d : ProjectDeadline) → d.deadline_calculation_id < id → is_live_for id d ≡ false
unborn_deadline id d b = ground arith

found_bounded :
    (env : Surroundings) (ctx : ProjectContext) (id : ℕ) (db : Db) (prior : DeadlineCalculation)
    → find_calculation ctx id db ≡ ok prior
    → IsTraceable env db
    → prior.id < db.next_id
unfolding find_calculation
found_bounded env ctx id db prior e h =
    let found = or_throw-ok (find (is_calculation ctx id) db.calculations) not_found prior e in
    (find-All (IsGrounded env db) (is_calculation ctx id) db.calculations prior found
      h.calculations).0.bounded

-- The number of deadlines that are live for a calculation.
abbrev pub live : ℕ → List ProjectDeadline → ℕ
live id deadlines = length (keep (is_live_for id) deadlines)

-- Every live deadline of a calculation is dropped if it is the given one.
live-drop :
    (id old by : ℕ) (ds : List ProjectDeadline)
    → All (λ d. is_live_for id d ≡ true → (d.id == old) ≡ true) ds
    → live id (update_where (λ (d : ProjectDeadline). d.id == old) (supersede_deadline by) ds) ≡ 0
live-drop id old by [] h = refl
live-drop id old by (d ∷ ds) (k, h) = elim (Bool-cases (is_live_for id d)) [
  | inl t ↦ rw (k t) (ground (arith, live-drop id old by ds h))
  | inr t ↦ elim (Bool-cases (d.id == old)) [
    | inl u ↦ rw u (ground (arith, live-drop id old by ds h))
    | inr u ↦ rw (u, t) (live-drop id old by ds h)
  ]
]

-- A deadline with another identifier stays.
live-stays :
    (id old by : ℕ) (ds : List ProjectDeadline)
    → All (λ d. is_live_for id d ≡ true → (d.id == old) ≡ false) ds
    → live id (update_where (λ (d : ProjectDeadline). d.id == old) (supersede_deadline by) ds)
      ≡ live id ds
live-stays id old by [] h = refl
live-stays id old by (d ∷ ds) (k, h) = elim (Bool-cases (is_live_for id d)) [
  | inl t ↦ rw (k t, t) (ap suc (live-stays id old by ds h))
  | inr t ↦ elim (Bool-cases (d.id == old)) [
    | inl u ↦ rw (u, t) (ground (arith, live-stays id old by ds h))
    | inr u ↦ rw (u, t) (live-stays id old by ds h)
  ]
]

-- The rows that are kept, where that is one row.
kept_one :
    (q : ProjectDeadline → Bool) (old : ProjectDeadline) (ds : List ProjectDeadline)
    → keep q ds ≡ old ∷ []
    → All (λ d. q d ≡ true → (d.id == old.id) ≡ true) ds
kept_one q old [] e = cc
kept_one q old (d ∷ ds) e = elim (Bool-cases (q d)) [
  | inl t ↦
      let e' : d ∷ keep q ds ≡ old ∷ [] = rw t at e in
      let same_row : d ≡ old = cc in
      let no_more : keep q ds ≡ [] = cc in
      (
        λ _. rw same_row (==_refl old.id),
        All-mono (λ x. q x ≡ true → x ≡ old) (λ x. q x ≡ true → (x.id == old.id) ≡ true)
            (λ x f u. rw (f u) (==_refl old.id)) ds (none_kept q old ds (rw no_more (omega arith))),
      )
  | inr t ↦ (λ u. cc, kept_one q old ds (rw t at e))
]

live_append_one :
    (id : ℕ) (d : ProjectDeadline) (ds : List ProjectDeadline)
    → All (λ x. is_live_for id x ≡ false) ds
    → is_live_for id d ≡ true
    → live id (ds ++ d ∷ []) ≡ 1
live_append_one id d ds h t =
    rw (keep-append (is_live_for id) ds (d ∷ []), t)
      (omega
        (arith, length-append (keep (is_live_for id) ds) (d ∷ []), keep-none (is_live_for id) ds h))

module _ (ctx : ProjectContext) (reason : Text) (prior c : DeadlineCalculation) (db : Db) where
  -- The deadlines after the replacement of those given.
  abbrev replaced_rows : List ProjectDeadline → List ProjectDeadline
  replaced_rows olds = (replace_deadlines ctx reason prior c olds db).deadlines

  replaced-live :
      (olds : List ProjectDeadline)
      → keep (is_live_for prior.id) db.deadlines ≡ olds
      → length olds ≤ 1
      → c.id ≢ prior.id
      → All (λ d. is_live_for c.id d ≡ false) db.deadlines
      → All (IsBounded db.next_id) db.deadlines
      → (live prior.id (replaced_rows olds) ≡ 0) × (live c.id (replaced_rows olds) ≡ length olds)
  unfolding replace_deadlines
  replaced-live [] e one other unborn bounded =
      (rw e refl, keep-none (is_live_for c.id) db.deadlines unborn)
  replaced-live (old ∷ []) e one other unborn bounded =
      let d = superseding ctx prior c old db.next_id in
      let old_bounded : IsBounded db.next_id old =
        (subst (All (IsBounded db.next_id)) e
          (All-keep (IsBounded db.next_id) (is_live_for prior.id) db.deadlines bounded)).0 in
      let fresh : (d.id == old.id) ≡ false = ground arith in
      let fresh_live : is_live_for c.id d ≡ true = ground arith in
      let not_prior : is_live_for prior.id d ≡ false = ground arith in
      (
        live-drop prior.id old.id db.next_id (db.deadlines ++ d ∷ []) (
            All-append _ db.deadlines (d ∷ []) (kept_one (is_live_for prior.id) old db.deadlines e)
              (λ t. cc, tt)),
        live-stays c.id old.id db.next_id (db.deadlines ++ d ∷ []) (
              All-append _ db.deadlines (d ∷ [])
                (All-mono (λ x. is_live_for c.id x ≡ false) _ (λ x f t. cc) db.deadlines unborn)
                (λ _. fresh, tt))
            ∙ live_append_one c.id d db.deadlines unborn fresh_live,
      )
  replaced-live (old ∷ next ∷ more) e one other unborn bounded = absurd (omega arith)

module _ (env : Surroundings) where
  -- From a new calculation on.
  replaced-Carries :
      (ctx : ProjectContext) (reason : Text) (prior : DeadlineCalculation) (db : Db)
      (made : DeadlineCalculation × Db)
      → prior.id < db.next_id
      → IsTraceable env db
      → IsMade env db made
      → (live prior.id (replaced ctx reason prior made).deadlines ≡ 0)
        × (live made.0.id (replaced ctx reason prior made).deadlines ≡ live prior.id db.deadlines)
  replaced-Carries ctx reason prior db made bound h m =
      let unborn = subst (All (λ x. is_live_for made.0.id x ≡ false)) (sym m.same_deadlines) (
        All-mono (IsBounded db.next_id) _
          (λ d b. unborn_deadline made.0.id d (omega (arith, m.fresh, b.0))) db.deadlines
          h.bounded) in
      let (none_left, carried) =
        replaced-live ctx reason prior made.0
          (record made.1 {
            calculations =
                update_where (λ (c : DeadlineCalculation). c.id == prior.id) supersede_calculation
                  made.1.calculations;
          })
          (keep (is_live_for prior.id) made.1.deadlines) refl (m.sound.tracked_once prior.id)
          (λ same. omega (arith, m.fresh, same)) unborn m.sound.bounded in
      (none_left, carried ∙ ap (live prior.id) m.same_deadlines)

  -- A recalculation that succeeds, from traceable tables, is made by one who may recalculate, of a
  -- calculation that is verified or to be reviewed. It leaves no live deadline of that calculation,
  -- and as many of the new one as there were, though nobody has verified the new one, which may be
  -- blocked.
  pub recalculate_deadline-Carries :
      (ctx : ProjectContext) (id : ℕ) (input : Option RecalculateInput) (db after : Db)
      (c : DeadlineCalculation)
      → recalculate_deadline env ctx id input db ≡ (ok c, after)
      → IsTraceable env db
      → (has_capability ctx.capabilities deadline_recalculate ≡ true)
        × ((prior : DeadlineCalculation) × (find_calculation ctx id db ≡ ok prior)
            × (can_recalculate prior.calculation_status ≡ true)
            × (live prior.id after.deadlines ≡ 0)
            × (live c.id after.deadlines ≡ live prior.id db.deadlines)
            × IsNew c.calculation_status)
  unfolding as_capable recalculate_in
  recalculate_deadline-Carries ctx id input db after c e h =
      let (capable, e) =
        with_capability-ok ctx deadline_recalculate (write_audit_log ctx AuditAction.authz_denied 0)
          (recalculate_in env ctx id input) db after c e in
      let (parsed, p, e) = or_throw-returns input _ _ e in
      let (prior, found, e) = >>=-returns (find_calculation ctx id db) _ e in
      let (can, e) = guard-returns (can_recalculate prior.calculation_status) _ _ e in
      let (trigger, q, e) =
        or_throw-returns (trigger_of parsed.trigger_date_id prior.trigger_date_evidence) _ _ e in
      let (made, r, e) = >>=-returns (calculate_internal env ctx prior.project_event_id _ db) _ e in
      let m = calculate_internal-IsMade env ctx prior.project_event_id _ db made r h in
      let (none_left, carried) =
        replaced-Carries ctx parsed.reason prior db made (found_bounded env ctx id db prior found h)
          h m in
      let rest =
        holds_of
          (λ (p : DeadlineCalculation × Db).
            (live prior.id p.1.deadlines ≡ 0)
            × (live p.0.id p.1.deadlines ≡ live prior.id db.deadlines)
            × IsNew p.0.calculation_status)
          e (none_left, carried, m.unverified) in
      (capable, (prior, found, can, rest.0, rest.1, rest.2))
