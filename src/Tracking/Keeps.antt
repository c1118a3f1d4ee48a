-- ===== src/Tracking/Keeps.antt =====
-- The requests that make no calculation and no deadline keep the tables traceable.
use claim_it_all.Prelude.{
  ℕ, ◌≤◌, Bool, not, ◌&&◌, Option, none, some, List, ◌≡◌, refl, sym, arith, ◌==◌, All, All-mono,
  find, any, update_where,
}
use mathlib.Core.Path.{subst}
use claim_it_all.Prelude.Text.{Text}
use claim_it_all.Service.Result.{ok, >>=-returns, guard-returns, or_throw-returns, left_by}
use claim_it_all.Service.Context.{ProjectContext}
use claim_it_all.Service.Rows.{Some-append, Some-update_where, Some-mono}
use claim_it_all.Tracking.Types.{
  ProjectEvent, ProjectEventDate, RuleSnapshot, EventRuleAssessment, ProjectCalendar,
  ProjectCalendarRevision, DeadlineCalculation, CreateProjectEvent, AddProjectEventDate,
  LinkProjectEventEvidence, ProjectEventEvidence, CreateProjectCalendar, CreateCalendarRevision,
}
use claim_it_all.Tracking.Store.{
  Db, Surroundings, parse_date_value, date_column, load_project_event,
  calendar_revision_to_engine_input,
}
use claim_it_all.Tracking.Events.{
  check_package, create_event_in, add_date_in, is_verified, is_exact, is_date_of, verify_date,
  verify_date_in, find_reference, find_part, check_segment, link_evidence_in, can_confirm,
  Confirmation, confirm_event_in,
}
use claim_it_all.Tracking.Rules.{
  is_for_analysis, is_configured_snapshot, is_confirmed_for, confirm_rule_in,
}
use claim_it_all.Tracking.Calendars.{
  create_calendar_in, is_calendar, create_revision_in, is_revision_of, can_approve,
  supersede_revision, supersede_current, approve_revision, approve_revision_in,
}
use claim_it_all.Tracking.Calculation.{engine_result}
use claim_it_all.Tracking.Traceable.{
  StartsAt, RestsOn, IsAssessment, IsGrounded, IsBounded, IsTraceable,
}

module _ (env : Surroundings) where
  pub IsTraceable-keeps :
      (db after : Db)
      → db.next_id ≤ after.next_id
      → after.calculations ≡ db.calculations
      → after.deadlines ≡ db.deadlines
      → ((c : DeadlineCalculation) → IsGrounded env db c → IsGrounded env after c)
      → IsTraceable env db
      → IsTraceable env after
  IsTraceable-keeps db after more calcs deadlines moves h = record {
    calculations =
        subst (All (IsGrounded env after)) (sym calcs) (
          All-mono (IsGrounded env db) (IsGrounded env after) moves db.calculations h.calculations);
    unique = λ id. rw calcs (h.unique id);
    bounded =
        subst (All (IsBounded after.next_id)) (sym deadlines)
          (All-mono _ _ (λ d b. omega arith) db.deadlines h.bounded);
    tracked_once = λ id. rw deadlines (h.tracked_once id);
  }

  -- Where only other tables change.
  pub Grounded-same :
      (db after : Db)
      → db.next_id ≤ after.next_id
      → after.dates ≡ db.dates
      → after.revisions ≡ db.revisions
      → after.snapshots ≡ db.snapshots
      → after.assessments ≡ db.assessments
      → (c : DeadlineCalculation) → IsGrounded env db c
      → IsGrounded env after c
  Grounded-same db after more dates revisions snapshots assessments c g = record {
    bounded = omega (arith, g.bounded);
    trigger = rw (dates, revisions, snapshots) g.trigger;
    assessment = rw assessments g.assessment;
    reviewed = g.reviewed;
  }

  pub create_event-IsTraceable :
      (ctx : ProjectContext) (input : Option CreateProjectEvent) (db after : Db)
      (event : ProjectEvent)
      → create_event_in ctx input db ≡ ok (event, after)
      → IsTraceable env db
      → IsTraceable env after
  unfolding create_event_in
  create_event-IsTraceable ctx input db after event e h =
      let (parsed, p, e) = or_throw-returns input _ _ e in
      let (checked, q, e) = >>=-returns (check_package ctx parsed.contract_package_id db) _ e in
      left_by (IsTraceable env) e (
        IsTraceable-keeps db _ (omega arith) refl refl
          (Grounded-same db _ (omega arith) refl refl refl refl) h)

  pub link_evidence-IsTraceable :
      (ctx : ProjectContext) (event_id : ℕ) (input : Option LinkProjectEventEvidence)
      (db after : Db) (linked : ProjectEventEvidence)
      → link_evidence_in ctx event_id input db ≡ ok (linked, after)
      → IsTraceable env db
      → IsTraceable env after
  unfolding link_evidence_in
  link_evidence-IsTraceable ctx event_id input db after linked e h =
      let (parsed, p, e) = or_throw-returns input _ _ e in
      let (event, q, e) = >>=-returns (load_project_event ctx event_id db) _ e in
      let (source, r, e) =
        >>=-returns (find_reference ctx parsed.source_document_id db.source_documents) _ e in
      let (version, s, e) =
        >>=-returns (find_part ctx parsed.document_version_id source.id db.document_versions) _ e in
      let (checked, t, e) =
        >>=-returns (check_segment ctx parsed.evidence_segment_id version.id db) _ e in
      left_by (IsTraceable env) e (
        IsTraceable-keeps db _ (omega arith) refl refl
          (Grounded-same db _ (omega arith) refl refl refl refl) h)

  pub confirm_event-IsTraceable :
      (now : ℕ) (ctx : ProjectContext) (event_id : ℕ) (input : Option Confirmation) (db after : Db)
      (event : ProjectEvent)
      → confirm_event_in now ctx event_id input db ≡ ok (event, after)
      → IsTraceable env db
      → IsTraceable env after
  unfolding confirm_event_in
  confirm_event-IsTraceable now ctx event_id input db after updated e h =
      let (parsed, p, e) = or_throw-returns input _ _ e in
      let (event, q, e) = >>=-returns (load_project_event ctx event_id db) _ e in
      let (can, e) = guard-returns (can_confirm event.confirmation_status) _ _ e in
      left_by (IsTraceable env) e (
        IsTraceable-keeps db _ (omega arith) refl refl
          (Grounded-same db _ (omega arith) refl refl refl refl) h)

  pub create_calendar-IsTraceable :
      (ctx : ProjectContext) (input : Option CreateProjectCalendar) (db after : Db)
      (calendar : ProjectCalendar)
      → create_calendar_in ctx input db ≡ ok (calendar, after)
      → IsTraceable env db
      → IsTraceable env after
  unfolding create_calendar_in
  create_calendar-IsTraceable ctx input db after calendar e h =
      let (parsed, p, e) = or_throw-returns input _ _ e in
      left_by (IsTraceable env) e (
        IsTraceable-keeps db _ (omega arith) refl refl
          (Grounded-same db _ (omega arith) refl refl refl refl) h)

  pub add_date-IsTraceable :
      (ctx : ProjectContext) (event_id : ℕ) (input : Option AddProjectEventDate) (db after : Db)
      (date : ProjectEventDate)
      → add_date_in env ctx event_id input db ≡ ok (date, after)
      → IsTraceable env db
      → IsTraceable env after
  unfolding add_date_in
  add_date-IsTraceable ctx event_id input db after date e h =
      let (parsed, p, e) = or_throw-returns input _ _ e in
      let (event, q, e) = >>=-returns (load_project_event ctx event_id db) _ e in
      let (at, r, e) = >>=-returns (parse_date_value env parsed.date_value) _ e in
      left_by (IsTraceable env) e (
        IsTraceable-keeps db _ (omega arith) refl refl
          (λ c g. record {
            bounded = omega (arith, g.bounded);
            trigger = Some-append (StartsAt env db.revisions db.snapshots c) db.dates _ g.trigger;
            assessment = g.assessment;
            reviewed = g.reviewed;
          })
          h)

  -- A date that is verified again is still the one that a calculation starts at.
  StartsAt-verify :
      (ctx : ProjectContext) (now : ℕ) (revisions : List ProjectCalendarRevision)
      (snapshots : List RuleSnapshot) (c : DeadlineCalculation) (d : ProjectEventDate)
      → StartsAt env revisions snapshots c d
      → StartsAt env revisions snapshots c (verify_date ctx now d)
  unfolding engine_result
  StartsAt-verify ctx now revisions snapshots c d ((a, b, e, v, x), s) = ((a, b, e, refl, x), s)

  pub verify_date-IsTraceable :
      (now : ℕ) (ctx : ProjectContext) (event_id date_id : ℕ) (db after : Db)
      (date : ProjectEventDate)
      → verify_date_in now ctx event_id date_id db ≡ ok (date, after)
      → IsTraceable env db
      → IsTraceable env after
  unfolding verify_date_in
  verify_date-IsTraceable now ctx event_id date_id db after updated e h =
      let (date, p, e) = or_throw-returns (find (is_date_of ctx event_id date_id) db.dates) _ _ e in
      let (open_, e) = guard-returns (not (is_verified date.verification_status)) _ _ e in
      let (exact, e) = guard-returns (is_exact date.precision) _ _ e in
      left_by (IsTraceable env) e (
        IsTraceable-keeps db _ (omega arith) refl refl
          (λ c g. record {
            bounded = g.bounded;
            trigger =
                Some-update_where (StartsAt env db.revisions db.snapshots c)
                  (StartsAt env db.revisions db.snapshots c) _ (verify_date ctx now)
                  (λ d s _. StartsAt-verify ctx now db.revisions db.snapshots c d s) (λ d s _. s)
                  db.dates g.trigger;
            assessment = g.assessment;
            reviewed = g.reviewed;
          })
          h)

  pub confirm_rule-IsTraceable :
      (now : ℕ) (ctx : ProjectContext) (event_id : ℕ) (input : Option (ℕ × Text)) (db after : Db)
      (assessment : EventRuleAssessment)
      → confirm_rule_in now ctx event_id input db ≡ ok (assessment, after)
      → IsTraceable env db
      → IsTraceable env after
  unfolding confirm_rule_in
  confirm_rule-IsTraceable now ctx event_id input db after assessment e h =
      let (parsed, p, e) = or_throw-returns input _ _ e in
      let (event, q, e) = >>=-returns (load_project_event ctx event_id db) _ e in
      let (confirmed, e) = guard-returns (is_for_analysis event.confirmation_status) _ _ e in
      let (snapshot, r, e) =
        or_throw-returns (find (is_configured_snapshot ctx parsed.0 db) db.snapshots) _ _ e in
      let (fresh, e) =
        guard-returns (not (any (is_confirmed_for event_id snapshot.id) db.assessments)) _ _ e in
      left_by (IsTraceable env) e (
        IsTraceable-keeps db _ (omega arith) refl refl
          (λ c g. record {
            bounded = omega (arith, g.bounded);
            trigger = g.trigger;
            assessment = Some-append (IsAssessment c) db.assessments _ g.assessment;
            reviewed = g.reviewed;
          })
          h)

  -- What an update of the calendars' revisions must keep.
  StartsAt-revisions :
      (change : ProjectCalendarRevision → ProjectCalendarRevision)
      (p : ProjectCalendarRevision → Bool) (revisions : List ProjectCalendarRevision)
      (snapshots : List RuleSnapshot) (c : DeadlineCalculation) (d : ProjectEventDate)
      → ((r : ProjectCalendarRevision)
          → RestsOn env snapshots c d r
          → RestsOn env snapshots c d (change r))
      → StartsAt env revisions snapshots c d
      → StartsAt env (update_where p change revisions) snapshots c d
  StartsAt-revisions change p revisions snapshots c d keeps (t, s) = (
    t,
    Some-update_where (RestsOn env snapshots c d) (RestsOn env snapshots c d) p change
        (λ r k _. keeps r k) (λ r k _. k) revisions s,
  )

  StartsAt-supersede :
      (current : Option ℕ) (revisions : List ProjectCalendarRevision)
      (snapshots : List RuleSnapshot) (c : DeadlineCalculation) (d : ProjectEventDate)
      → StartsAt env revisions snapshots c d
      → StartsAt env (supersede_current current revisions) snapshots c d
  unfolding engine_result calendar_revision_to_engine_input
  StartsAt-supersede none revisions snapshots c d s = s
  StartsAt-supersede (some id) revisions snapshots c d s =
      StartsAt-revisions supersede_revision _ revisions snapshots c d
        (λ r ((a, b, x), k). ((a, b, refl), k)) s

  StartsAt-approve :
      (ctx : ProjectContext) (now id : ℕ) (revisions : List ProjectCalendarRevision)
      (snapshots : List RuleSnapshot) (c : DeadlineCalculation) (d : ProjectEventDate)
      → StartsAt env revisions snapshots c d
      → StartsAt env
          (update_where
            (λ (r : ProjectCalendarRevision). r.id == id)
            (approve_revision ctx now)
            revisions)
          snapshots
          c
          d
  unfolding engine_result calendar_revision_to_engine_input
  StartsAt-approve ctx now id revisions snapshots c d s =
      StartsAt-revisions (approve_revision ctx now) _ revisions snapshots c d
        (λ r ((a, b, x), k). ((a, b, refl), k)) s

  pub create_revision-IsTraceable :
      (ctx : ProjectContext) (calendar_id : ℕ) (input : Option CreateCalendarRevision)
      (db after : Db) (revision : ProjectCalendarRevision)
      → create_revision_in env ctx calendar_id input db ≡ ok (revision, after)
      → IsTraceable env db
      → IsTraceable env after
  unfolding create_revision_in
  create_revision-IsTraceable ctx calendar_id input db after revision e h =
      let (parsed, p, e) = or_throw-returns input _ _ e in
      let (calendar, q, e) =
        or_throw-returns (find (is_calendar ctx calendar_id) db.calendars) _ _ e in
      let (from, r, e) = >>=-returns (date_column env parsed.effective_from) _ e in
      let (to, s, e) = >>=-returns (date_column env parsed.effective_to) _ e in
      left_by (IsTraceable env) e (
        IsTraceable-keeps db _ (omega arith) refl refl
          (λ c g. record {
            bounded = omega (arith, g.bounded);
            trigger =
                Some-mono (StartsAt env db.revisions db.snapshots c) _
                  (λ d (t, k). (t, Some-append (RestsOn env db.snapshots c d) db.revisions _ k))
                  db.dates g.trigger;
            assessment = g.assessment;
            reviewed = g.reviewed;
          })
          h)

  pub approve_revision-IsTraceable :
      (now : ℕ) (ctx : ProjectContext) (calendar_id revision_id : ℕ) (db after : Db)
      (revision : ProjectCalendarRevision)
      → approve_revision_in env now ctx calendar_id revision_id db ≡ ok (revision, after)
      → IsTraceable env db
      → IsTraceable env after
  unfolding approve_revision_in
  approve_revision-IsTraceable now ctx calendar_id revision_id db after updated e h =
      let (revision, p, e) =
        or_throw-returns (find (is_revision_of ctx calendar_id revision_id) db.revisions) _ _ e in
      let (can, e) = guard-returns (can_approve revision.status) _ _ e in
      let (calendar, q, e) =
        or_throw-returns (find (is_calendar ctx calendar_id) db.calendars) _ _ e in
      let (segregated, e) =
        guard-returns (not (env.calendar_segregated && calendar.created_by_user_id == ctx.user_id))
          _ _ e in
      left_by (IsTraceable env) e (
        IsTraceable-keeps db _ (omega arith) refl refl
          (λ c g. record {
            bounded = g.bounded;
            trigger =
                Some-mono (StartsAt env db.revisions db.snapshots c) _
                  (λ d s. StartsAt-approve ctx now revision.id _ db.snapshots c d (
                    StartsAt-supersede calendar.current_revision_id db.revisions db.snapshots c d
                      s))
                  db.dates g.trigger;
            assessment = g.assessment;
            reviewed = g.reviewed;
          })
          h)
