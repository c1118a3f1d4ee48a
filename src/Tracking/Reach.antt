-- ===== src/Tracking/Reach.antt =====
-- The requests as steps of the tables, and what every sequence of them keeps.
use claim_it_all.Prelude.{ℕ, ◌+◌, Option, List, ◌++◌, ◌≡◌, refl, arith}
use claim_it_all.Prelude.Text.{Text}
use claim_it_all.Authz.Capabilities.{Capability}
use claim_it_all.Service.Result.{Result, ok}
use claim_it_all.Service.Context.{ProjectContext, with_capability-keeps}
use claim_it_all.Service.Rows.{Some-append, Some-mono}
use claim_it_all.Tracking.Types.{
  CreateProjectEvent, AddProjectEventDate, LinkProjectEventEvidence, ProjectEvent, ProjectEventDate,
  Reference, RuleSnapshot, ConfigurationRevision, CreateProjectCalendar, CreateCalendarRevision,
  AuditAction,
}
use claim_it_all.Tracking.Store.{Db, Surroundings, write_audit_log, as_capable}
use claim_it_all.Tracking.Events.{
  create_project_event, add_project_event_date, verify_project_event_date,
  link_project_event_evidence, Confirmation, confirm_project_event,
}
use claim_it_all.Tracking.Rules.{confirm_rule_applicability}
use claim_it_all.Tracking.Calendars.{
  create_project_calendar, create_calendar_revision, approve_calendar_revision,
}
use claim_it_all.Tracking.Calculation.{calculate_event_deadline}
use claim_it_all.Tracking.Deadlines.{
  verify_deadline_calculation, create_tracked_deadline, RecalculateInput, recalculate_deadline,
}
use claim_it_all.Tracking.Traceable.{HoldsFor, RestsOn, StartsAt, IsTraceable}
use claim_it_all.Tracking.Keeps.{
  IsTraceable-keeps, Grounded-same, create_event-IsTraceable, link_evidence-IsTraceable,
  confirm_event-IsTraceable, create_calendar-IsTraceable, add_date-IsTraceable,
  verify_date-IsTraceable, confirm_rule-IsTraceable, create_revision-IsTraceable,
  approve_revision-IsTraceable,
}
use claim_it_all.Tracking.Makes.{calculate-IsTraceable}
use claim_it_all.Tracking.Replaces.{verify-IsTraceable, track-IsTraceable, recalculate-IsTraceable}

-- What the other services do to the tables: they add events with dates, and approved rules, and
-- change the tables that this service only looks rows up in.
pub record Elsewhere : Type 0 where
  pub used_ids : ℕ
  pub events : List ProjectEvent
  pub dates : List ProjectEventDate
  pub contract_packages : List Reference
  pub source_documents : List Reference
  pub document_versions : List Reference
  pub evidence_segments : List Reference
  pub snapshots : List RuleSnapshot
  pub configurations : List ConfigurationRevision

abbrev pub after_others : Elsewhere → Db → Db
after_others others db = record db {
  next_id = db.next_id + others.used_ids;
  events = db.events ++ others.events;
  dates = db.dates ++ others.dates;
  contract_packages = others.contract_packages;
  source_documents = others.source_documents;
  document_versions = others.document_versions;
  evidence_segments = others.evidence_segments;
  snapshots = db.snapshots ++ others.snapshots;
  configurations = others.configurations;
}

-- A request, by anybody, with any input, at any time, takes the tables to others.
pub data Step (env : Surroundings) : Db → Db → Type 0 where
  create_event :
      {db : Db} (ctx : ProjectContext) (input : Option CreateProjectEvent)
      → Step env db (create_project_event ctx input db).1
  add_date :
      {db : Db} (ctx : ProjectContext) (event : ℕ) (input : Option AddProjectEventDate)
      → Step env db (add_project_event_date env ctx event input db).1
  verify_date :
      {db : Db} (now : ℕ) (ctx : ProjectContext) (event date : ℕ)
      → Step env db (verify_project_event_date now ctx event date db).1
  link_evidence :
      {db : Db} (ctx : ProjectContext) (event : ℕ) (input : Option LinkProjectEventEvidence)
      → Step env db (link_project_event_evidence ctx event input db).1
  confirm_event :
      {db : Db} (now : ℕ) (ctx : ProjectContext) (event : ℕ) (input : Option Confirmation)
      → Step env db (confirm_project_event now ctx event input db).1
  confirm_rule :
      {db : Db} (now : ℕ) (ctx : ProjectContext) (event : ℕ) (input : Option (ℕ × Text))
      → Step env db (confirm_rule_applicability now ctx event input db).1
  create_calendar :
      {db : Db} (ctx : ProjectContext) (input : Option CreateProjectCalendar)
      → Step env db (create_project_calendar ctx input db).1
  create_revision :
      {db : Db} (ctx : ProjectContext) (calendar : ℕ) (input : Option CreateCalendarRevision)
      → Step env db (create_calendar_revision env ctx calendar input db).1
  approve_revision :
      {db : Db} (now : ℕ) (ctx : ProjectContext) (calendar revision : ℕ)
      → Step env db (approve_calendar_revision env now ctx calendar revision db).1
  calculate :
      {db : Db} (ctx : ProjectContext) (event : ℕ) (input : Option (ℕ × ℕ × ℕ))
      → Step env db (calculate_event_deadline env ctx event input db).1
  verify :
      {db : Db} (now : ℕ) (ctx : ProjectContext) (id : ℕ)
      → Step env db (verify_deadline_calculation env now ctx id db).1
  track :
      {db : Db} (ctx : ProjectContext) (id : ℕ) → Step env db (create_tracked_deadline ctx id db).1
  recalculate :
      {db : Db} (ctx : ProjectContext) (id : ℕ) (input : Option RecalculateInput)
      → Step env db (recalculate_deadline env ctx id input db).1
  others : {db : Db} (elsewhere : Elsewhere) → Step env db (after_others elsewhere db)

pub data Steps (env : Surroundings) : Db → Db → Type 0 where
  done : {db : Db} → Steps env db db
  next : {a b c : Db} → Step env a b → Steps env b c → Steps env a c

module _ (env : Surroundings) where
  others-IsTraceable :
      (elsewhere : Elsewhere) (db : Db)
      → IsTraceable env db
      → IsTraceable env (after_others elsewhere db)
  others-IsTraceable elsewhere db h =
      IsTraceable-keeps env db _ (omega arith) refl refl
        (λ c g. record {
          bounded = omega (arith, g.bounded);
          trigger =
              Some-append (StartsAt env db.revisions (db.snapshots ++ elsewhere.snapshots) c)
                db.dates elsewhere.dates
                (Some-mono (StartsAt env db.revisions db.snapshots c) _
                  (λ d (t, s). (
                    t,
                    Some-mono (RestsOn env db.snapshots c d) _
                        (λ r (k, m). (k, Some-append (HoldsFor env c d r) db.snapshots _ m))
                        db.revisions s,
                  ))
                  db.dates g.trigger);
          assessment = g.assessment;
          reviewed = g.reviewed;
        })
        h

  -- What a body keeps, its request keeps.
  as_capable-keeps :
      {A : Type 0} (ctx : ProjectContext) (capability : Capability) (body : Db → Result (A × Db))
      (db : Db)
      → ((a : A) (after : Db)
          → body db ≡ ok (a, after)
          → IsTraceable env db
          → IsTraceable env after)
      → IsTraceable env db
      → IsTraceable env (as_capable ctx capability body db).1
  unfolding as_capable
  as_capable-keeps ctx capability body db keeps h =
      with_capability-keeps (IsTraceable env) ctx capability
        (write_audit_log ctx AuditAction.authz_denied 0) body db (λ a after e. keeps a after e h)
        (IsTraceable-keeps env db (write_audit_log ctx AuditAction.authz_denied 0 db) (omega arith)
          refl refl (Grounded-same env db _ (omega arith) refl refl refl refl) h)
        h

  Step-IsTraceable : {a b : Db} → Step env a b → IsTraceable env a → IsTraceable env b
  Step-IsTraceable (Step.create_event {db = db} ctx input) h =
      as_capable-keeps ctx _ _ db (λ a after. create_event-IsTraceable env ctx input db after a) h
  Step-IsTraceable (Step.add_date {db = db} ctx event input) h =
      as_capable-keeps ctx _ _ db (λ a after. add_date-IsTraceable env ctx event input db after a) h
  Step-IsTraceable (Step.verify_date {db = db} now ctx event date) h =
      as_capable-keeps ctx _ _ db
        (λ a after. verify_date-IsTraceable env now ctx event date db after a) h
  Step-IsTraceable (Step.link_evidence {db = db} ctx event input) h =
      as_capable-keeps ctx _ _ db
        (λ a after. link_evidence-IsTraceable env ctx event input db after a) h
  Step-IsTraceable (Step.confirm_event {db = db} now ctx event input) h =
      as_capable-keeps ctx _ _ db
        (λ a after. confirm_event-IsTraceable env now ctx event input db after a) h
  Step-IsTraceable (Step.confirm_rule {db = db} now ctx event input) h =
      as_capable-keeps ctx _ _ db
        (λ a after. confirm_rule-IsTraceable env now ctx event input db after a) h
  Step-IsTraceable (Step.create_calendar {db = db} ctx input) h =
      as_capable-keeps ctx _ _ db (λ a after. create_calendar-IsTraceable env ctx input db after a)
        h
  Step-IsTraceable (Step.create_revision {db = db} ctx calendar input) h =
      as_capable-keeps ctx _ _ db
        (λ a after. create_revision-IsTraceable env ctx calendar input db after a) h
  Step-IsTraceable (Step.approve_revision {db = db} now ctx calendar revision) h =
      as_capable-keeps ctx _ _ db
        (λ a after. approve_revision-IsTraceable env now ctx calendar revision db after a) h
  Step-IsTraceable (Step.calculate {db = db} ctx event input) h =
      as_capable-keeps ctx _ _ db (λ a after. calculate-IsTraceable env ctx event input db after a)
        h
  Step-IsTraceable (Step.verify {db = db} now ctx id) h =
      as_capable-keeps ctx _ _ db (λ a after. verify-IsTraceable env now ctx id db after a) h
  Step-IsTraceable (Step.track {db = db} ctx id) h =
      as_capable-keeps ctx _ _ db (λ a after. track-IsTraceable env ctx id db after a) h
  Step-IsTraceable (Step.recalculate {db = db} ctx id input) h =
      as_capable-keeps ctx _ _ db (λ a after. recalculate-IsTraceable env ctx id input db after a) h
  Step-IsTraceable (Step.others {db = db} elsewhere) h = others-IsTraceable elsewhere db h

  -- Whatever requests are made, in whatever order, and whatever the other services do between them,
  -- if the tables were traceable before, they are afterwards. That is: each calculation holds what the
  -- engine says of a rule, a date and a revision of a calendar that are in the tables under the
  -- identifiers that it names, and is blocked exactly if the engine says so; the date is a verified
  -- and exact one of its event, the revision is approved or was, and a person has confirmed the rule
  -- for the event; a verified calculation has a reviewer, not its calculator where duties are
  -- segregated; identifiers of calculations are unique; and for each calculation at most one
  -- deadline is live.
  pub Steps-IsTraceable : {a b : Db} → Steps env a b → IsTraceable env a → IsTraceable env b
  Steps-IsTraceable done h = h
  Steps-IsTraceable (next s t) h = Steps-IsTraceable t (Step-IsTraceable s h)
