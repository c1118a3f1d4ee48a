-- ===== src/Tracking/Calendars.antt =====
-- `createProjectCalendar`, `createCalendarRevision` and `approveCalendarRevision`.
use claim_it_all.Prelude.{
  ℕ, ◌+◌, Bool, true, false, not, ◌&&◌, Option, none, some, List, [], ◌∷◌, ◌++◌, find, or_else,
  update_where, ◌==◌,
}
use claim_it_all.Authz.Capabilities.{project_calendar_manage, project_calendar_approve}
use claim_it_all.Service.Result.{
  not_found, forbidden, conflict, validation_error, record_not_found, Result, ok, or_throw, guard,
  ◌>>=◌, ◌>>◌,
}
use claim_it_all.Service.Context.{ProjectContext, in_scope}
use claim_it_all.Service.Rows.{max_where}
use claim_it_all.Tracking.Types.{
  CalendarSource, CalendarStatus, CreateProjectCalendar, ProjectCalendar, CreateCalendarRevision,
  RevisionStatus, ProjectCalendarRevision, AuditAction,
}
use claim_it_all.Tracking.Store.{Db, Surroundings, write_audit_log, as_capable, date_column}

abbrev pub new_calendar : ProjectContext → CreateProjectCalendar → ℕ → ProjectCalendar
new_calendar ctx input id = record {
  id = id;
  tenant_id = ctx.tenant_id;
  project_id = ctx.project_id;
  name = input.name;
  timezone = input.timezone;
  weekend_days = some input.weekend_days;
  source = or_else input.source CalendarSource.project_policy;
  status = CalendarStatus.draft;
  current_revision_id = none;
  created_by_user_id = ctx.user_id;
  approved_by_user_id = none;
}

unfoldable pub create_calendar_in :
    ProjectContext → Option CreateProjectCalendar → Db → Result (ProjectCalendar × Db)
create_calendar_in ctx input db = do
  parsed ← or_throw input validation_error
  let created = new_calendar ctx parsed db.next_id
  ok (
    created,
    write_audit_log ctx AuditAction.calendar_created created.id
        (record db { next_id = db.next_id + 1; calendars = db.calendars ++ created ∷ [] }),
  )

abbrev pub create_project_calendar :
    ProjectContext → Option CreateProjectCalendar → Db → Result ProjectCalendar × Db
create_project_calendar ctx input =
    as_capable ctx project_calendar_manage (create_calendar_in ctx input)

abbrev pub is_calendar : ProjectContext → ℕ → ProjectCalendar → Bool
is_calendar ctx id c = c.id == id && in_scope ctx c.tenant_id c.project_id

abbrev pub next_revision_number : ℕ → List ProjectCalendarRevision → ℕ
next_revision_number calendar_id revisions =
    max_where (λ (r : ProjectCalendarRevision). r.project_calendar_id == calendar_id)
      (λ r. r.revision_number) revisions
    + 1

abbrev pub new_revision :
    ProjectContext
    → ProjectCalendar
    → CreateCalendarRevision
    → Option ℕ
    → Option ℕ
    → ℕ
    → ℕ
    → ProjectCalendarRevision
new_revision ctx calendar input from to number id = record {
  id = id;
  tenant_id = ctx.tenant_id;
  project_id = ctx.project_id;
  project_calendar_id = calendar.id;
  revision_number = number;
  timezone = or_else input.timezone calendar.timezone;
  weekend_days = some input.weekend_days;
  holiday_dates = some input.holidays;
  special_working_days = some input.special_working_days;
  effective_from = from;
  effective_to = to;
  status = RevisionStatus.draft;
  approved_by_user_id = none;
  approved_at = none;
}

unfoldable pub create_revision_in :
    Surroundings
    → ProjectContext
    → ℕ
    → Option CreateCalendarRevision
    → Db
    → Result (ProjectCalendarRevision × Db)
create_revision_in env ctx calendar_id input db = do
  parsed ← or_throw input validation_error
  calendar ← or_throw (find (is_calendar ctx calendar_id) db.calendars) not_found
  from ← date_column env parsed.effective_from
  to ← date_column env parsed.effective_to
  let revision =
      new_revision ctx calendar parsed from to (next_revision_number calendar_id db.revisions)
        db.next_id
  ok (
    revision,
    write_audit_log ctx AuditAction.calendar_revision_created revision.id
        (record db { next_id = db.next_id + 1; revisions = db.revisions ++ revision ∷ [] }),
  )

abbrev pub create_calendar_revision :
    Surroundings
    → ProjectContext
    → ℕ
    → Option CreateCalendarRevision
    → Db
    → Result ProjectCalendarRevision × Db
create_calendar_revision env ctx calendar_id input =
    as_capable ctx project_calendar_manage (create_revision_in env ctx calendar_id input)

abbrev pub is_revision_of : ProjectContext → ℕ → ℕ → ProjectCalendarRevision → Bool
is_revision_of ctx calendar_id revision_id r =
    r.id == revision_id
    && r.project_calendar_id == calendar_id
    && in_scope ctx r.tenant_id r.project_id

-- `DRAFT` or `IN_REVIEW`
abbrev pub can_approve : RevisionStatus → Bool
can_approve RevisionStatus.draft = true
can_approve RevisionStatus.in_review = true
can_approve _ = false

abbrev pub supersede_revision : ProjectCalendarRevision → ProjectCalendarRevision
supersede_revision r = record r { status = RevisionStatus.superseded }

-- `if (calendar.currentRevisionId)`; a foreign key says that the row is there.
abbrev pub supersede_current :
    Option ℕ → List ProjectCalendarRevision → List ProjectCalendarRevision
supersede_current none revisions = revisions
supersede_current (some id) revisions =
    update_where (λ (r : ProjectCalendarRevision). r.id == id) supersede_revision revisions

abbrev pub approve_revision : ProjectContext → ℕ → ProjectCalendarRevision → ProjectCalendarRevision
approve_revision ctx now r = record r {
  status = RevisionStatus.approved;
  approved_by_user_id = some ctx.user_id;
  approved_at = some now;
}

abbrev pub approve_calendar :
    ProjectContext → ProjectCalendarRevision → ProjectCalendar → ProjectCalendar
approve_calendar ctx revision c = record c {
  status = CalendarStatus.approved;
  current_revision_id = some revision.id;
  approved_by_user_id = some ctx.user_id;
  weekend_days = revision.weekend_days;
}

abbrev pub after_approval :
    ProjectContext → ℕ → ℕ → ProjectCalendar → ProjectCalendarRevision → Db → Db
after_approval ctx now calendar_id calendar revision db =
    write_audit_log ctx AuditAction.calendar_revision_approved revision.id (record db {
      revisions =
          update_where (λ (r : ProjectCalendarRevision). r.id == revision.id)
            (approve_revision ctx now)
            (supersede_current calendar.current_revision_id db.revisions);
      calendars =
          update_where (λ (c : ProjectCalendar). c.id == calendar_id)
            (approve_calendar ctx revision) db.calendars;
    })

unfoldable pub approve_revision_in :
    Surroundings → ℕ → ProjectContext → ℕ → ℕ → Db → Result (ProjectCalendarRevision × Db)
approve_revision_in env now ctx calendar_id revision_id db = do
  revision ← or_throw (find (is_revision_of ctx calendar_id revision_id) db.revisions) not_found
  guard (can_approve revision.status) conflict
  calendar ← or_throw (find (is_calendar ctx calendar_id) db.calendars) record_not_found
  guard (not (env.calendar_segregated && calendar.created_by_user_id == ctx.user_id)) forbidden
  ok (approve_revision ctx now revision, after_approval ctx now calendar_id calendar revision db)

abbrev pub approve_calendar_revision :
    Surroundings → ℕ → ProjectContext → ℕ → ℕ → Db → Result ProjectCalendarRevision × Db
approve_calendar_revision env now ctx calendar_id revision_id =
    as_capable ctx project_calendar_approve
      (approve_revision_in env now ctx calendar_id revision_id)
