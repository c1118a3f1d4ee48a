-- ===== src/Tracking/Rules.antt =====
-- `confirmRuleApplicability`: which approved rule an event falls under.
use claim_it_all.Prelude.{
  ℕ, ◌+◌, Bool, true, false, not, ◌&&◌, Option, some, List, [], ◌∷◌, ◌++◌, any, find, ◌==◌,
}
use claim_it_all.Prelude.Text.{Text}
use claim_it_all.Authz.Capabilities.{deadline_rule_assess}
use claim_it_all.Service.Result.{
  not_found, conflict, validation_error, Result, ok, or_throw, guard, ◌>>=◌, ◌>>◌,
}
use claim_it_all.Service.Context.{ProjectContext, in_scope}
use claim_it_all.Tracking.Types.{
  ConfirmationStatus, RuleSnapshot, ConfigurationRevision, ApplicabilityStatus, AssessmentSource,
  EventRuleAssessment, AuditAction,
}
use claim_it_all.Tracking.Store.{Db, write_audit_log, as_capable, load_project_event}

abbrev pub is_for_analysis : ConfirmationStatus → Bool
is_for_analysis ConfirmationStatus.confirmed_for_deadline_analysis = true
is_for_analysis _ = false

-- `configurationRevision: { isActiveApproved: true, status: 'APPROVED' }`
abbrev pub is_configured : List ConfigurationRevision → ℕ → Bool
is_configured configurations id =
    any (λ (c : ConfigurationRevision). c.id == id && c.is_active_approved && c.is_approved)
      configurations

abbrev pub is_snapshot : ProjectContext → ℕ → RuleSnapshot → Bool
is_snapshot ctx id s = s.id == id && in_scope ctx s.tenant_id s.project_id

abbrev pub is_applicable : ApplicabilityStatus → Bool
is_applicable ApplicabilityStatus.applicable = true
is_applicable _ = false

abbrev pub is_human : AssessmentSource → Bool
is_human AssessmentSource.human_confirmed = true
is_human _ = false

-- `APPLICABLE`, as a person confirmed.
abbrev pub is_confirmed : EventRuleAssessment → Bool
is_confirmed a = is_applicable a.applicability_status && is_human a.assessment_source

abbrev pub new_assessment : ProjectContext → ℕ → ℕ → Text → RuleSnapshot → ℕ → EventRuleAssessment
new_assessment ctx now event_id rationale snapshot id = record {
  id = id;
  tenant_id = ctx.tenant_id;
  project_id = ctx.project_id;
  project_event_id = event_id;
  contract_package_id = snapshot.contract_package_id;
  configuration_revision_id = snapshot.configuration_revision_id;
  approved_rule_snapshot_id = snapshot.id;
  applicability_status = ApplicabilityStatus.applicable;
  assessment_source = AssessmentSource.human_confirmed;
  reviewer_user_id = some ctx.user_id;
  reviewed_at = some now;
  rationale = some rationale;
}

-- `tx.approvedNoticeRuleSnapshot.findFirst`
abbrev pub is_configured_snapshot : ProjectContext → ℕ → Db → RuleSnapshot → Bool
is_configured_snapshot ctx id db s =
    is_snapshot ctx id s && is_configured db.configurations s.configuration_revision_id

-- `tx.eventRuleAssessment.findFirst`
abbrev pub is_confirmed_for : ℕ → ℕ → EventRuleAssessment → Bool
is_confirmed_for event_id snapshot_id a =
    a.project_event_id == event_id && a.approved_rule_snapshot_id == snapshot_id && is_confirmed a

-- The input is the snapshot's identifier and the rationale.
unfoldable pub confirm_rule_in :
    ℕ → ProjectContext → ℕ → Option (ℕ × Text) → Db → Result (EventRuleAssessment × Db)
confirm_rule_in now ctx event_id input db = do
  parsed ← or_throw input validation_error
  event ← load_project_event ctx event_id db
  guard (is_for_analysis event.confirmation_status) validation_error
  snapshot ← or_throw (find (is_configured_snapshot ctx parsed.0 db) db.snapshots) not_found
  guard (not (any (is_confirmed_for event_id snapshot.id) db.assessments)) conflict
  let assessment = new_assessment ctx now event_id parsed.1 snapshot db.next_id
  ok (
    assessment,
    write_audit_log ctx AuditAction.assessment_confirmed assessment.id
        (record db { next_id = db.next_id + 1; assessments = db.assessments ++ assessment ∷ [] }),
  )

abbrev pub confirm_rule_applicability :
    ℕ → ProjectContext → ℕ → Option (ℕ × Text) → Db → Result EventRuleAssessment × Db
confirm_rule_applicability now ctx event_id input =
    as_capable ctx deadline_rule_assess (confirm_rule_in now ctx event_id input)
