-- ===== src/Authz/Capabilities.antt =====
-- packages/authz/src/capabilities.ts: the capabilities, and `===` on them.
use claim_it_all.Prelude.{
  ℕ, zero, suc, Bool, true, Option, none, some, List, [], ◌∷◌, ◌≡◌, ◌↔◌, refl, sym, ap, ◌∙◌, ◌==◌,
  ==_iff, some_inj,
}

-- `a.b` is written `a_b`.
pub data Capability : Type 0 where
  tenant_read tenant_manage tenant_members_read : Capability
  tenant_members_manage project_create project_read : Capability
  project_update project_archive project_members_read : Capability
  project_members_manage audit_read document_create : Capability
  document_read document_download document_update_metadata : Capability
  document_add_version document_archive document_processing_retry : Capability
  document_processing_view document_quarantine_view document_quarantine_manage : Capability
  project_storage_manage contract_package_create contract_package_read : Capability
  contract_package_update contract_document_attach contract_structure_run : Capability
  contract_structure_review contract_configuration_submit contract_configuration_approve :
      Capability
  contract_configuration_supersede contract_issue_manage project_event_create : Capability
  project_event_read project_event_update project_event_confirm : Capability
  project_event_dispute deadline_rule_assess deadline_calculate : Capability
  deadline_review deadline_verify deadline_track : Capability
  deadline_assign deadline_complete deadline_recalculate : Capability
  project_calendar_manage project_calendar_approve warning_policy_manage : Capability
  detection_run_create detection_run_read detection_run_cancel : Capability
  event_suggestion_read event_suggestion_review event_suggestion_accept : Capability
  event_suggestion_reject event_suggestion_merge event_suggestion_request_evidence : Capability
  detection_rules_manage detection_evaluation_read reviewer_feedback_read : Capability
  notice_package_create notice_package_read notice_package_update : Capability
  notice_package_withdraw notice_evidence_assess notice_evidence_link : Capability
  notice_question_create notice_question_answer notice_fact_create : Capability
  notice_fact_verify notice_draft_generate notice_draft_edit : Capability
  notice_draft_review notice_draft_submit notice_draft_approve : Capability
  notice_draft_reject notice_exception_approve notice_attachment_manage : Capability
  notice_export_generate notice_export_read notice_template_manage : Capability
  notice_template_approve notice_dispatch_prepare notice_dispatch_request_authorization : Capability
  notice_dispatch_authorize notice_dispatch_revoke notice_dispatch_send : Capability
  notice_dispatch_cancel notice_dispatch_retry notice_dispatch_record_manual : Capability
  notice_dispatch_read dispatch_evidence_upload dispatch_evidence_verify : Capability
  notice_receipt_assess notice_receipt_confirm notice_acknowledgment_record : Capability
  notice_acknowledgment_verify delivery_provider_manage delivery_webhook_read : Capability
  delivery_risk_read connector_account_create connector_account_read : Capability
  connector_account_update connector_account_validate connector_account_approve : Capability
  connector_account_disable connector_scope_create connector_scope_approve : Capability
  connector_sync_run connector_sync_cancel connector_sync_read : Capability
  operational_alert_read operational_alert_acknowledge operational_alert_assign : Capability
  operational_alert_dismiss operational_alert_resolve escalation_policy_manage : Capability
  escalation_policy_approve operational_task_create operational_task_assign : Capability
  operational_task_complete portfolio_read operations_dashboard_read : Capability
  internal_notification_read saved_view_manage tenant_admin_read : Capability
  tenant_admin_manage tenant_invitation_manage tenant_limits_manage : Capability
  tenant_feature_flags_manage support_access_request support_access_approve : Capability
  support_access_revoke support_access_read provider_enablement_manage : Capability
  provider_enablement_approve provider_kill_switch_manage pilot_configuration_manage : Capability
  pilot_readiness_manage pilot_readiness_activate backup_run_read : Capability
  restore_test_read platform_operations_read incident_manage : Capability
  audit_export offboarding_manage : Capability

-- The place in `CAPABILITIES`.
abbrev index : Capability → ℕ
index tenant_read = 0
index tenant_manage = 1
index tenant_members_read = 2
index tenant_members_manage = 3
index project_create = 4
index project_read = 5
index project_update = 6
index project_archive = 7
index project_members_read = 8
index project_members_manage = 9
index audit_read = 10
index document_create = 11
index document_read = 12
index document_download = 13
index document_update_metadata = 14
index document_add_version = 15
index document_archive = 16
index document_processing_retry = 17
index document_processing_view = 18
index document_quarantine_view = 19
index document_quarantine_manage = 20
index project_storage_manage = 21
index contract_package_create = 22
index contract_package_read = 23
index contract_package_update = 24
index contract_document_attach = 25
index contract_structure_run = 26
index contract_structure_review = 27
index contract_configuration_submit = 28
index contract_configuration_approve = 29
index contract_configuration_supersede = 30
index contract_issue_manage = 31
index project_event_create = 32
index project_event_read = 33
index project_event_update = 34
index project_event_confirm = 35
index project_event_dispute = 36
index deadline_rule_assess = 37
index deadline_calculate = 38
index deadline_review = 39
index deadline_verify = 40
index deadline_track = 41
index deadline_assign = 42
index deadline_complete = 43
index deadline_recalculate = 44
index project_calendar_manage = 45
index project_calendar_approve = 46
index warning_policy_manage = 47
index detection_run_create = 48
index detection_run_read = 49
index detection_run_cancel = 50
index event_suggestion_read = 51
index event_suggestion_review = 52
index event_suggestion_accept = 53
index event_suggestion_reject = 54
index event_suggestion_merge = 55
index event_suggestion_request_evidence = 56
index detection_rules_manage = 57
index detection_evaluation_read = 58
index reviewer_feedback_read = 59
index notice_package_create = 60
index notice_package_read = 61
index notice_package_update = 62
index notice_package_withdraw = 63
index notice_evidence_assess = 64
index notice_evidence_link = 65
index notice_question_create = 66
index notice_question_answer = 67
index notice_fact_create = 68
index notice_fact_verify = 69
index notice_draft_generate = 70
index notice_draft_edit = 71
index notice_draft_review = 72
index notice_draft_submit = 73
index notice_draft_approve = 74
index notice_draft_reject = 75
index notice_exception_approve = 76
index notice_attachment_manage = 77
index notice_export_generate = 78
index notice_export_read = 79
index notice_template_manage = 80
index notice_template_approve = 81
index notice_dispatch_prepare = 82
index notice_dispatch_request_authorization = 83
index notice_dispatch_authorize = 84
index notice_dispatch_revoke = 85
index notice_dispatch_send = 86
index notice_dispatch_cancel = 87
index notice_dispatch_retry = 88
index notice_dispatch_record_manual = 89
index notice_dispatch_read = 90
index dispatch_evidence_upload = 91
index dispatch_evidence_verify = 92
index notice_receipt_assess = 93
index notice_receipt_confirm = 94
index notice_acknowledgment_record = 95
index notice_acknowledgment_verify = 96
index delivery_provider_manage = 97
index delivery_webhook_read = 98
index delivery_risk_read = 99
index connector_account_create = 100
index connector_account_read = 101
index connector_account_update = 102
index connector_account_validate = 103
index connector_account_approve = 104
index connector_account_disable = 105
index connector_scope_create = 106
index connector_scope_approve = 107
index connector_sync_run = 108
index connector_sync_cancel = 109
index connector_sync_read = 110
index operational_alert_read = 111
index operational_alert_acknowledge = 112
index operational_alert_assign = 113
index operational_alert_dismiss = 114
index operational_alert_resolve = 115
index escalation_policy_manage = 116
index escalation_policy_approve = 117
index operational_task_create = 118
index operational_task_assign = 119
index operational_task_complete = 120
index portfolio_read = 121
index operations_dashboard_read = 122
index internal_notification_read = 123
index saved_view_manage = 124
index tenant_admin_read = 125
index tenant_admin_manage = 126
index tenant_invitation_manage = 127
index tenant_limits_manage = 128
index tenant_feature_flags_manage = 129
index support_access_request = 130
index support_access_approve = 131
index support_access_revoke = 132
index support_access_read = 133
index provider_enablement_manage = 134
index provider_enablement_approve = 135
index provider_kill_switch_manage = 136
index pilot_configuration_manage = 137
index pilot_readiness_manage = 138
index pilot_readiness_activate = 139
index backup_run_read = 140
index restore_test_read = 141
index platform_operations_read = 142
index incident_manage = 143
index audit_export = 144
index offboarding_manage = 145

abbrev pub capabilities : List Capability
capabilities =
    tenant_read ∷ tenant_manage ∷ tenant_members_read ∷ tenant_members_manage ∷ project_create
    ∷ project_read ∷ project_update ∷ project_archive ∷ project_members_read
    ∷ project_members_manage ∷ audit_read ∷ document_create ∷ document_read ∷ document_download
    ∷ document_update_metadata ∷ document_add_version ∷ document_archive ∷ document_processing_retry
    ∷ document_processing_view ∷ document_quarantine_view ∷ document_quarantine_manage
    ∷ project_storage_manage ∷ contract_package_create ∷ contract_package_read
    ∷ contract_package_update ∷ contract_document_attach ∷ contract_structure_run
    ∷ contract_structure_review ∷ contract_configuration_submit ∷ contract_configuration_approve
    ∷ contract_configuration_supersede ∷ contract_issue_manage ∷ project_event_create
    ∷ project_event_read ∷ project_event_update ∷ project_event_confirm ∷ project_event_dispute
    ∷ deadline_rule_assess ∷ deadline_calculate ∷ deadline_review ∷ deadline_verify ∷ deadline_track
    ∷ deadline_assign ∷ deadline_complete ∷ deadline_recalculate ∷ project_calendar_manage
    ∷ project_calendar_approve ∷ warning_policy_manage ∷ detection_run_create ∷ detection_run_read
    ∷ detection_run_cancel ∷ event_suggestion_read ∷ event_suggestion_review
    ∷ event_suggestion_accept ∷ event_suggestion_reject ∷ event_suggestion_merge
    ∷ event_suggestion_request_evidence ∷ detection_rules_manage ∷ detection_evaluation_read
    ∷ reviewer_feedback_read ∷ notice_package_create ∷ notice_package_read ∷ notice_package_update
    ∷ notice_package_withdraw ∷ notice_evidence_assess ∷ notice_evidence_link
    ∷ notice_question_create ∷ notice_question_answer ∷ notice_fact_create ∷ notice_fact_verify
    ∷ notice_draft_generate ∷ notice_draft_edit ∷ notice_draft_review ∷ notice_draft_submit
    ∷ notice_draft_approve ∷ notice_draft_reject ∷ notice_exception_approve
    ∷ notice_attachment_manage ∷ notice_export_generate ∷ notice_export_read
    ∷ notice_template_manage ∷ notice_template_approve ∷ notice_dispatch_prepare
    ∷ notice_dispatch_request_authorization ∷ notice_dispatch_authorize ∷ notice_dispatch_revoke
    ∷ notice_dispatch_send ∷ notice_dispatch_cancel ∷ notice_dispatch_retry
    ∷ notice_dispatch_record_manual ∷ notice_dispatch_read ∷ dispatch_evidence_upload
    ∷ dispatch_evidence_verify ∷ notice_receipt_assess ∷ notice_receipt_confirm
    ∷ notice_acknowledgment_record ∷ notice_acknowledgment_verify ∷ delivery_provider_manage
    ∷ delivery_webhook_read ∷ delivery_risk_read ∷ connector_account_create ∷ connector_account_read
    ∷ connector_account_update ∷ connector_account_validate ∷ connector_account_approve
    ∷ connector_account_disable ∷ connector_scope_create ∷ connector_scope_approve
    ∷ connector_sync_run ∷ connector_sync_cancel ∷ connector_sync_read ∷ operational_alert_read
    ∷ operational_alert_acknowledge ∷ operational_alert_assign ∷ operational_alert_dismiss
    ∷ operational_alert_resolve ∷ escalation_policy_manage ∷ escalation_policy_approve
    ∷ operational_task_create ∷ operational_task_assign ∷ operational_task_complete ∷ portfolio_read
    ∷ operations_dashboard_read ∷ internal_notification_read ∷ saved_view_manage ∷ tenant_admin_read
    ∷ tenant_admin_manage ∷ tenant_invitation_manage ∷ tenant_limits_manage
    ∷ tenant_feature_flags_manage ∷ support_access_request ∷ support_access_approve
    ∷ support_access_revoke ∷ support_access_read ∷ provider_enablement_manage
    ∷ provider_enablement_approve ∷ provider_kill_switch_manage ∷ pilot_configuration_manage
    ∷ pilot_readiness_manage ∷ pilot_readiness_activate ∷ backup_run_read ∷ restore_test_read
    ∷ platform_operations_read ∷ incident_manage ∷ audit_export ∷ offboarding_manage ∷ []

abbrev nth : List Capability → ℕ → Option Capability
nth [] n = none
nth (c ∷ cs) zero = some c
nth (c ∷ cs) (suc n) = nth cs n

nth-index : (c : Capability) → nth capabilities (index c) ≡ some c
nth-index tenant_read = refl
nth-index _ = refl

unfoldable pub is_same : Capability → Capability → Bool
is_same a b = index a == index b

pub is_same_iff : (a b : Capability) → (is_same a b ≡ true) ↔ (a ≡ b)
unfolding is_same
is_same_iff a b = (
  λ e.
      some_inj (
        sym (nth-index a) ∙ ap (nth capabilities) ((==_iff (index a) (index b)).0 e) ∙ nth-index b),
  λ e. (==_iff (index a) (index b)).1 (ap index e),
)
