-- ===== src/Authz/Grants.antt =====
-- packages/authz/src/permissions.ts: which capabilities a role has.
use claim_it_all.Prelude.{List, [], ◌∷◌, ◌++◌}
use claim_it_all.Authz.Roles.{TenantRole, ProjectRole}
use claim_it_all.Authz.Capabilities.{
  Capability, tenant_read, tenant_manage, tenant_members_read, tenant_members_manage,
  project_create, project_read, project_update, project_archive, project_members_read,
  project_members_manage, audit_read, document_create, document_read, document_download,
  document_update_metadata, document_add_version, document_archive, document_processing_retry,
  document_processing_view, document_quarantine_view, document_quarantine_manage,
  project_storage_manage, contract_package_create, contract_package_read, contract_package_update,
  contract_document_attach, contract_structure_run, contract_structure_review,
  contract_configuration_submit, contract_configuration_approve, contract_configuration_supersede,
  contract_issue_manage, project_event_create, project_event_read, project_event_update,
  project_event_confirm, project_event_dispute, deadline_rule_assess, deadline_calculate,
  deadline_review, deadline_verify, deadline_track, deadline_assign, deadline_complete,
  deadline_recalculate, project_calendar_manage, project_calendar_approve, warning_policy_manage,
  detection_run_create, detection_run_read, detection_run_cancel, event_suggestion_read,
  event_suggestion_review, event_suggestion_accept, event_suggestion_reject, event_suggestion_merge,
  event_suggestion_request_evidence, detection_rules_manage, detection_evaluation_read,
  reviewer_feedback_read, notice_package_create, notice_package_read, notice_package_update,
  notice_package_withdraw, notice_evidence_assess, notice_evidence_link, notice_question_create,
  notice_question_answer, notice_fact_create, notice_fact_verify, notice_draft_generate,
  notice_draft_edit, notice_draft_review, notice_draft_submit, notice_draft_approve,
  notice_draft_reject, notice_exception_approve, notice_attachment_manage, notice_export_generate,
  notice_export_read, notice_template_manage, notice_template_approve, notice_dispatch_prepare,
  notice_dispatch_request_authorization, notice_dispatch_authorize, notice_dispatch_revoke,
  notice_dispatch_send, notice_dispatch_cancel, notice_dispatch_retry,
  notice_dispatch_record_manual, notice_dispatch_read, dispatch_evidence_upload,
  dispatch_evidence_verify, notice_receipt_assess, notice_receipt_confirm,
  notice_acknowledgment_record, notice_acknowledgment_verify, delivery_provider_manage,
  delivery_webhook_read, delivery_risk_read, connector_account_create, connector_account_read,
  connector_account_update, connector_account_validate, connector_account_approve,
  connector_account_disable, connector_scope_create, connector_scope_approve, connector_sync_run,
  connector_sync_cancel, connector_sync_read, operational_alert_read, operational_alert_acknowledge,
  operational_alert_assign, operational_alert_dismiss, operational_alert_resolve,
  escalation_policy_manage, escalation_policy_approve, operational_task_create,
  operational_task_assign, operational_task_complete, portfolio_read, operations_dashboard_read,
  internal_notification_read, saved_view_manage, tenant_admin_read, tenant_admin_manage,
  tenant_invitation_manage, tenant_limits_manage, tenant_feature_flags_manage,
  support_access_request, support_access_approve, support_access_revoke, support_access_read,
  provider_enablement_manage, provider_enablement_approve, provider_kill_switch_manage,
  pilot_configuration_manage, pilot_readiness_manage, pilot_readiness_activate, backup_run_read,
  restore_test_read, platform_operations_read, incident_manage, audit_export, offboarding_manage,
}

abbrev pub event_deadline_capabilities : List Capability
event_deadline_capabilities =
    project_event_create ∷ project_event_read ∷ project_event_update ∷ project_event_confirm
    ∷ project_event_dispute ∷ deadline_rule_assess ∷ deadline_calculate ∷ deadline_review
    ∷ deadline_verify ∷ deadline_track ∷ deadline_assign ∷ deadline_complete ∷ deadline_recalculate
    ∷ project_calendar_manage ∷ project_calendar_approve ∷ warning_policy_manage
    ∷ detection_run_create ∷ detection_run_read ∷ detection_run_cancel ∷ event_suggestion_read
    ∷ event_suggestion_review ∷ event_suggestion_accept ∷ event_suggestion_reject
    ∷ event_suggestion_merge ∷ event_suggestion_request_evidence ∷ detection_rules_manage
    ∷ detection_evaluation_read ∷ reviewer_feedback_read ∷ notice_package_create
    ∷ notice_package_read ∷ notice_package_update ∷ notice_package_withdraw ∷ notice_evidence_assess
    ∷ notice_evidence_link ∷ notice_question_create ∷ notice_question_answer ∷ notice_fact_create
    ∷ notice_fact_verify ∷ notice_draft_generate ∷ notice_draft_edit ∷ notice_draft_review
    ∷ notice_draft_submit ∷ notice_draft_approve ∷ notice_draft_reject ∷ notice_exception_approve
    ∷ notice_attachment_manage ∷ notice_export_generate ∷ notice_export_read
    ∷ notice_template_manage ∷ notice_template_approve ∷ notice_dispatch_prepare
    ∷ notice_dispatch_request_authorization ∷ notice_dispatch_authorize ∷ notice_dispatch_revoke
    ∷ notice_dispatch_send ∷ notice_dispatch_cancel ∷ notice_dispatch_retry
    ∷ notice_dispatch_record_manual ∷ notice_dispatch_read ∷ dispatch_evidence_upload
    ∷ dispatch_evidence_verify ∷ notice_receipt_assess ∷ notice_receipt_confirm
    ∷ notice_acknowledgment_record ∷ notice_acknowledgment_verify ∷ delivery_provider_manage
    ∷ delivery_webhook_read ∷ delivery_risk_read ∷ connector_account_create ∷ connector_account_read
    ∷ connector_account_update ∷ connector_account_validate ∷ connector_account_approve
    ∷ connector_account_disable ∷ connector_scope_create ∷ connector_scope_approve
    ∷ connector_sync_run ∷ connector_sync_cancel ∷ connector_sync_read ∷ operational_alert_read
    ∷ operational_alert_acknowledge ∷ operational_alert_assign ∷ operational_alert_dismiss
    ∷ operational_alert_resolve ∷ escalation_policy_manage ∷ escalation_policy_approve
    ∷ operational_task_create ∷ operational_task_assign ∷ operational_task_complete ∷ portfolio_read
    ∷ operations_dashboard_read ∷ internal_notification_read ∷ saved_view_manage ∷ []

abbrev pub tenant_platform_admin_capabilities : List Capability
tenant_platform_admin_capabilities =
    tenant_admin_read ∷ tenant_admin_manage ∷ tenant_invitation_manage ∷ tenant_limits_manage
    ∷ tenant_feature_flags_manage ∷ support_access_request ∷ support_access_approve
    ∷ support_access_revoke ∷ support_access_read ∷ provider_enablement_manage
    ∷ provider_enablement_approve ∷ provider_kill_switch_manage ∷ pilot_configuration_manage
    ∷ pilot_readiness_manage ∷ pilot_readiness_activate ∷ backup_run_read ∷ restore_test_read
    ∷ platform_operations_read ∷ incident_manage ∷ audit_export ∷ offboarding_manage ∷ []

abbrev pub document_read_capabilities : List Capability
document_read_capabilities =
    document_read ∷ document_download ∷ document_processing_view ∷ contract_package_read
    ∷ project_event_read ∷ detection_run_read ∷ event_suggestion_read ∷ notice_package_read
    ∷ notice_export_read ∷ notice_dispatch_read ∷ delivery_risk_read ∷ connector_account_read
    ∷ connector_sync_read ∷ operational_alert_read ∷ operations_dashboard_read
    ∷ internal_notification_read ∷ portfolio_read ∷ []

abbrev pub document_contribute_capabilities : List Capability
document_contribute_capabilities =
    document_read_capabilities
    ++ ((document_create ∷ document_add_version ∷ contract_document_attach ∷ []))

abbrev pub contract_review_capabilities : List Capability
contract_review_capabilities = contract_structure_review ∷ contract_issue_manage ∷ []

abbrev pub contract_manage_capabilities : List Capability
contract_manage_capabilities =
    (contract_package_create ∷ contract_package_update ∷ contract_structure_run
      ∷ contract_configuration_submit ∷ [])
    ++ (contract_review_capabilities)

abbrev pub contract_approve_capabilities : List Capability
contract_approve_capabilities =
    contract_configuration_approve ∷ contract_configuration_supersede ∷ []

abbrev pub document_manage_capabilities : List Capability
document_manage_capabilities =
    document_contribute_capabilities
    ++ ((document_update_metadata ∷ document_archive ∷ document_processing_retry ∷ [])
        ++ (contract_manage_capabilities ++ (event_deadline_capabilities)))

abbrev pub document_quarantine_capabilities : List Capability
document_quarantine_capabilities =
    document_quarantine_view ∷ document_quarantine_manage ∷ project_storage_manage ∷ []

unfoldable pub tenant_role_capabilities : TenantRole → List Capability
tenant_role_capabilities TenantRole.tenant_owner =
    (tenant_read ∷ tenant_manage ∷ tenant_members_read ∷ tenant_members_manage ∷ project_create
      ∷ project_read ∷ project_update ∷ project_archive ∷ project_members_read
      ∷ project_members_manage ∷ audit_read ∷ [])
    ++ (document_manage_capabilities
        ++ (document_quarantine_capabilities
            ++ (contract_approve_capabilities ++ (tenant_platform_admin_capabilities))))
tenant_role_capabilities TenantRole.tenant_admin =
    (tenant_read ∷ tenant_manage ∷ tenant_members_read ∷ tenant_members_manage ∷ project_create
      ∷ project_read ∷ project_update ∷ project_archive ∷ project_members_read
      ∷ project_members_manage ∷ audit_read ∷ [])
    ++ (document_manage_capabilities
        ++ (document_quarantine_capabilities
            ++ (contract_approve_capabilities ++ (tenant_platform_admin_capabilities))))
tenant_role_capabilities TenantRole.commercial_manager =
    (tenant_read ∷ tenant_members_read ∷ project_create ∷ project_read ∷ project_update
      ∷ project_members_read ∷ audit_read ∷ [])
    ++ (document_manage_capabilities ++ (contract_approve_capabilities))
tenant_role_capabilities TenantRole.contracts_manager =
    (tenant_read ∷ tenant_members_read ∷ project_create ∷ project_read ∷ project_update
      ∷ project_members_read ∷ audit_read ∷ [])
    ++ (document_manage_capabilities ++ (contract_approve_capabilities))
tenant_role_capabilities TenantRole.project_manager =
    (tenant_read ∷ tenant_members_read ∷ project_create ∷ project_read ∷ project_update
      ∷ project_members_read ∷ project_members_manage ∷ [])
    ++ (document_manage_capabilities)
tenant_role_capabilities TenantRole.reviewer =
    (tenant_read ∷ project_read ∷ project_members_read ∷ [])
    ++ (document_read_capabilities ++ (contract_review_capabilities))
tenant_role_capabilities TenantRole.viewer =
    tenant_read ∷ project_read ∷ document_read ∷ document_download ∷ contract_package_read
    ∷ detection_run_read ∷ event_suggestion_read ∷ detection_evaluation_read
    ∷ reviewer_feedback_read ∷ notice_package_read ∷ notice_export_read ∷ notice_dispatch_read
    ∷ delivery_risk_read ∷ connector_account_read ∷ connector_sync_read ∷ operational_alert_read
    ∷ operations_dashboard_read ∷ internal_notification_read ∷ portfolio_read ∷ []

unfoldable pub project_role_capabilities : ProjectRole → List Capability
project_role_capabilities ProjectRole.project_admin =
    (project_read ∷ project_update ∷ project_archive ∷ project_members_read ∷ project_members_manage
      ∷ [])
    ++ (document_manage_capabilities
        ++ (document_quarantine_capabilities ++ (contract_approve_capabilities)))
project_role_capabilities ProjectRole.commercial_lead =
    (project_read ∷ project_update ∷ project_members_read ∷ [])
    ++ (document_manage_capabilities ++ (contract_approve_capabilities))
project_role_capabilities ProjectRole.contracts_lead =
    (project_read ∷ project_update ∷ project_members_read ∷ [])
    ++ (document_manage_capabilities ++ (contract_approve_capabilities))
project_role_capabilities ProjectRole.project_manager =
    (project_read ∷ project_update ∷ project_members_read ∷ project_members_manage ∷ [])
    ++ (document_manage_capabilities)
project_role_capabilities ProjectRole.reviewer =
    (project_read ∷ project_members_read ∷ [])
    ++ (document_read_capabilities ++ (contract_review_capabilities))
project_role_capabilities ProjectRole.contributor =
    (project_read ∷ project_members_read ∷ []) ++ (document_contribute_capabilities)
project_role_capabilities ProjectRole.viewer =
    project_read ∷ document_read ∷ document_download ∷ contract_package_read ∷ detection_run_read
    ∷ event_suggestion_read ∷ detection_evaluation_read ∷ reviewer_feedback_read
    ∷ notice_package_read ∷ notice_export_read ∷ notice_dispatch_read ∷ delivery_risk_read
    ∷ connector_account_read ∷ connector_sync_read ∷ operational_alert_read
    ∷ operations_dashboard_read ∷ internal_notification_read ∷ []

unfoldable pub mutating_project_capabilities : List Capability
mutating_project_capabilities =
    project_update ∷ project_archive ∷ project_members_manage ∷ document_create
    ∷ document_update_metadata ∷ document_add_version ∷ document_archive ∷ document_processing_retry
    ∷ document_quarantine_manage ∷ project_storage_manage ∷ contract_package_create
    ∷ contract_package_update ∷ contract_document_attach ∷ contract_structure_run
    ∷ contract_structure_review ∷ contract_configuration_submit ∷ contract_configuration_approve
    ∷ contract_configuration_supersede ∷ contract_issue_manage ∷ project_event_create
    ∷ project_event_update ∷ project_event_confirm ∷ project_event_dispute ∷ deadline_rule_assess
    ∷ deadline_calculate ∷ deadline_review ∷ deadline_verify ∷ deadline_track ∷ deadline_assign
    ∷ deadline_complete ∷ deadline_recalculate ∷ project_calendar_manage ∷ project_calendar_approve
    ∷ warning_policy_manage ∷ detection_run_create ∷ detection_run_cancel ∷ event_suggestion_review
    ∷ event_suggestion_accept ∷ event_suggestion_reject ∷ event_suggestion_merge
    ∷ event_suggestion_request_evidence ∷ detection_rules_manage ∷ notice_package_create
    ∷ notice_package_update ∷ notice_package_withdraw ∷ notice_evidence_assess
    ∷ notice_evidence_link ∷ notice_question_create ∷ notice_question_answer ∷ notice_fact_create
    ∷ notice_fact_verify ∷ notice_draft_generate ∷ notice_draft_edit ∷ notice_draft_review
    ∷ notice_draft_submit ∷ notice_draft_approve ∷ notice_draft_reject ∷ notice_exception_approve
    ∷ notice_attachment_manage ∷ notice_export_generate ∷ notice_template_manage
    ∷ notice_template_approve ∷ notice_dispatch_prepare ∷ notice_dispatch_request_authorization
    ∷ notice_dispatch_authorize ∷ notice_dispatch_revoke ∷ notice_dispatch_send
    ∷ notice_dispatch_cancel ∷ notice_dispatch_retry ∷ notice_dispatch_record_manual
    ∷ dispatch_evidence_upload ∷ dispatch_evidence_verify ∷ notice_receipt_assess
    ∷ notice_receipt_confirm ∷ notice_acknowledgment_record ∷ notice_acknowledgment_verify
    ∷ delivery_provider_manage ∷ connector_account_create ∷ connector_account_update
    ∷ connector_account_validate ∷ connector_account_approve ∷ connector_account_disable
    ∷ connector_scope_create ∷ connector_scope_approve ∷ connector_sync_run ∷ connector_sync_cancel
    ∷ operational_alert_acknowledge ∷ operational_alert_assign ∷ operational_alert_dismiss
    ∷ operational_alert_resolve ∷ escalation_policy_manage ∷ escalation_policy_approve
    ∷ operational_task_create ∷ operational_task_assign ∷ operational_task_complete
    ∷ saved_view_manage ∷ tenant_admin_manage ∷ tenant_invitation_manage ∷ support_access_approve
    ∷ provider_enablement_approve ∷ provider_kill_switch_manage ∷ pilot_readiness_activate
    ∷ offboarding_manage ∷ []
