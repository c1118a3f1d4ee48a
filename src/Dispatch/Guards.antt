-- ===== src/Dispatch/Guards.antt =====
-- What a decision on an authorization, and a dispatch, have checked.
use claim_it_all.Prelude.{ℕ, true, false, not, Option, none, some, ◌≡◌, ◌≢◌, arith}
use claim_it_all.Authz.Roles.{ProjectStatus}
use claim_it_all.Authz.Capabilities.{Capability, notice_dispatch_authorize, notice_dispatch_send}
use claim_it_all.Authz.Permissions.{has_capability}
use claim_it_all.Delivery.Types.{AuthorizationStatus}
use claim_it_all.Dispatch.Types.{Package, Authorization, Attempt, AuditAction}
use claim_it_all.Service.Result.{Result, ok, >>=-returns, guard-returns, or_throw-returns}
use claim_it_all.Dispatch.Store.{
  Db, write_audit_log, is_archived, as_capable, load_package, assert_project_mutable,
  find_authorization,
}
use claim_it_all.Service.Context.{ProjectContext, with_capability-ok}
use claim_it_all.Prelude.{sym, ap, ◌∙◌}
use claim_it_all.Prelude.Text.{codes, text_eq, text_eq_iff}
use claim_it_all.Delivery.Types.{AttemptStatus}
use claim_it_all.Delivery.Receipt.{is_past, assert_authorization_dispatchable}
use claim_it_all.Dispatch.Provider.{Provider}
use claim_it_all.Dispatch.Rows.{new_attempt}
use claim_it_all.Dispatch.Send.{
  can_dispatch, is_new_key, message_for, sent_attempt, send_in, send_approved_notice_email,
}
use claim_it_all.Dispatch.Once.{IsSound}
use claim_it_all.Dispatch.Bodies.{found_row, dispatchable_unused, ok_inj}
use claim_it_all.Dispatch.Snapshot.{Surroundings}
use claim_it_all.Dispatch.Authorization.{
  AuthorizeInput, is_open, all_reviewed, is_segregated, authorize_row, authorize_in,
  authorize_dispatch,
}

-- A request that succeeds had the capability, and its body succeeded.
pub as_capable-ok :
    {A : Type 0} (ctx : ProjectContext) (capability : Capability) (body : Db → Result (A × Db))
    (db after : Db) (a : A)
    → as_capable ctx capability body db ≡ (ok a, after)
    → (has_capability ctx.capabilities capability ≡ true) × (body db ≡ ok (a, after))
unfolding as_capable
as_capable-ok ctx capability body db after a e =
    with_capability-ok ctx capability (write_audit_log ctx AuditAction.authz_denied 0) body db after
      a e

pub segregated_ne :
    (env : Surroundings) (pkg : Package) (other user : ℕ)
    → is_segregated env pkg other user ≡ true
    → env.sod_enabled ≡ true
    → pkg.sod_enforced ≡ true
    → other ≢ user
segregated_ne env pkg other user e f g same = ground arith

-- What an authorization rests on.
pub record Authorizes (env : Surroundings) (ctx : ProjectContext) (before granted : Authorization)
    (checks : AuthorizeInput) (pkg : Package) : Type 0 where
  pub is_capable : has_capability ctx.capabilities notice_dispatch_authorize ≡ true
  pub was_open : is_open before.status ≡ true
  pub not_archived : pkg.project_status ≢ ProjectStatus.archived
  pub not_requester :
      env.sod_enabled ≡ true → pkg.sod_enforced ≡ true → before.requested_by_user_id ≢ ctx.user_id
  pub not_creator :
      env.sod_enabled ≡ true
      → pkg.sod_enforced ≡ true
      → before.dispatch_package_snapshot.created_by_user_id ≢ ctx.user_id
  pub reviewed : all_reviewed checks ≡ true
  pub grants : granted ≡ authorize_row env ctx checks before

-- An authorization is granted only to one who may authorize, from an open request of a project that is
-- not archived, with every box of the review ticked, and, where duties are segregated, by neither the
-- one who asked for it nor the one who made its snapshot.
pub authorize_dispatch-Authorizes :
    (env : Surroundings) (ctx : ProjectContext) (package_id authorization_id : ℕ)
    (input : Option AuthorizeInput) (db after : Db) (granted : Authorization)
    → authorize_dispatch env ctx package_id authorization_id input db ≡ (ok granted, after)
    → (checks : AuthorizeInput) × (pkg : Package) × (before : Authorization) × (input ≡ some checks)
      × (load_package ctx package_id db ≡ ok pkg)
      × (find_authorization ctx package_id authorization_id db ≡ ok before)
      × Authorizes env ctx before granted checks pkg
unfolding authorize_in assert_project_mutable
authorize_dispatch-Authorizes env ctx package_id authorization_id input db after granted e =
    let (capable, body) = as_capable-ok ctx notice_dispatch_authorize _ db after granted e in
    let (checks, parsed, body) = or_throw-returns input _ _ body in
    let (pkg, loaded, body) = >>=-returns (load_package ctx package_id db) _ body in
    let (mutable, body) = guard-returns (not (is_archived pkg.project_status)) _ _ body in
    let (before, found, body) =
      >>=-returns (find_authorization ctx package_id authorization_id db) _ body in
    let (open_, body) = guard-returns (is_open before.status) _ _ body in
    let (requester, body) =
      guard-returns (is_segregated env pkg before.requested_by_user_id ctx.user_id) _ _ body in
    let (creator, body) =
      guard-returns
        (is_segregated env pkg before.dispatch_package_snapshot.created_by_user_id ctx.user_id) _ _
        body in
    let (reviewed, body) = guard-returns (all_reviewed checks) _ _ body in
    (
      checks,
      pkg,
      before,
      parsed,
      loaded,
      found,
      record {
        is_capable = capable;
        was_open = open_;
        not_archived = λ f. cc (rw f at mutable);
        not_requester = segregated_ne env pkg before.requested_by_user_id ctx.user_id requester;
        not_creator =
            segregated_ne env pkg before.dispatch_package_snapshot.created_by_user_id ctx.user_id
              creator;
        reviewed = reviewed;
        grants = cc body;
      },
    )

is_dispatched :
    (env : Surroundings) (auth : Authorization)
    → can_dispatch env auth ≡ true
    → (auth.status ≡ AuthorizationStatus.authorized) × (is_past auth.expires_at env.now ≡ false)
unfolding assert_authorization_dispatchable
is_dispatched env auth e = ground arith

-- What a sent notice rests on.
pub record Sends (env : Surroundings) (ctx : ProjectContext) (auth : Authorization)
    (attempt : Attempt) (pkg : Package) (provider : Provider) : Type 0 where
  pub is_capable : has_capability ctx.capabilities notice_dispatch_send ≡ true
  pub not_archived : pkg.project_status ≢ ProjectStatus.archived
  pub was_authorized : auth.status ≡ AuthorizationStatus.authorized
  pub not_expired : is_past auth.expires_at env.now ≡ false
  pub is_email : auth.selected_channel ≡ codes "CONTROLLED_EMAIL"
  pub is_configured : provider.is_configured ≡ true
  pub is_first : attempt.attempt_number ≡ 1
  pub for_authorization : attempt.dispatch_authorization_id ≡ auth.id

-- A notice is sent only by one who may send it, in a project that is not archived, over the configured
-- provider, for an authorization that is granted, has not expired and names the channel; where
-- authorizations are used once, the attempt is the first.
pub send_approved_notice_email-Sends :
    (env : Surroundings) (provider : Option Provider) (ctx : ProjectContext)
    (package_id authorization_id : ℕ) (db after : Db) (attempt : Attempt)
    → IsSound db
    → send_approved_notice_email env provider ctx package_id authorization_id db
      ≡ (ok attempt, after)
    → (pkg : Package) × (auth : Authorization) × (p : Provider) × (load_package ctx package_id db
        ≡ ok pkg)
      × (find_authorization ctx package_id authorization_id db ≡ ok auth)
      × (provider ≡ some p)
      × Sends env ctx auth attempt pkg p
unfolding send_in assert_project_mutable
send_approved_notice_email-Sends env provider ctx package_id authorization_id db after attempt h e =
    let (capable, body) = as_capable-ok ctx notice_dispatch_send _ db after attempt e in
    let (pkg, loaded, body) = >>=-returns (load_package ctx package_id db) _ body in
    let (mutable, body) = guard-returns (not (is_archived pkg.project_status)) _ _ body in
    let (auth, found, body) =
      >>=-returns (find_authorization ctx package_id authorization_id db) _ body in
    let (ready, body) = guard-returns (can_dispatch env auth) _ _ body in
    let (email, body) =
      guard-returns (text_eq auth.selected_channel (codes "CONTROLLED_EMAIL")) _ _ body in
    let (p, given, body) = or_throw-returns provider _ _ body in
    let (configured, body) = guard-returns p.is_configured _ _ body in
    let made = new_attempt env ctx auth p.kind AttemptStatus.prepared none db in
    let (_, body) = guard-returns (is_new_key made.idempotency_key db) _ _ body in
    let result = p.send_message (message_for auth made.idempotency_key) in
    let (authorized, current) = is_dispatched env auth ready in
    let row = found_row ctx package_id authorization_id db auth h found in
    let returned : sent_attempt env ctx auth made result db ≡ attempt =
      ap (λ r. r.0) (ok_inj body) in
    (
      pkg,
      auth,
      p,
      loaded,
      found,
      given,
      record {
        is_capable = capable;
        not_archived = λ f. cc (rw f at mutable);
        was_authorized = authorized;
        not_expired = current;
        is_email = (text_eq_iff auth.selected_channel (codes "CONTROLLED_EMAIL")).0 email;
        is_configured = configured;
        is_first =
            ap (λ a. a.attempt_number) (sym returned)
            ∙ rw (row.1, dispatchable_unused env auth ready) (ground arith);
        for_authorization = ap (λ a. a.dispatch_authorization_id) (sym returned);
      },
    )
