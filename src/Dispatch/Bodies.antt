-- ===== src/Dispatch/Bodies.antt =====
-- Each request of the dispatch service keeps authorizations used once.
use claim_it_all.Prelude.{
  ℕ, ◌+◌, true, not, Option, none, some, ◌++◌, ◌≡◌, refl, ap, arith, find, length, map, find-All,
  ◌==◌,
}
use mathlib.Core.Path.{subst}
use claim_it_all.Prelude.Text.{Text, codes, text_eq, starts_with}
use claim_it_all.Delivery.Types.{AuthorizationStatus, AttemptStatus}
use claim_it_all.Delivery.Status.{
  is_future_channel, is_operational_channel, aggregate_recipient_status,
}
use claim_it_all.Delivery.Validate.{validate_cover_message, validate_recipients_for_dispatch}
use claim_it_all.Delivery.Receipt.{assert_authorization_dispatchable}
use claim_it_all.Dispatch.Types.{
  ManualDispatch, PackageStatus, Snapshot, Authorization, Attempt, Recipient, AuditAction,
}
use claim_it_all.Service.Result.{Error, ok, or_throw, >>=-returns, guard-returns, or_throw-returns}
use claim_it_all.Dispatch.Store.{
  Db, load_package, assert_project_mutable, find_authorization, is_authorization,
}
use claim_it_all.Service.Context.{ProjectContext}
use claim_it_all.Dispatch.Snapshot.{
  Surroundings, is_prep_status, select_export_bundle, checked, new_snapshot, CreateSnapshot,
  create_snapshot_in,
}
use claim_it_all.Dispatch.Authorization.{
  AuthorizeInput, is_open, is_authorized, is_segregated, all_reviewed, authorize_row, reject_row,
  revoke_row, decide, request_in, authorize_in, reject_in, revoke_in, find_snapshot,
}
use claim_it_all.Dispatch.Provider.{Provider, ProviderSendResult}
use claim_it_all.Dispatch.Rows.{new_attempt, sent_rows, manual_rows, recipients_of}
use claim_it_all.Dispatch.Send.{
  can_dispatch, is_new_key, complete_attempt, await_evidence, message_for, after_send, after_manual,
  send_in, record_manual_in,
}
use claim_it_all.Dispatch.Once.{
  uses, IsUsedOnce, IsSound, Sound-grow, Sound-request, Sound-decide, Sound-dispatch,
}

pub ok_inj : {A : Type 0} {x y : A} → ok x ≡ ok y → x ≡ y
ok_inj e = cc

-- The database that a body leaves.
pub left_by : {A : Type 0} {x y : A × Db} → ok x ≡ ok y → IsSound x.1 → IsSound y.1
left_by e h = subst IsSound (ap (λ p. p.1) (ok_inj e)) h

pub found_row :
    (ctx : ProjectContext) (pkg_id id : ℕ) (db : Db) (auth : Authorization)
    → IsSound db
    → find_authorization ctx pkg_id id db ≡ ok auth
    → IsUsedOnce db.next_id db.attempts auth
unfolding find_authorization
found_row ctx pkg_id id db auth h e =
    (find-All (IsUsedOnce db.next_id db.attempts) (is_authorization ctx pkg_id id) db.authorizations
      auth (thrown (find (is_authorization ctx pkg_id id) db.authorizations) e) h.rows).0
  where
    thrown : (o : Option Authorization) → or_throw o Error.not_found ≡ ok auth → o ≡ some auth
    thrown none f = cc
    thrown (some a) f = cc

open_unused : (s : AuthorizationStatus) → is_open s ≡ true → uses s ≡ 0
open_unused AuthorizationStatus.used e = cc
open_unused _ e = refl

authorized_unused : (s : AuthorizationStatus) → is_authorized s ≡ true → uses s ≡ 0
authorized_unused AuthorizationStatus.used e = cc
authorized_unused _ e = refl

pub dispatchable_unused :
    (env : Surroundings) (auth : Authorization)
    → can_dispatch env auth ≡ true
    → uses auth.status ≡ 0
unfolding assert_authorization_dispatchable
dispatchable_unused env auth e = ground arith

decide-IsSound :
    (ctx : ProjectContext) (pkg_id : ℕ) (auth : Authorization)
    (change : Authorization → Authorization) (status : PackageStatus) (action : AuditAction)
    (db : Db)
    → ((a : Authorization) → (change a).id ≡ a.id)
    → ((a : Authorization) → uses (change a).status ≡ 0)
    → IsUsedOnce db.next_id db.attempts auth
    → uses auth.status ≡ 0
    → IsSound db
    → IsSound (decide ctx pkg_id auth change status action db)
decide-IsSound ctx pkg_id auth change status action db same_id keeps row unused h =
    Sound-decide db.next_id db.authorizations db.attempts h auth row unused change same_id keeps

after_send-IsSound :
    (env : Surroundings) (ctx : ProjectContext) (auth : Authorization) (attempt : Attempt)
    (result : ProviderSendResult) (db : Db)
    → attempt.dispatch_authorization_id ≡ auth.id
    → IsUsedOnce db.next_id db.attempts auth
    → uses auth.status ≡ 0
    → IsSound db
    → IsSound (after_send env ctx auth attempt result db)
after_send-IsSound env ctx auth attempt result db owner row unused h =
    let rows = sent_rows ctx auth attempt.id result result.recipients (db.next_id + 1) in
    let status = aggregate_recipient_status (map (λ (r : Recipient). r.status) rows) in
    Sound-dispatch db.next_id db.authorizations db.attempts h auth row unused
      (db.next_id + 1 + length rows) attempt (λ a. a.id == attempt.id)
      (complete_attempt env result status) (λ a. record a { status = AuthorizationStatus.used })
      (omega arith) owner (λ _. refl) (λ _. refl) (λ _. refl)

after_manual-IsSound :
    (ctx : ProjectContext) (auth : Authorization) (attempt : Attempt) (input : ManualDispatch)
    (db : Db)
    → attempt.dispatch_authorization_id ≡ auth.id
    → IsUsedOnce db.next_id db.attempts auth
    → uses auth.status ≡ 0
    → IsSound db
    → IsSound (after_manual ctx auth attempt input db)
after_manual-IsSound ctx auth attempt input db owner row unused h =
    let rows = manual_rows ctx attempt.id input.method (recipients_of auth) (db.next_id + 1) in
    Sound-dispatch db.next_id db.authorizations db.attempts h auth row unused
      (db.next_id + 1 + length rows + 1) attempt (λ a. a.id == attempt.id) await_evidence
      (λ a. record a { status = AuthorizationStatus.used }) (omega arith) owner (λ _. refl)
      (λ _. refl) (λ _. refl)

pub snapshot-IsSound :
    (env : Surroundings) (ctx : ProjectContext) (pkg_id : ℕ) (input : Option (CreateSnapshot env))
    (db : Db) (a : Snapshot × Text) (after : Db)
    → IsSound db
    → create_snapshot_in env ctx pkg_id input db ≡ ok (a, after)
    → IsSound after
unfolding create_snapshot_in
snapshot-IsSound env ctx pkg_id input db a after h body =
    let (parsed, _, body) = or_throw-returns input _ _ body in
    let (pkg, _, body) = >>=-returns (load_package ctx pkg_id db) _ body in
    let (_, _, body) = >>=-returns (assert_project_mutable pkg.project_status) _ body in
    let (_, body) = guard-returns (is_prep_status pkg.status) _ _ body in
    let (revision, _, body) = or_throw-returns pkg.active_approved_revision _ _ body in
    let (_, body) = guard-returns (text_eq revision.status (codes "APPROVED")) _ _ body in
    let (_, body) = guard-returns (not (is_future_channel parsed.channel)) _ _ body in
    let (_, body) = guard-returns (is_operational_channel parsed.channel) _ _ body in
    let (bundle, _, body) =
      or_throw-returns (select_export_bundle pkg.export_bundles revision.id) _ _ body in
    let (cover, _, body) =
      >>=-returns
        (checked
          (validate_cover_message env.sha256_hex parsed.subject parsed.plain_text parsed.html_safe))
        _ body in
    let s = new_snapshot env ctx pkg revision bundle cover parsed.channel db.next_id in
    let (_, _, body) =
      >>=-returns
        (checked
          (validate_recipients_for_dispatch (s.recipient_snapshot ++ s.copied_recipient_snapshot)))
        _ body in
    left_by body
      (Sound-grow db.next_id db.authorizations db.attempts h (db.next_id + 1) (omega arith))

pub request-IsSound :
    (ctx : ProjectContext) (pkg_id id : ℕ) (input : Option (Option Text)) (db : Db)
    (a : Authorization) (after : Db)
    → IsSound db
    → request_in ctx pkg_id id input db ≡ ok (a, after)
    → IsSound after
unfolding request_in
request-IsSound ctx pkg_id id input db a after h body =
    let (rationale, _, body) = or_throw-returns input _ _ body in
    let (pkg, _, body) = >>=-returns (load_package ctx pkg_id db) _ body in
    let (_, _, body) = >>=-returns (assert_project_mutable pkg.project_status) _ body in
    let (s, _, body) = >>=-returns (find_snapshot ctx pkg_id id db) _ body in
    left_by body (Sound-request db.next_id db.authorizations db.attempts h _ refl refl)

pub authorize-IsSound :
    (env : Surroundings) (ctx : ProjectContext) (pkg_id id : ℕ) (input : Option AuthorizeInput)
    (db : Db) (a : Authorization) (after : Db)
    → IsSound db
    → authorize_in env ctx pkg_id id input db ≡ ok (a, after)
    → IsSound after
unfolding authorize_in
authorize-IsSound env ctx pkg_id id input db a after h body =
    let (checks, _, body) = or_throw-returns input _ _ body in
    let (pkg, _, body) = >>=-returns (load_package ctx pkg_id db) _ body in
    let (_, _, body) = >>=-returns (assert_project_mutable pkg.project_status) _ body in
    let (auth, found, body) = >>=-returns (find_authorization ctx pkg_id id db) _ body in
    let (open_, body) = guard-returns (is_open auth.status) _ _ body in
    let (_, body) =
      guard-returns (is_segregated env pkg auth.requested_by_user_id ctx.user_id) _ _ body in
    let (_, body) =
      guard-returns
        (is_segregated env pkg auth.dispatch_package_snapshot.created_by_user_id ctx.user_id) _ _
        body in
    let (_, body) = guard-returns (all_reviewed checks) _ _ body in
    left_by body (
      decide-IsSound ctx pkg_id auth (authorize_row env ctx checks)
        PackageStatus.authorized_for_dispatch AuditAction.authorize db (λ _. refl) (λ _. refl)
        (found_row ctx pkg_id id db auth h found) (open_unused auth.status open_) h)

pub reject-IsSound :
    (env : Surroundings) (ctx : ProjectContext) (pkg_id id : ℕ) (input : Option Text) (db : Db)
    (a : Authorization) (after : Db)
    → IsSound db
    → reject_in env ctx pkg_id id input db ≡ ok (a, after)
    → IsSound after
unfolding reject_in
reject-IsSound env ctx pkg_id id input db a after h body =
    let (rationale, _, body) = or_throw-returns input _ _ body in
    let (auth, found, body) = >>=-returns (find_authorization ctx pkg_id id db) _ body in
    let (open_, body) = guard-returns (is_open auth.status) _ _ body in
    left_by body (
      decide-IsSound ctx pkg_id auth (reject_row env ctx rationale)
        PackageStatus.authorization_pending AuditAction.reject db (λ _. refl) (λ _. refl)
        (found_row ctx pkg_id id db auth h found) (open_unused auth.status open_) h)

pub revoke-IsSound :
    (ctx : ProjectContext) (pkg_id id : ℕ) (input : Option Text) (db : Db) (a : Authorization)
    (after : Db)
    → IsSound db
    → revoke_in ctx pkg_id id input db ≡ ok (a, after)
    → IsSound after
unfolding revoke_in
revoke-IsSound ctx pkg_id id input db a after h body =
    let (rationale, _, body) = or_throw-returns input _ _ body in
    let (auth, found, body) = >>=-returns (find_authorization ctx pkg_id id db) _ body in
    let (granted, body) = guard-returns (is_authorized auth.status) _ _ body in
    left_by body (
      decide-IsSound ctx pkg_id auth (revoke_row rationale) PackageStatus.authorization_pending
        AuditAction.revoke db (λ _. refl) (λ _. refl) (found_row ctx pkg_id id db auth h found)
        (authorized_unused auth.status granted) h)

pub send-IsSound :
    (env : Surroundings) (provider : Option Provider) (ctx : ProjectContext) (pkg_id id : ℕ)
    (db : Db) (a : Attempt) (after : Db)
    → IsSound db
    → send_in env provider ctx pkg_id id db ≡ ok (a, after)
    → IsSound after
unfolding send_in
send-IsSound env provider ctx pkg_id id db a after h body =
    let (pkg, _, body) = >>=-returns (load_package ctx pkg_id db) _ body in
    let (_, _, body) = >>=-returns (assert_project_mutable pkg.project_status) _ body in
    let (auth, found, body) = >>=-returns (find_authorization ctx pkg_id id db) _ body in
    let (ready, body) = guard-returns (can_dispatch env auth) _ _ body in
    let (_, body) =
      guard-returns (text_eq auth.selected_channel (codes "CONTROLLED_EMAIL")) _ _ body in
    let (p, _, body) = or_throw-returns provider _ _ body in
    let (_, body) = guard-returns p.is_configured _ _ body in
    let attempt = new_attempt env ctx auth p.kind AttemptStatus.prepared none db in
    let (_, body) = guard-returns (is_new_key attempt.idempotency_key db) _ _ body in
    let result = p.send_message (message_for auth attempt.idempotency_key) in
    left_by body (
      after_send-IsSound env ctx auth attempt result db refl
        (found_row ctx pkg_id id db auth h found) (dispatchable_unused env auth ready) h)

pub manual-IsSound :
    (env : Surroundings) (ctx : ProjectContext) (pkg_id id : ℕ) (input : Option ManualDispatch)
    (db : Db) (a : Attempt) (after : Db)
    → IsSound db
    → record_manual_in env ctx pkg_id id input db ≡ ok (a, after)
    → IsSound after
unfolding record_manual_in
manual-IsSound env ctx pkg_id id input db a after h body =
    let (parsed, _, body) = or_throw-returns input _ _ body in
    let (pkg, _, body) = >>=-returns (load_package ctx pkg_id db) _ body in
    let (_, _, body) = >>=-returns (assert_project_mutable pkg.project_status) _ body in
    let (auth, found, body) = >>=-returns (find_authorization ctx pkg_id id db) _ body in
    let (ready, body) = guard-returns (can_dispatch env auth) _ _ body in
    let (_, body) = guard-returns (starts_with (codes "MANUAL_") auth.selected_channel) _ _ body in
    let attempt =
      new_attempt env ctx auth (codes "manual") AttemptStatus.manual_dispatch_recorded
        (some env.now) db in
    let (_, body) = guard-returns (is_new_key attempt.idempotency_key db) _ _ body in
    left_by body (
      after_manual-IsSound ctx auth attempt parsed db refl (found_row ctx pkg_id id db auth h found)
        (dispatchable_unused env auth ready) h)
