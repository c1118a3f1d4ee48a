-- ===== src/Dispatch/Confirm.antt =====
-- Who may confirm a contractual service, and what that leaves.
use claim_it_all.Prelude.{
  Some, update_where, Bool-cases, inl, inr, ℕ, true, Option, some, List, [], ◌∷◌, ◌≡◌, ◌≢◌, refl,
  sym, ap, ◌∙◌, arith, find, ◌==◌, All, ==_iff,
}
use mathlib.Core.Path.{subst}
use claim_it_all.Prelude.Text.{Text}
use claim_it_all.Authz.Capabilities.{notice_receipt_confirm}
use claim_it_all.Authz.Permissions.{has_capability}
use claim_it_all.Delivery.Types.{ContractualServiceStatus}
use claim_it_all.Dispatch.Types.{PackageStatus, Package, Attempt, ReceiptAssessment}
use claim_it_all.Service.Result.{ok, >>=-returns, or_throw-returns, guard-returns}
use claim_it_all.Service.Rows.{find_test, find-Some, Some-update_where}
use claim_it_all.Dispatch.Store.{Db, load_package}
use claim_it_all.Service.Context.{ProjectContext}
use claim_it_all.Dispatch.Snapshot.{Surroundings}
use claim_it_all.Dispatch.Authorization.{is_segregated}
use claim_it_all.Dispatch.Receipts.{
  service_row, after_confirm, attempt_of, is_assessment, confirm_in, confirm_contractual_service,
}
use claim_it_all.Dispatch.Bodies.{ok_inj}
use claim_it_all.Dispatch.Guards.{as_capable-ok, segregated_ne}

-- What a confirmed service rests on, and what it leaves.
pub record Confirms (env : Surroundings) (ctx : ProjectContext) (id : ℕ)
    (before confirmed : ReceiptAssessment) (attempt : Attempt) (pkg : Package) (pkg_id : ℕ)
    (db after : Db) : Type 0 where
  pub has_assessment : Some (λ b. b ≡ before) db.assessments
  pub asked_for : before.id ≡ id
  pub of_package : before.notice_package_id ≡ pkg_id
  pub has_attempt : Some (λ t. t ≡ attempt) db.attempts
  pub of_attempt : attempt.id ≡ before.details.attempt_id
  pub not_initiator :
      env.sod_enabled ≡ true → pkg.sod_enforced ≡ true → attempt.initiated_by_user_id ≢ ctx.user_id
  pub is_confirmed : confirmed.contractual_service_status ≡ ContractualServiceStatus.human_confirmed
  pub confirmed_by : confirmed.reviewed_by_user_id ≡ ctx.user_id
  pub same_assessment : confirmed.id ≡ before.id
  pub is_stored : Some (λ b. b ≡ confirmed) after.assessments
  pub assessment_status :
      All
        (λ (b : ReceiptAssessment).
          b.id ≡ id → b.contractual_service_status ≡ ContractualServiceStatus.human_confirmed)
        after.assessments
  pub package_status :
      All
        (λ (p : Package). p.id ≡ pkg_id → p.status ≡ PackageStatus.receipt_confirmed)
        after.packages

assessment_ids :
    (ctx : ProjectContext) (pkg_id id : ℕ) (a : ReceiptAssessment)
    → is_assessment ctx pkg_id id a ≡ true
    → (a.id ≡ id) × (a.notice_package_id ≡ pkg_id)
assessment_ids ctx pkg_id id a e = (ground arith, ground arith)

-- After an update of the rows with an identifier by a change that keeps it, these rows have what
-- the change gives.
All-changed :
    {Row : Type 0} (P : Row → Type 0) (id_of : Row → ℕ) (id : ℕ) (change : Row → Row)
    → ((x : Row) → P (change x))
    → (xs : List Row) → All (λ x. id_of x ≡ id → P x) (update_where (λ x. id_of x == id) change xs)
All-changed P id_of id change f [] = tt
All-changed P id_of id change f (x ∷ xs) = elim (Bool-cases (id_of x == id)) [
  | inl t ↦ rw t ((λ _. f x), All-changed P id_of id change f xs)
  | inr t ↦ rw t ((λ e. cc (sym t ∙ (==_iff (id_of x) id).1 e)), All-changed P id_of id change f xs)
]

module _ (env : Surroundings) (ctx : ProjectContext) (pkg_id : ℕ) (input : Option (ℕ × Option Text))
    (db : Db) (confirmed : ReceiptAssessment) (after : Db) where
  abbrev pub Confirmed : Type 0
  Confirmed =
      (asked : ℕ × Option Text) × (pkg : Package) × (before : ReceiptAssessment)
      × (attempt : Attempt) × (input ≡ some asked)
      × (load_package ctx pkg_id db ≡ ok pkg)
      × Confirms env ctx asked.0 before confirmed attempt pkg pkg_id db after

  confirm_in-Confirms : confirm_in env ctx pkg_id input db ≡ ok (confirmed, after) → Confirmed
  unfolding confirm_in
  confirm_in-Confirms body =
      let (parsed, given, body) = or_throw-returns input _ _ body in
      let (pkg, loaded, body) = >>=-returns (load_package ctx pkg_id db) _ body in
      let (before, found, body) =
        or_throw-returns (find (is_assessment ctx pkg_id parsed.0) db.assessments) _ _ body in
      let (attempt, includes, body) = or_throw-returns (attempt_of before db) _ _ body in
      let (segregated, body) =
        guard-returns (is_segregated env pkg attempt.initiated_by_user_id ctx.user_id) _ _ body in
      let same = ok_inj body in
      let same_db : after_confirm env ctx pkg_id parsed.1 before db ≡ after = ap (λ r. r.1) same in
      let (asked, own) =
        assessment_ids ctx pkg_id parsed.0 before
          (find_test (is_assessment ctx pkg_id parsed.0) db.assessments before found) in
      let row : service_row env ctx parsed.1 before ≡ confirmed = ap (λ r. r.0) same in
      (
        parsed,
        pkg,
        before,
        attempt,
        given,
        loaded,
        record {
          has_assessment = find-Some (λ b. b ≡ before) _ db.assessments before found refl;
          asked_for = asked;
          of_package = own;
          has_attempt =
              find-Some (λ t. t ≡ attempt) (λ (t : Attempt). t.id == before.details.attempt_id)
                db.attempts attempt includes refl;
          of_attempt = (==_iff attempt.id before.details.attempt_id).0 (
              find_test (λ (t : Attempt). t.id == before.details.attempt_id) db.attempts attempt
                includes);
          not_initiator = segregated_ne env pkg attempt.initiated_by_user_id ctx.user_id segregated;
          is_confirmed = ap (λ b. b.contractual_service_status) (sym row);
          confirmed_by = ap (λ b. b.reviewed_by_user_id) (sym row);
          same_assessment = ap (λ b. b.id) (sym row);
          is_stored =
              subst (λ (d : Db). Some (λ b. b ≡ confirmed) d.assessments) same_db
                (Some-update_where (λ b. b ≡ before) (λ b. b ≡ confirmed)
                  (λ (b : ReceiptAssessment). b.id == before.id) (service_row env ctx parsed.1)
                  (λ b e _. ap (service_row env ctx parsed.1) e ∙ row)
                  (λ b e missed. cc (sym missed ∙ (==_iff b.id before.id).1 (ap (λ x. x.id) e)))
                  db.assessments (find-Some (λ b. b ≡ before) _ db.assessments before found refl));
          assessment_status =
              subst
                (λ (d : Db).
                  All
                    (λ (b : ReceiptAssessment).
                      b.id ≡ parsed.0
                      → b.contractual_service_status ≡ ContractualServiceStatus.human_confirmed)
                    d.assessments)
                same_db
                (subst
                  (λ i.
                    All
                      (λ (b : ReceiptAssessment).
                        b.id ≡ i
                        → b.contractual_service_status ≡ ContractualServiceStatus.human_confirmed)
                      (after_confirm env ctx pkg_id parsed.1 before db).assessments)
                  asked
                  (All-changed _ (λ (b : ReceiptAssessment). b.id) before.id
                    (service_row env ctx parsed.1) (λ _. refl) db.assessments));
          package_status =
              subst
                (λ (d : Db).
                  All (λ (p : Package). p.id ≡ pkg_id → p.status ≡ PackageStatus.receipt_confirmed)
                    d.packages)
                same_db
                (All-changed _ (λ (p : Package). p.id) pkg_id
                  (λ p. record p { status = PackageStatus.receipt_confirmed }) (λ _. refl)
                  db.packages);
        },
      )

  -- A contractual service is confirmed only by one who may confirm it and, where duties are
  -- segregated, did not make the attempt of the assessment that was asked for; then the assessment is
  -- stored as HUMAN_CONFIRMED by the user, as the answer has it, and the package as
  -- RECEIPT_CONFIRMED.
  pub confirm_contractual_service-Confirms :
      confirm_contractual_service env ctx pkg_id input db ≡ (ok confirmed, after)
      → (has_capability ctx.capabilities notice_receipt_confirm ≡ true) × Confirmed
  confirm_contractual_service-Confirms e =
      let (capable, body) = as_capable-ok ctx notice_receipt_confirm _ db after confirmed e in
      (capable, confirm_in-Confirms body)
