-- ===== src/Service/Context.antt =====
-- The context of a request, and the transaction that a service runs its body in.
use claim_it_all.Prelude.{
  ℕ, Bool, true, ◌&&◌, List, ◌≡◌, refl, inl, inr, Bool-cases, ◌==◌, if◌then◌else◌,
}
use claim_it_all.Authz.Capabilities.{Capability}
use claim_it_all.Authz.Permissions.{has_capability}
use claim_it_all.Service.Result.{Result, thrown, ok, forbidden}

-- What `requireProjectAccess` hands on.
pub record ProjectContext : Type 0 where
  pub tenant_id : ℕ
  pub project_id : ℕ
  pub user_id : ℕ
  pub capabilities : List Capability

abbrev pub in_scope : ProjectContext → ℕ → ℕ → Bool
in_scope ctx tenant_id project_id = tenant_id == ctx.tenant_id && project_id == ctx.project_id

-- `withTenantTransaction`: what the body throws undoes what it wrote.
abbrev pub with_tenant_transaction : {Db A : Type 0} → Result (A × Db) → Db → Result A × Db
with_tenant_transaction (ok (a, after)) db = (ok a, after)
with_tenant_transaction (thrown e) db = (thrown e, db)

-- `requireProjectCapability`, and the transaction after it. `denied` writes the refusal to the log.
unfoldable pub with_capability :
    {Db A : Type 0}
    → ProjectContext
    → Capability
    → (Db → Db)
    → (Db → Result (A × Db))
    → Db
    → Result A × Db
with_capability ctx capability denied body db =
    if has_capability ctx.capabilities capability
    then with_tenant_transaction (body db) db
    else (thrown forbidden, denied db)

module _ {Db A : Type 0} where
  pub transaction-ok :
      (r : Result (A × Db)) (db after : Db) (a : A)
      → with_tenant_transaction r db ≡ (ok a, after)
      → r ≡ ok (a, after)
  transaction-ok (ok (b, d)) db after a e = cc
  transaction-ok (thrown x) db after a e = cc

  pub transaction-keeps :
      (P : Db → Type 0) (r : Result (A × Db)) (db : Db)
      → ((a : A) (after : Db) → r ≡ ok (a, after) → P after)
      → P db
      → P (with_tenant_transaction r db).1
  transaction-keeps P (ok (a, after)) db f h = f a after refl
  transaction-keeps P (thrown e) db f h = h

  -- A request that succeeds had the capability, and its body succeeded.
  pub with_capability-ok :
      (ctx : ProjectContext) (capability : Capability) (denied : Db → Db)
      (body : Db → Result (A × Db)) (db after : Db) (a : A)
      → with_capability ctx capability denied body db ≡ (ok a, after)
      → (has_capability ctx.capabilities capability ≡ true) × (body db ≡ ok (a, after))
  unfolding with_capability
  with_capability-ok ctx capability denied body db after a e =
      elim (Bool-cases (has_capability ctx.capabilities capability)) [
        | inl f ↦ (f, transaction-ok (body db) db after a (rw f at e))
        | inr f ↦ cc (rw f at e)
      ]

  -- What a body and the log keep, a request keeps.
  pub with_capability-keeps :
      (P : Db → Type 0) (ctx : ProjectContext) (capability : Capability) (denied : Db → Db)
      (body : Db → Result (A × Db)) (db : Db)
      → ((a : A) (after : Db) → body db ≡ ok (a, after) → P after)
      → P (denied db)
      → P db
      → P (with_capability ctx capability denied body db).1
  unfolding with_capability
  with_capability-keeps P ctx capability denied body db keeps log h =
      elim (Bool-cases (has_capability ctx.capabilities capability)) [
        | inl e ↦ rw e (transaction-keeps P (body db) db keeps h)
        | inr e ↦ rw e log
      ]
