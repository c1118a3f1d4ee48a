-- ===== src/Access/Tenants.antt =====
-- apps/web/src/server/services/tenants.ts, with the identifier that the schema's `safeParse` gives,
-- `none` where it fails. The order of the listed rows is left out.
use claim_it_all.Prelude.{
  ℕ, Bool, true, false, ◌&&◌, Option, none, some, List, ◌==◌, find, any, keep, map,
}
use claim_it_all.Service.Result.{Result, ok, validation_error, ◌>>=◌, or_throw}
use claim_it_all.Access.Types.{
  SessionUser, Tenant, TenantStatus, TenantMembership, AuditAction, of_tenant, World, is_active,
}
use claim_it_all.Access.Context.{◌>>>◌, log, require_authenticated_user, require_tenant_membership}

abbrev is_active_tenant : TenantStatus → Bool
is_active_tenant TenantStatus.active = true
is_active_tenant _ = false

abbrev is_own : SessionUser → Tenant → TenantMembership → Bool
is_own user t m = m.tenant_id == t.id && (m.user_id == user.id && is_active m.status)

-- With the user's role in each, which `take: 1` gives of the memberships.
unfoldable pub list_authorized_tenants : World → Result (List (Tenant × Option TenantMembership))
list_authorized_tenants w = require_authenticated_user w >>= λ user. ok (
    map (λ t. (t, find (is_own user t) w.memberships))
      (keep (λ (t : Tenant). is_active_tenant t.status && any (is_own user t) w.memberships)
        w.tenants))

unfoldable pub select_active_tenant : Option ℕ → World → Result ℕ × World
select_active_tenant parsed w = (or_throw parsed validation_error, w) >>> λ tenant_id w.
    require_tenant_membership (some tenant_id) w >>> λ ctx w. (
      ok ctx.tenant_id,
      log ctx none AuditAction.tenant_selected (of_tenant ctx.tenant_id)
          (record w { active_tenant = some ctx.tenant_id }),
    )
