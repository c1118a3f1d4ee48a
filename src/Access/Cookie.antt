-- ===== src/Access/Cookie.antt =====
-- apps/web/src/server/auth/active-tenant.ts and active-tenant-crypto.ts: the cookie that selects an
-- organization.
pub mod Laws
mod Tests
use claim_it_all.Prelude.{
  ℕ, Bool, true, false, not, ◌&&◌, ◌||◌, Option, none, some, List, [], ◌∷◌, ◌++◌, ◌==◌,
  if◌then◌else◌, null,
}
use claim_it_all.Prelude.Text.{Text, text_eq, codes}
use claim_it_all.Service.Result.{Result, ok, thrown, validation_error}

-- `signature` is `createHmac('sha256', secret).update(id).digest('base64url')`, of the secret and
-- then of the text, `bytes_of` is `Buffer.from`, and `is_id` is the test of EntityIdSchema.
pub record Crypto : Type 0 where
  pub signature : Text → Text → Text
  pub bytes_of : Text → List ℕ
  pub is_id : Text → Bool

abbrev pub dot : ℕ
dot = 46

unfoldable pub sign_tenant_id : Crypto → Text → Text → Result Text
sign_tenant_id crypto tenant_id secret =
    if crypto.is_id tenant_id
    then ok (tenant_id ++ dot ∷ crypto.signature secret tenant_id)
    else thrown validation_error

-- What is before the last dot and after it: `lastIndexOf`, and `slice` to both sides.
unfoldable pub split_at_last_dot : Text → Option (Text × Text)
split_at_last_dot [] = none
split_at_last_dot (c ∷ text) = elim (split_at_last_dot text) [
  | some parts ↦ some (c ∷ parts.0, parts.1)
  | none ↦ if c == dot then some ([], text) else none
]

-- The tests after the split, the first of which is that on the place of the dot.
abbrev pub verify_parts : Crypto → Text → Option (Text × Text) → Option Text
verify_parts crypto secret none = none
verify_parts crypto secret (some (tenant_id, provided)) =
    if null tenant_id || (not (crypto.is_id tenant_id) || null provided)
    then none
    else if text_eq (crypto.bytes_of provided) (crypto.bytes_of (crypto.signature secret tenant_id))
    then some tenant_id
    else none

unfoldable pub verify_signed_tenant_value : Crypto → Text → Text → Option Text
verify_signed_tenant_value crypto raw secret = verify_parts crypto secret (split_at_last_dot raw)

-- A cookie without a signature, as it was set before, is taken where it is an identifier.
abbrev pub or_legacy : Crypto → Text → Option Text → Option Text
or_legacy crypto value none = if crypto.is_id value then some value else none
or_legacy crypto value (some verified) = some verified

unfoldable pub read_active_tenant_id : Crypto → Text → Option Text → Option Text
read_active_tenant_id crypto secret none = none
read_active_tenant_id crypto secret (some []) = none
read_active_tenant_id crypto secret (some (c ∷ value)) =
    or_legacy crypto (c ∷ value) (verify_signed_tenant_value crypto (c ∷ value) secret)
