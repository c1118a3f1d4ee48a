-- ===== src/Access/Cookie/Tests.antt =====
-- A cookie with digests of one unit.
use claim_it_all.Prelude.{none, some, [], ◌∷◌, ◌≡◌, refl, arith, not, null, length, ◌+◌, ◌++◌}
use claim_it_all.Prelude.Text.{Text, codes}
use claim_it_all.Service.Result.{ok}
use claim_it_all.Access.Cookie.{
  Crypto, sign_tenant_id, split_at_last_dot, verify_signed_tenant_value, read_active_tenant_id,
}
use claim_it_all.Access.Cookie.Laws.{
  IsUsable, verify_signed_tenant_value_iff, read_active_tenant_id-sign_tenant_id,
}

-- The length of the secret gives the digest.
abbrev digests : Crypto
digests = record {
  signature = λ secret id. (length secret + 100) ∷ [];
  bytes_of = λ text. text;
  is_id = λ text. not (null text);
}

digests-IsUsable : IsUsable digests
digests-IsUsable = record {
  no_dots = λ secret id. ground arith;
  not_empty = λ secret id. refl;
  faithful = λ secret id text e. e;
  no_empty_id = refl;
}

abbrev signed : Text
signed = codes "a.b" ++ codes ".f"

is_signed : sign_tenant_id digests (codes "a.b") (codes "se") ≡ ok signed
unfolding sign_tenant_id
is_signed = refl

verify_signed_tenant_value_iff_example :
    verify_signed_tenant_value digests signed (codes "se") ≡ some (codes "a.b")
verify_signed_tenant_value_iff_example =
    (verify_signed_tenant_value_iff digests digests-IsUsable signed (codes "se") (codes "a.b")).1
      is_signed

read_active_tenant_id-sign_tenant_id_example :
    read_active_tenant_id digests (codes "se") (some signed) ≡ some (codes "a.b")
read_active_tenant_id-sign_tenant_id_example =
    read_active_tenant_id-sign_tenant_id digests digests-IsUsable (codes "a.b") (codes "se") signed
      is_signed

-- The digest of another secret is not taken, and an identifier without a digest is.
forged : verify_signed_tenant_value digests signed (codes "sec") ≡ none
unfolding verify_signed_tenant_value split_at_last_dot
forged = refl

unsigned : read_active_tenant_id digests (codes "se") (some (codes "a")) ≡ some (codes "a")
unfolding read_active_tenant_id verify_signed_tenant_value split_at_last_dot
unsigned = refl
