-- ===== src/Access/Cookie/Laws.antt =====
-- Only what was signed with the secret is verified, and it is read back.
use claim_it_all.Prelude.{
  Bool, true, false, not, ◌||◌, Option, none, some, [], ◌∷◌, ◌++◌, ◌≡◌, ◌↔◌, refl, sym, ap, ◌∙◌,
  inl, inr, ◌==◌, ==_iff, arith, any, Bool-cases, Option-cases, some_inj, null,
}
use mathlib.Core.Path.{subst}
use claim_it_all.Prelude.Text.{Text, text_eq, text_eq_iff}
use claim_it_all.Service.Result.{ok, ok_inj}
use claim_it_all.Access.Cookie.{
  Crypto, dot, sign_tenant_id, split_at_last_dot, verify_parts, verify_signed_tenant_value,
  read_active_tenant_id,
}

-- What is relied on: base64url has no dots and the digest is not empty, the bytes of a text that
-- `Buffer.from` gives for a digest are those of no other text, and the empty text is no identifier.
pub record IsUsable (crypto : Crypto) : Type 0 where
  pub no_dots : (secret id : Text) → any (λ c. c == dot) (crypto.signature secret id) ≡ false
  pub not_empty : (secret id : Text) → null (crypto.signature secret id) ≡ false
  pub faithful :
      (secret id text : Text)
      → crypto.bytes_of text ≡ crypto.bytes_of (crypto.signature secret id)
      → text ≡ crypto.signature secret id
  pub no_empty_id : crypto.is_id [] ≡ false

no_split : (b : Text) → any (λ c. c == dot) b ≡ false → split_at_last_dot b ≡ none
unfolding split_at_last_dot
no_split [] e = refl
no_split (c ∷ b) e = rw (no_split b (ground arith)) (ground arith)

split-append :
    (a b : Text) → any (λ c. c == dot) b ≡ false → split_at_last_dot (a ++ dot ∷ b) ≡ some (a, b)
unfolding split_at_last_dot
split-append [] b e = rw (no_split b e) refl
split-append (c ∷ a) b e = rw (split-append a b e) refl

split_joined : (t a b : Text) → split_at_last_dot t ≡ some (a, b) → t ≡ a ++ dot ∷ b
unfolding split_at_last_dot
split_joined [] a b e = cc e
split_joined (c ∷ t) a b e = elim (Option-cases (split_at_last_dot t)) [
  | inl f ↦ elim (Bool-cases (c == dot)) [
    | inl k ↦
        ap (λ x. x ∷ t) ((==_iff c dot).0 k)
        ∙ ap (λ (p : Text × Text). p.0 ++ dot ∷ p.1) (some_inj (rw (f, k) at e))
    | inr k ↦ cc (rw (f, k) at e)
  ]
  | inr (parts, f) ↦
      ap (λ x. c ∷ x) (split_joined t parts.0 parts.1 f)
      ∙ ap (λ (p : Text × Text). p.0 ++ dot ∷ p.1) (some_inj (rw f at e))
]

null_id :
    (crypto : Crypto) (id : Text)
    → crypto.is_id [] ≡ false
    → crypto.is_id id ≡ true
    → null id ≡ false
null_id crypto [] e f = ground arith
null_id crypto (c ∷ id) e f = refl

id_tested : (a b c : Bool) → (a || (not b || c)) ≡ false → b ≡ true
id_tested a b c e = ground arith

verified :
    (crypto : Crypto)
    → IsUsable crypto
    → (raw secret id : Text) (parts : Option (Text × Text)) → split_at_last_dot raw ≡ parts
    → verify_parts crypto secret parts ≡ some id
    → (crypto.is_id id ≡ true) × (id ++ dot ∷ crypto.signature secret id ≡ raw)
verified crypto usable raw secret id none f e = cc e
verified crypto usable raw secret id (some (t, p)) f e =
    elim (Bool-cases (null t || (not (crypto.is_id t) || null p))) [
      | inl k ↦ cc (rw k at e)
      | inr k ↦
          elim (Bool-cases
            (text_eq (crypto.bytes_of p) (crypto.bytes_of (crypto.signature secret t)))) [
              | inl q ↦
                  let same_id : t ≡ id = some_inj (rw (k, q) at e) in
                  let same_digest = usable.faithful secret t p ((text_eq_iff _ _).0 q) in
                  subst
                    (λ x. (crypto.is_id x ≡ true) × (x ++ dot ∷ crypto.signature secret x ≡ raw))
                    same_id
                    (
                      id_tested (null t) (crypto.is_id t) (null p) k,
                      ap (λ x. t ++ dot ∷ x) (sym same_digest) ∙ sym (split_joined raw t p f),
                    )
              | inr q ↦ cc (rw (k, q) at e)
            ]
    ]

-- If the digests are as `IsUsable` says, a value is verified as that of an organization exactly if
-- it is what signing the organization with the secret gives.
pub verify_signed_tenant_value_iff :
    (crypto : Crypto)
    → IsUsable crypto
    → (raw secret id : Text)
    → (verify_signed_tenant_value crypto raw secret ≡ some id)
      ↔ (sign_tenant_id crypto id secret ≡ ok raw)
unfolding verify_signed_tenant_value sign_tenant_id
verify_signed_tenant_value_iff crypto usable raw secret id = (
  λ e. let (k, f) = verified crypto usable raw secret id _ refl e in rw k (ap ok f),
  λ e. elim (Bool-cases (crypto.is_id id)) [
    | inl k ↦
        subst (λ x. verify_parts crypto secret (split_at_last_dot x) ≡ some id) (ok_inj (rw k at e))
          (rw
            (
              split-append id (crypto.signature secret id) (usable.no_dots secret id),
              null_id crypto id usable.no_empty_id k,
              k,
              usable.not_empty secret id,
              (text_eq_iff (crypto.bytes_of (crypto.signature secret id)) _).1 refl,
            )
            refl)
    | inr k ↦ cc (rw k at e)
  ],
)

-- The cookie that is signed for an organization is read back as that organization, whatever its
-- identifier and the secret, if the digests are as `IsUsable` says.
pub read_active_tenant_id-sign_tenant_id :
    (crypto : Crypto)
    → IsUsable crypto
    → (id secret value : Text) → sign_tenant_id crypto id secret ≡ ok value
    → read_active_tenant_id crypto secret (some value) ≡ some id
unfolding read_active_tenant_id verify_signed_tenant_value split_at_last_dot
read_active_tenant_id-sign_tenant_id crypto usable id secret [] e =
    let f : none ≡ some id = (verify_signed_tenant_value_iff crypto usable [] secret id).1 e in cc f
read_active_tenant_id-sign_tenant_id crypto usable id secret (c ∷ value) e =
    rw ((verify_signed_tenant_value_iff crypto usable (c ∷ value) secret id).1 e) refl
