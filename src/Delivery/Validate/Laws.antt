-- ===== src/Delivery/Validate/Laws.antt =====
-- What the validators accept.
use claim_it_all.Prelude.{
  ◌≤◌, true, false, ◌||◌, Option, some, List, [], ◌∷◌, ◌≡◌, ◌≢◌, ◌↔◌, inl, inr, refl, sym, ◌∙◌,
  arith, All, Some, any, keep, null, length, Bool-cases, Option-cases, some_inj,
}
use mathlib.Core.Path.{subst}
use claim_it_all.Prelude.Text.{Text, text_eq, text_eq_iff, trim}
use claim_it_all.Delivery.Types.{RecipientSnapshot, AttachmentSnapshot, CoverMessageSnapshot}
use claim_it_all.Delivery.Retry.{truthy}
use claim_it_all.Delivery.Validate.{
  Checked, ok, refused, has_line_break, validate_cover_message, check_recipients,
  validate_recipients_for_dispatch, by_id, check_attachment, and_then, check_attachments,
  validate_attachment_checksums,
}

-- An accepted cover message is the trimmed input: it has a subject of at most 500 units with no
-- line break in it, so no header can be injected, and a body.
pub validate_cover_message_sound :
    (sha256_hex : Text → Text) (subject body : Text) (html : Option Text) (m : CoverMessageSnapshot)
    → validate_cover_message sha256_hex subject body html ≡ ok m
    → (m.subject ≡ trim subject)
      × (m.plain_text ≡ trim body)
      × (m.subject ≢ [])
      × (length m.subject ≤ 500)
      × (has_line_break m.subject ≡ false)
      × (m.plain_text ≢ [])
unfolding validate_cover_message
validate_cover_message_sound sha256_hex subject body html m e = ground arith

-- What a required recipient must have: a name, an address of some kind, and a method.
abbrev pub IsReachable : RecipientSnapshot → Type 0
IsReachable r =
    (null (trim r.display_name) ≡ false)
    × ((truthy r.email_address || (truthy r.physical_address || truthy r.platform_address)) ≡ true)
    × (null r.method ≡ false)

check_recipients_iff :
    (rs : List RecipientSnapshot) → (check_recipients rs ≡ ok tt) ↔ All IsReachable rs
unfolding check_recipients
check_recipients_iff [] = ground arith
check_recipients_iff (r ∷ rs) = ground (arith, check_recipients_iff rs)

All-keep :
    (rs : List RecipientSnapshot)
    → All IsReachable (keep (λ (r : RecipientSnapshot). r.required) rs)
      ↔ All (λ (r : RecipientSnapshot). r.required ≡ true → IsReachable r) rs
All-keep [] = ground arith
All-keep (r ∷ rs) = ground (arith, All-keep rs)

null-keep :
    (rs : List RecipientSnapshot)
    → (null (keep (λ (r : RecipientSnapshot). r.required) rs) ≡ false)
      ↔ (any (λ (r : RecipientSnapshot). r.required) rs ≡ true)
null-keep [] = ground arith
null-keep (r ∷ rs) = ground (arith, null-keep rs)

-- The recipients are accepted exactly when one of them is required and each required one has a name,
-- an address and a method.
pub validate_recipients_iff :
    (rs : List RecipientSnapshot)
    → (validate_recipients_for_dispatch rs ≡ ok tt) ↔ (
        (any (λ (r : RecipientSnapshot). r.required) rs ≡ true)
        × All (λ (r : RecipientSnapshot). r.required ≡ true → IsReachable r) rs)
unfolding validate_recipients_for_dispatch
validate_recipients_iff [] = ground arith
validate_recipients_iff (r ∷ rs) = ground (
  arith,
  null-keep (r ∷ rs),
  All-keep (r ∷ rs),
  check_recipients_iff (keep (λ (r : RecipientSnapshot). r.required) (r ∷ rs)),
)

-- An entry of the list with the same id, checksum and file name as the expected one.
abbrev pub IsBackedBy : List AttachmentSnapshot → AttachmentSnapshot → Type 0
IsBackedBy attachments e =
    Some
      (λ (a : AttachmentSnapshot).
        (a.attachment_id ≡ e.attachment_id)
        × (a.checksum_sha256 ≡ e.checksum_sha256)
        × (a.filename ≡ e.filename))
      attachments

module _ (P : AttachmentSnapshot → Type 0) (id : Text) {a : AttachmentSnapshot}
    (f : text_eq a.attachment_id id ≡ true → P a) where
  by_id-Some : (xs : List AttachmentSnapshot) → by_id xs id ≡ some a → Some P xs
  unfolding by_id
  by_id-Some [] e = cc
  by_id-Some (x ∷ xs) e = elim (Option-cases (by_id xs id)) [
    | inl missed ↦ elim (Bool-cases (text_eq x.attachment_id id)) [
      | inl same ↦
          let x_is_a : x ≡ a = some_inj (rw (missed, by_id, same) at e) in
          inl
            (subst P (sym x_is_a) (f (subst (λ y. text_eq y.attachment_id id ≡ true) x_is_a same)))
      | inr other ↦ cc (rw (missed, by_id, other) at e)
    ]
    | inr (later, found) ↦ inr (by_id-Some xs (found ∙ (rw (found, by_id) at e)))
  ]

and_then-eq-ok :
    (c later : Checked (Unit {0})) → and_then c later ≡ ok tt → (c ≡ ok tt) × (later ≡ ok tt)
and_then-eq-ok (ok u) later h = (refl, h)
and_then-eq-ok (refused r) later h = cc

check_attachment_sound :
    (xs : List AttachmentSnapshot) (e : AttachmentSnapshot)
    → check_attachment (by_id xs e.attachment_id) e ≡ ok tt
    → IsBackedBy xs e
check_attachment_sound xs e h = elim (Option-cases (by_id xs e.attachment_id)) [
  | inl missed ↦ cc (rw missed at h)
  | inr (a, found) ↦
      let checked = rw found at h in
      by_id-Some _ e.attachment_id
        (λ same. ground (
          arith,
          text_eq_iff a.attachment_id e.attachment_id,
          text_eq_iff a.checksum_sha256 e.checksum_sha256,
          text_eq_iff a.filename e.filename,
        ))
        xs found
]

check_attachments_sound :
    (attachments expected : List AttachmentSnapshot)
    → check_attachments attachments expected ≡ ok tt
    → All (IsBackedBy attachments) expected
unfolding check_attachments
check_attachments_sound attachments [] h = tt
check_attachments_sound attachments (e ∷ expected) h =
    let (here, later) =
      and_then-eq-ok (check_attachment (by_id attachments e.attachment_id) e) _ h in
    (check_attachment_sound attachments e here, check_attachments_sound attachments expected later)

-- If the checksums are accepted there are as many attachments as expected, and for each expected one
-- an attachment with its id, its checksum and its file name.
pub validate_attachment_checksums_sound :
    (attachments expected : List AttachmentSnapshot)
    → validate_attachment_checksums attachments expected ≡ ok tt
    → (length attachments ≡ length expected) × All (IsBackedBy attachments) expected
unfolding validate_attachment_checksums
validate_attachment_checksums_sound attachments expected h =
    ground (arith, check_attachments_sound attachments expected)
