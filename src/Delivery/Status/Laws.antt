-- ===== src/Delivery/Status/Laws.antt =====
-- What the aggregated status says of the recipients.
use claim_it_all.Prelude.{
  Bool, true, false, ◌&&◌, List, [], ◌∷◌, ◌≡◌, ◌≢◌, ◌↔◌, ◌∙◌, refl, sym, arith, all, any, null,
  same_iff, if◌then◌else◌, includes, all-distinct, all-not-any, any_mono, all-SameMembers, not,
  any-all-false, any-null-false,
}
use claim_it_all.Delivery.Types.{AttemptStatus, RecipientStatus, RecipientStatus-discrete}
use claim_it_all.Delivery.Status.{
  aggregate_recipient_status, status_eq, is_confirmed, is_sent, is_failure, is_failed_or_open,
  is_submitted, is_pending,
}

-- The ladder of tests, over the list itself.
classify : List RecipientStatus → AttemptStatus
classify xs =
    if null xs
    then AttemptStatus.failed
    else if all is_confirmed xs
    then AttemptStatus.delivered
    else if all is_sent xs
    then AttemptStatus.sent
    else if all is_failure xs
    then AttemptStatus.failed
    else if any is_sent xs && any is_failed_or_open xs
    then AttemptStatus.partially_delivered
    else if all is_submitted xs
    then AttemptStatus.submitted
    else if all is_pending xs
    then AttemptStatus.prepared
    else AttemptStatus.delivery_pending

aggregate-classify : (xs : List RecipientStatus) → aggregate_recipient_status xs ≡ classify xs
unfolding aggregate_recipient_status classify
aggregate-classify xs = rw (
  all-distinct status_eq (same_iff RecipientStatus-discrete) is_confirmed xs,
  all-distinct status_eq (same_iff RecipientStatus-discrete) is_sent xs,
  all-distinct status_eq (same_iff RecipientStatus-discrete) is_failure xs,
)

failure_facts :
    (xs : List RecipientStatus)
    → any is_failure xs ≡ true
    → (null xs ≡ false)
      × (all is_confirmed xs ≡ false)
      × (all is_sent xs ≡ false)
      × (any is_failed_or_open xs ≡ true)
      × (all is_submitted xs ≡ false)
      × (all is_pending xs ≡ false)
failure_facts xs h = (
  any-null-false is_failure xs h,
  any-all-false is_failure is_confirmed xs (λ s e. ground arith) h,
  any-all-false is_failure is_sent xs (λ s e. ground arith) h,
  any_mono is_failure is_failed_or_open xs (λ s e. ground arith) h,
  any-all-false is_failure is_submitted xs (λ s e. ground arith) h,
  any-all-false is_failure is_pending xs (λ s e. ground arith) h,
)

classify_failure :
    (xs : List RecipientStatus)
    → any is_failure xs ≡ true
    → classify xs ≡ (
        if all is_failure xs
        then AttemptStatus.failed
        else if any is_sent xs
        then AttemptStatus.partially_delivered
        else AttemptStatus.delivery_pending)
unfolding classify
classify_failure xs h = ground (arith, failure_facts xs h)

-- Once a recipient has failed, the attempt has failed if all have, is partially delivered if
-- another recipient was reached, and else is reported as pending.
pub aggregate_failure :
    (xs : List RecipientStatus)
    → any is_failure xs ≡ true
    → aggregate_recipient_status xs ≡ (
        if all is_failure xs
        then AttemptStatus.failed
        else if any is_sent xs
        then AttemptStatus.partially_delivered
        else AttemptStatus.delivery_pending)
aggregate_failure xs h = aggregate-classify xs ∙ classify_failure xs h

classify_delivered_iff :
    (xs : List RecipientStatus)
    → (classify xs ≡ AttemptStatus.delivered) ↔ ((xs ≢ []) × (all is_confirmed xs ≡ true))
unfolding classify
classify_delivered_iff [] = ground arith
classify_delivered_iff (x ∷ xs) = ground arith

-- An attempt is reported as delivered exactly when it has recipients and each of them is delivered,
-- acknowledged or manually confirmed.
pub aggregate_delivered_iff :
    (xs : List RecipientStatus)
    → (aggregate_recipient_status xs ≡ AttemptStatus.delivered)
      ↔ ((xs ≢ []) × (all is_confirmed xs ≡ true))
aggregate_delivered_iff xs = rw (aggregate-classify xs) (classify_delivered_iff xs)

-- The same statuses, in any order and number.
abbrev pub SameMembers : List RecipientStatus → List RecipientStatus → Type 0
SameMembers xs ys = (s : RecipientStatus) → includes status_eq xs s ≡ includes status_eq ys s

status_refl : (s : RecipientStatus) → status_eq s s ≡ true
status_refl s = (same_iff RecipientStatus-discrete s s).1 refl

null-SameMembers : (xs ys : List RecipientStatus) → SameMembers xs ys → null xs ≡ null ys
null-SameMembers [] [] h = refl
null-SameMembers [] (y ∷ ys) h = ground (arith, h y, status_refl y)
null-SameMembers (x ∷ xs) [] h = ground (arith, h x, status_refl x)
null-SameMembers (x ∷ xs) (y ∷ ys) h = refl

every :
    (p : RecipientStatus → Bool) (xs ys : List RecipientStatus)
    → SameMembers xs ys
    → all p xs ≡ all p ys
every = all-SameMembers status_eq (same_iff RecipientStatus-discrete)

some_of :
    (p : RecipientStatus → Bool) (xs ys : List RecipientStatus)
    → SameMembers xs ys
    → any p xs ≡ any p ys
some_of p xs ys h =
    ground (arith, every (λ s. not (p s)) xs ys h, all-not-any p xs, all-not-any p ys)

classify-SameMembers :
    (xs ys : List RecipientStatus) → SameMembers xs ys → classify xs ≡ classify ys
unfolding classify
classify-SameMembers xs ys h = rw (
  null-SameMembers xs ys h,
  every is_confirmed xs ys h,
  every is_sent xs ys h,
  every is_failure xs ys h,
  some_of is_sent xs ys h,
  some_of is_failed_or_open xs ys h,
  every is_submitted xs ys h,
  every is_pending xs ys h,
)

-- The aggregated status depends only on which statuses occur, not on their order or number.
pub aggregate-SameMembers :
    (xs ys : List RecipientStatus)
    → SameMembers xs ys
    → aggregate_recipient_status xs ≡ aggregate_recipient_status ys
aggregate-SameMembers xs ys h =
    aggregate-classify xs ∙ classify-SameMembers xs ys h ∙ sym (aggregate-classify ys)
