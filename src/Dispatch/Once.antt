-- ===== src/Dispatch/Once.antt =====
-- An authorization is used once.
use claim_it_all.Prelude.{
  ℕ, ◌+◌, ◌≤◌, ◌<◌, Bool, true, false, List, [], ◌∷◌, ◌++◌, ◌≡◌, ◌∙◌, refl, ap, arith, keep, length,
  update_where, ◌==◌, ==_iff, All, All-append, All-mono, All-update_where, keep-append,
  length-append, Bool-cases, inl, inr,
}
use claim_it_all.Delivery.Types.{AuthorizationStatus}
use claim_it_all.Dispatch.Types.{Authorization, Attempt}
use claim_it_all.Dispatch.Store.{Db}

abbrev pub uses : AuthorizationStatus → ℕ
uses AuthorizationStatus.used = 1
uses _ = 0

abbrev pub count : ℕ → List Attempt → ℕ
count id attempts = length (keep (λ (t : Attempt). t.dispatch_authorization_id == id) attempts)

-- A row of the authorizations, with identifiers below `n`: it has an attempt exactly if it is used.
abbrev pub IsUsedOnce : ℕ → List Attempt → Authorization → Type 0
IsUsedOnce n attempts a = (a.id < n) × (count a.id attempts ≡ uses a.status)

abbrev pub IsBounded : ℕ → Attempt → Type 0
IsBounded n t = t.dispatch_authorization_id < n

pub record Sound (n : ℕ) (authorizations : List Authorization) (attempts : List Attempt)
    : Type 0 where
  pub rows : All (IsUsedOnce n attempts) authorizations
  pub bounded : All (IsBounded n) attempts

-- Every authorization of the database is used once or not at all.
abbrev pub IsSound : Db → Type 0
IsSound db = Sound db.next_id db.authorizations db.attempts

count-append : (id : ℕ) (xs ys : List Attempt) → count id (xs ++ ys) ≡ count id xs + count id ys
count-append id xs ys =
    let p = λ (t : Attempt). t.dispatch_authorization_id == id in
    ap length (keep-append p xs ys) ∙ length-append (keep p xs) (keep p ys)

count_fresh : (n : ℕ) (xs : List Attempt) → All (IsBounded n) xs → count n xs ≡ 0
count_fresh n [] h = refl
count_fresh n (x ∷ xs) (lt, h) = ground (arith, count_fresh n xs h)

count-update :
    (id : ℕ) (p : Attempt → Bool) (change : Attempt → Attempt)
    → ((t : Attempt) → (change t).dispatch_authorization_id ≡ t.dispatch_authorization_id)
    → (xs : List Attempt) → count id (update_where p change xs) ≡ count id xs
count-update id p change same [] = refl
count-update id p change same (x ∷ xs) = elim (Bool-cases (p x)) [
  | inl e ↦ rw (e, same x) (ground (arith, count-update id p change same xs))
  | inr e ↦ rw e (ground (arith, count-update id p change same xs))
]

module _ (n : ℕ) (authorizations : List Authorization) (attempts : List Attempt)
    (sound : Sound n authorizations attempts) where
  -- More identifiers are given out.
  pub Sound-grow : (m : ℕ) → n ≤ m → Sound m authorizations attempts
  Sound-grow m le = record {
    rows =
        All-mono (IsUsedOnce n attempts) (IsUsedOnce m attempts)
          (λ a (lt, e). (omega (arith, lt), e)) authorizations sound.rows;
    bounded =
        All-mono (IsBounded n) (IsBounded m) (λ t lt. omega (arith, lt)) attempts sound.bounded;
  }

  -- A new authorization, which is not used.
  pub Sound-request :
      (a : Authorization)
      → a.id ≡ n
      → uses a.status ≡ 0
      → Sound (n + 1) (authorizations ++ a ∷ []) attempts
  Sound-request a e unused =
      let grown = Sound-grow (n + 1) (omega arith) in
      record {
        rows =
            All-append (IsUsedOnce (n + 1) attempts) authorizations (a ∷ []) grown.rows
              ((omega (arith, e), rw (e, unused) (count_fresh n attempts sound.bounded)), tt);
        bounded = grown.bounded;
      }

  -- Rows of attempts are changed, each within its authorization.
  pub Sound-attempts :
      (m : ℕ) (p : Attempt → Bool) (change : Attempt → Attempt)
      → n ≤ m
      → ((t : Attempt) → (change t).dispatch_authorization_id ≡ t.dispatch_authorization_id)
      → Sound m authorizations (update_where p change attempts)
  Sound-attempts m p change le same_owner = record {
    rows =
        All-mono (IsUsedOnce n attempts) (IsUsedOnce m (update_where p change attempts))
          (λ a (lt, e). (omega (arith, lt, le), count-update a.id p change same_owner attempts ∙ e))
          authorizations sound.rows;
    bounded =
        All-update_where (IsBounded m) (IsBounded m) p change (λ t lt _. rw (same_owner t) lt)
          (λ t lt _. lt) attempts (Sound-grow m le).bounded;
  }

  module _ (auth : Authorization) (row : IsUsedOnce n attempts auth)
      (unused : uses auth.status ≡ 0) where
    -- A decision that does not use it.
    pub Sound-decide :
        (change : Authorization → Authorization)
        → ((a : Authorization) → (change a).id ≡ a.id)
        → ((a : Authorization) → uses (change a).status ≡ 0)
        → Sound n
            (update_where (λ (a : Authorization). a.id == auth.id) change authorizations)
            attempts
    Sound-decide change same_id keeps = record {
      rows =
          All-update_where (IsUsedOnce n attempts) (IsUsedOnce n attempts) (λ a. a.id == auth.id)
            change
            (λ a (lt, e) found.
              let is_auth : a.id ≡ auth.id = (==_iff a.id auth.id).0 found in
              (rw (same_id a) lt, rw (same_id a, keeps a, is_auth) (row.1 ∙ unused)))
            (λ a h _. h) authorizations sound.rows;
      bounded = sound.bounded;
    }

    -- A dispatch, which adds an attempt, changes the rows of attempts and marks it as used.
    pub Sound-dispatch :
        (m : ℕ) (attempt : Attempt) (p : Attempt → Bool) (change : Attempt → Attempt)
        (mark : Authorization → Authorization)
        → n ≤ m
        → attempt.dispatch_authorization_id ≡ auth.id
        → ((t : Attempt) → (change t).dispatch_authorization_id ≡ t.dispatch_authorization_id)
        → ((a : Authorization) → (mark a).id ≡ a.id)
        → ((a : Authorization) → uses (mark a).status ≡ 1)
        → Sound m
            (update_where (λ (a : Authorization). a.id == auth.id) mark authorizations)
            (update_where p change (attempts ++ attempt ∷ []))
    Sound-dispatch m attempt p change mark le owner same_owner same_id marks = record {
      rows =
          All-update_where (IsUsedOnce n attempts) (IsUsedOnce m after) (λ a. a.id == auth.id) mark
            used_row other_row authorizations sound.rows;
      bounded =
          All-update_where (IsBounded m) (IsBounded m) p change (λ t lt _. rw (same_owner t) lt)
            (λ t lt _. lt) (attempts ++ attempt ∷ [])
            (All-append (IsBounded m) attempts (attempt ∷ []) (Sound-grow m le).bounded
              (omega (arith, owner, row.0), tt));
    }
      where
        after : List Attempt
        after = update_where p change (attempts ++ attempt ∷ [])

        count_after : (id : ℕ) → count id after ≡ count id attempts + count id (attempt ∷ [])
        count_after id =
            count-update id p change same_owner (attempts ++ attempt ∷ [])
            ∙ count-append id attempts (attempt ∷ [])

        used_row :
            (a : Authorization)
            → IsUsedOnce n attempts a
            → (a.id == auth.id) ≡ true
            → IsUsedOnce m after (mark a)
        used_row a (lt, e) found =
            let is_auth : a.id ≡ auth.id = (==_iff a.id auth.id).0 found in
            (
              rw (same_id a) (omega (arith, lt, le)),
              rw (same_id a, marks a, is_auth)
                  (count_after auth.id ∙ rw (owner, row.1, unused) (ground arith)),
            )

        other_row :
            (a : Authorization)
            → IsUsedOnce n attempts a
            → (a.id == auth.id) ≡ false
            → IsUsedOnce m after a
        other_row a (lt, e) missed =
            (omega (arith, lt, le), count_after a.id ∙ rw (owner, e) (ground (arith, missed)))
