-- ===== src/Service/Rows.antt =====
-- Tables as lists of rows: aggregates, and facts about rows that stay while a table changes.
use claim_it_all.Prelude.{
  ℕ, ◌≤◌, Bool, true, false, some, List, [], ◌∷◌, ◌++◌, ◌≡◌, refl, inl, inr, arith, leb,
  if◌then◌else◌, find, any, update_where, Some, All, length, length-append, keep, keep-append, sym,
  Bool-cases, some_inj,
}
use mathlib.Core.Path.{subst}

-- `aggregate({ where, _max }) ?? 0`
abbrev pub max_where {ℓ} : {Row : Type ℓ} → (Row → Bool) → (Row → ℕ) → List Row → ℕ
max_where p f [] = 0
max_where p f (x ∷ xs) =
    let rest = max_where p f xs in if p x then (if leb (f x) rest then rest else f x) else rest

module _ {Row : Type 0} where
  pub find_test : (p : Row → Bool) (xs : List Row) (x : Row) → find p xs ≡ some x → p x ≡ true
  find_test p [] x e = cc e
  find_test p (y ∷ ys) x e = elim (Bool-cases (p y)) [
    | inl t ↦ subst (λ z. p z ≡ true) (some_inj (rw t at e)) t
    | inr t ↦ find_test p ys x (rw t at e)
  ]

  pub find-append :
      (p : Row → Bool) (xs ys : List Row) (x : Row)
      → find p xs ≡ some x
      → find p (xs ++ ys) ≡ some x
  find-append p [] ys x e = cc e
  find-append p (y ∷ more) ys x e = elim (Bool-cases (p y)) [
    | inl t ↦ rw t (rw t at e)
    | inr t ↦ rw t (find-append p more ys x (rw t at e))
  ]

  pub any-Some : (p : Row → Bool) (xs : List Row) → any p xs ≡ true → Some (λ x. p x ≡ true) xs
  any-Some p [] e = cc e
  any-Some p (x ∷ xs) e = elim (Bool-cases (p x)) [
    | inl t ↦ inl t
    | inr t ↦ inr (any-Some p xs (rw t at e))
  ]

  pub none_passes : (p : Row → Bool) (xs : List Row) → any p xs ≡ false → All (λ x. p x ≡ false) xs
  none_passes p [] e = tt
  none_passes p (x ∷ xs) e = (ground arith, none_passes p xs (ground arith))

  -- Rows that fail a test before and after a change are not kept by it.
  pub keep-append_other :
      (q : Row → Bool) (xs : List Row) (x : Row) → q x ≡ false → keep q (xs ++ x ∷ []) ≡ keep q xs
  keep-append_other q [] x e = rw e refl
  keep-append_other q (y ∷ ys) x e = ground (arith, keep-append_other q ys x e)

  pub keep-update_other :
      (q p : Row → Bool) (change : Row → Row)
      → ((x : Row) → p x ≡ true → q (change x) ≡ false)
      → (xs : List Row) → All (λ x. p x ≡ true → q x ≡ false) xs
      → keep q (update_where p change xs) ≡ keep q xs
  keep-update_other q p change f [] h = refl
  keep-update_other q p change f (x ∷ xs) (g, h) = elim (Bool-cases (p x)) [
    | inl t ↦ rw (t, f x t, g t) (keep-update_other q p change f xs h)
    | inr t ↦ ground (arith, t, keep-update_other q p change f xs h)
  ]

  -- At most one row passes a test.
  abbrev pub AtMostOne : (Row → Bool) → List Row → Type 0
  AtMostOne q xs = length (keep q xs) ≤ 1

  pub keep-none :
      (q : Row → Bool) (xs : List Row) → All (λ x. q x ≡ false) xs → length (keep q xs) ≡ 0
  keep-none q [] h = refl
  keep-none q (x ∷ xs) (p, h) = rw p (keep-none q xs h)

  pub AtMostOne-append :
      (q : Row → Bool) (xs : List Row) (x : Row)
      → AtMostOne q xs
      → (q x ≡ true → All (λ y. q y ≡ false) xs)
      → AtMostOne q (xs ++ x ∷ [])
  AtMostOne-append q xs x h f = elim (Bool-cases (q x)) [
    | inl t ↦
        rw (keep-append q xs (x ∷ []), t)
          (omega (arith, length-append (keep q xs) (x ∷ []), keep-none q xs (f t)))
    | inr t ↦ rw (keep-append q xs (x ∷ []), t) (omega (arith, length-append (keep q xs) [], h))
  ]

  pub keep-update_where :
      (q p : Row → Bool) (change : Row → Row)
      → ((x : Row) → q (change x) ≡ q x)
      → (xs : List Row) → length (keep q (update_where p change xs)) ≡ length (keep q xs)
  keep-update_where q p change same [] = refl
  keep-update_where q p change same (x ∷ xs) =
      ground (arith, same x, keep-update_where q p change same xs)

  -- A change after which no row passes the test.
  pub keep-drop_where :
      (q p : Row → Bool) (change : Row → Row)
      → ((x : Row) → q (change x) ≡ false)
      → (xs : List Row) → length (keep q (update_where p change xs)) ≤ length (keep q xs)
  keep-drop_where q p change drops [] = omega arith
  keep-drop_where q p change drops (x ∷ xs) =
      ground (arith, drops x, keep-drop_where q p change drops xs)

  kept_found :
      (p q : Row → Bool)
      → ((x : Row) → p x ≡ true → q x ≡ true)
      → (xs : List Row) (y : Row) → find p xs ≡ some y
      → 1 ≤ length (keep q xs)
  kept_found p q f [] y e = cc e
  kept_found p q f (x ∷ xs) y e = elim (Bool-cases (p x)) [
    | inl t ↦ rw (f x t) (omega arith)
    | inr t ↦ ground (arith, kept_found p q f xs y (rw t at e))
  ]

  pub none_kept :
      (q : Row → Bool) (y : Row) (xs : List Row)
      → length (keep q xs) ≤ 0
      → All (λ x. q x ≡ true → x ≡ y) xs
  none_kept q y [] h = tt
  none_kept q y (x ∷ xs) h = elim (Bool-cases (q x)) [
    | inl t ↦ absurd (omega (arith, rw t at h))
    | inr t ↦ (λ e. cc, none_kept q y xs (rw t at h))
  ]

  -- The row that was found is the only one with a test that one row passes at most.
  pub only_found :
      (p q : Row → Bool)
      → ((x : Row) → p x ≡ true → q x ≡ true)
      → (xs : List Row) (y : Row) → find p xs ≡ some y
      → AtMostOne q xs
      → All (λ x. q x ≡ true → x ≡ y) xs
  only_found p q f [] y e h = tt
  only_found p q f (x ∷ xs) y e h = elim (Bool-cases (p x)) [
    | inl t ↦ (λ _. some_inj (rw t at e), none_kept q y xs (omega (arith, rw (f x t) at h)))
    | inr t ↦
        let e' : find p xs ≡ some y = rw t at e in
        elim (Bool-cases (q x)) [
          | inl u ↦ absurd (omega (arith, kept_found p q f xs y e', rw u at h))
          | inr u ↦ (λ v. cc, only_found p q f xs y e' (rw u at h))
        ]
  ]

module _ {Row : Type 0} (P : Row → Type 0) where
  pub find-Some : (p : Row → Bool) (xs : List Row) (x : Row) → find p xs ≡ some x → P x → Some P xs
  find-Some p [] x e h = cc e
  find-Some p (y ∷ ys) x e h = elim (Bool-cases (p y)) [
    | inl t ↦ inl (subst P (sym (some_inj (rw t at e))) h)
    | inr t ↦ inr (find-Some p ys x (rw t at e) h)
  ]

  pub All-keep : (q : Row → Bool) (xs : List Row) → All P xs → All P (keep q xs)
  All-keep q [] h = tt
  All-keep q (x ∷ xs) (a, h) = elim (Bool-cases (q x)) [
    | inl t ↦ rw t (a, All-keep q xs h)
    | inr t ↦ rw t (All-keep q xs h)
  ]

  pub Some-append : (xs ys : List Row) → Some P xs → Some P (xs ++ ys)
  Some-append [] ys h = absurd h
  Some-append (x ∷ xs) ys (inl h) = inl h
  Some-append (x ∷ xs) ys (inr h) = inr (Some-append xs ys h)

module _ {Row : Type 0} (P Q : Row → Type 0) where
  -- A row stays in a table that is updated, if the change keeps what it has.
  pub Some-update_where :
      (p : Row → Bool) (change : Row → Row)
      → ((x : Row) → P x → p x ≡ true → Q (change x))
      → ((x : Row) → P x → p x ≡ false → Q x)
      → (xs : List Row) → Some P xs
      → Some Q (update_where p change xs)
  Some-update_where p change f g [] h = absurd h
  Some-update_where p change f g (x ∷ xs) (inl h) = elim (Bool-cases (p x)) [
    | inl t ↦ inl (rw t (f x h t))
    | inr t ↦ inl (rw t (g x h t))
  ]
  Some-update_where p change f g (x ∷ xs) (inr h) = inr (Some-update_where p change f g xs h)

  pub Some-mono : ((x : Row) → P x → Q x) → (xs : List Row) → Some P xs → Some Q xs
  Some-mono f [] h = absurd h
  Some-mono f (x ∷ xs) (inl h) = inl (f x h)
  Some-mono f (x ∷ xs) (inr h) = inr (Some-mono f xs h)

  -- A change of the one row that was found keeps what all rows have, if it does so for that row.
  pub All-update_found :
      (p q : Row → Bool) (change : Row → Row)
      → ((x : Row) → p x ≡ true → q x ≡ true)
      → (xs : List Row) (y : Row) → find p xs ≡ some y
      → AtMostOne q xs
      → (P y → Q (change y))
      → ((x : Row) → P x → Q x)
      → All P xs
      → All Q (update_where q change xs)
  All-update_found p q change f xs y e one g k h = changed xs (only_found p q f xs y e one) h
    where
      changed :
          (zs : List Row)
          → All (λ x. q x ≡ true → x ≡ y) zs
          → All P zs
          → All Q (update_where q change zs)
      changed [] o a = tt
      changed (z ∷ zs) (o, os) (a, as_) = elim (Bool-cases (q z)) [
        | inl t ↦
            let same_row : z ≡ y = o t in
            (
              rw t (subst (λ r. Q (change r)) (sym same_row) (g (subst P same_row a))),
              changed zs os as_,
            )
        | inr t ↦ (rw t (k z a), changed zs os as_)
      ]
