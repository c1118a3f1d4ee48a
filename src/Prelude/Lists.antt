-- ===== src/Prelude/Lists.antt =====
-- Lists measured by native numbers, with Boolean tests: `Array` methods of the source.
use Prim.Native.Nat.{ℕ, suc, ◌+◌, ◌≤◌}
use mathlib.Core.Path.{◌≡◌, refl, ap, sym, ◌∙◌}
use mathlib.Core.Logic.{◌⊎◌, ◌↔◌, inl, inr}
use mathlib.Core.Bool.{Bool, true, false, not, ◌&&◌, ◌||◌, and-eq-true_iff}
use mathlib.Core.Option.{Option, none, some}
use mathlib.Core.List.{List, [], ◌∷◌, ◌++◌}
use native.Mathlib.Omega.{arith}
use mathlib.Core.Path.{subst}
use claim_it_all.Prelude.Tests.{if◌then◌else◌, Bool-cases, Bool-antisymm, some_inj}

module _ {ℓ} {A : Type ℓ} where
  abbrev pub length : List A → ℕ
  length [] = 0
  length (x ∷ xs) = suc (length xs)

  -- `xs.every(p)`
  abbrev pub all : (A → Bool) → List A → Bool
  all p [] = true
  all p (x ∷ xs) = p x && all p xs

  -- `xs.some(p)`
  abbrev pub any : (A → Bool) → List A → Bool
  any p [] = false
  any p (x ∷ xs) = p x || any p xs

  -- `xs.filter(p)`
  abbrev pub keep : (A → Bool) → List A → List A
  keep p [] = []
  keep p (x ∷ xs) = let rest = keep p xs in if p x then x ∷ rest else rest

  -- `xs.find(p)`
  abbrev pub find : (A → Bool) → List A → Option A
  find p [] = none
  find p (x ∷ xs) = if p x then some x else find p xs

  -- `tx.row.update({ where, data })`: the rows that pass the test, changed.
  abbrev pub update_where : (A → Bool) → (A → A) → List A → List A
  update_where p f [] = []
  update_where p f (x ∷ xs) = (if p x then f x else x) ∷ update_where p f xs

  abbrev pub null : List A → Bool
  null [] = true
  null (x ∷ xs) = false

module _ {ℓ} {A : Type ℓ} where
  pub length-append : (xs ys : List A) → length (xs ++ ys) ≡ length xs + length ys
  length-append [] ys = omega arith
  length-append (x ∷ xs) ys = omega (arith, length-append xs ys)

  pub length-keep-le : (p : A → Bool) (xs : List A) → length (keep p xs) ≤ length xs
  length-keep-le p [] = omega arith
  length-keep-le p (x ∷ xs) = ground (arith, length-keep-le p xs)

  pub keep-append : (p : A → Bool) (xs ys : List A) → keep p (xs ++ ys) ≡ keep p xs ++ keep p ys
  keep-append p [] ys = refl
  keep-append p (x ∷ xs) ys = ground (arith, keep-append p xs ys)

-- A predicate on each element, by recursion: it computes to a tuple.
module _ {ℓ κ} {A : Type ℓ} (P : A → Type κ) where
  abbrev pub All : List A → Type κ
  All [] = Unit
  All (x ∷ xs) = P x × All xs

  pub All-append : (xs ys : List A) → All xs → All ys → All (xs ++ ys)
  All-append [] ys h k = k
  All-append (x ∷ xs) ys (p, h) k = (p, All-append xs ys h k)

module _ {ℓ κ μ} {A : Type ℓ} (P : A → Type κ) (Q : A → Type μ) where
  pub All-mono : ((x : A) → P x → Q x) → (xs : List A) → All P xs → All Q xs
  All-mono f [] h = tt
  All-mono f (x ∷ xs) (p, h) = (f x p, All-mono f xs h)

  -- What holds of the changed rows and of the others holds of the rows after an update.
  pub All-update_where :
      (p : A → Bool) (change : A → A)
      → ((x : A) → P x → p x ≡ true → Q (change x))
      → ((x : A) → P x → p x ≡ false → Q x)
      → (xs : List A) → All P xs
      → All Q (update_where p change xs)
  All-update_where p change f g [] h = tt
  All-update_where p change f g (x ∷ xs) (q, h) = elim (Bool-cases (p x)) [
    | inl e ↦ (rw e (f x q e), All-update_where p change f g xs h)
    | inr e ↦ (rw e (g x q e), All-update_where p change f g xs h)
  ]

module _ {ℓ κ} {A : Type ℓ} (P : A → Type κ) where
  -- A row that was found is one of the table, and passes the test.
  pub find-All :
      (p : A → Bool) (xs : List A) (x : A) → find p xs ≡ some x → All P xs → P x × (p x ≡ true)
  find-All p [] x e h = cc e
  find-All p (y ∷ ys) x e (q, h) = elim (Bool-cases (p y)) [
    | inl f ↦
        let same_row : y ≡ x = some_inj (rw f at e) in (subst P same_row q, ap p (sym same_row) ∙ f)
    | inr f ↦ find-All p ys x (rw f at e) h
  ]

-- An element with a property, and where it stands.
abbrev pub Some {ℓ} : {A : Type ℓ} → (A → Type 0) → List A → Type 0
Some P [] = ⊥
Some P (x ∷ xs) = P x ⊎ Some P xs

-- `===`, from a decision.
abbrev pub same {ℓ} : {A : Type ℓ} → Discrete A → A → A → Bool
same dec a b = elim (dec a b) [ yes _ ↦ true | no _ ↦ false ]

pub same_iff {ℓ} : {A : Type ℓ} (dec : Discrete A) (a b : A) → (same dec a b ≡ true) ↔ (a ≡ b)
same_iff dec a b =
    elim (dec a b)
      as (λ d. (elim d as (λ _. Bool) [ yes _ ↦ true | no _ ↦ false ] ≡ true) ↔ (a ≡ b)) [
        | yes e ↦ (λ _. e, λ _. refl)
        | no ne ↦ (λ h. cc, λ e. absurd (ne e))
      ]

-- `[...new Set(xs)]`: the first occurrence of each element.
abbrev pub distinct {ℓ} : {A : Type ℓ} → (A → A → Bool) → List A → List A
distinct eq [] = []
distinct eq (x ∷ xs) = x ∷ keep (λ y. not (eq y x)) (distinct eq xs)

-- `xs.includes(a)`
abbrev pub includes {ℓ} : {A : Type ℓ} → (A → A → Bool) → List A → A → Bool
includes eq [] a = false
includes eq (x ∷ xs) a = eq x a || includes eq xs a

module _ {ℓ} {A : Type ℓ} where
  pub all-not-any : (p : A → Bool) (xs : List A) → all (λ x. not (p x)) xs ≡ not (any p xs)
  all-not-any p [] = refl
  all-not-any p (x ∷ xs) = ground (arith, all-not-any p xs)

  pub all_mono :
      (p q : A → Bool) (xs : List A)
      → ((x : A) → p x ≡ true → q x ≡ true)
      → all p xs ≡ true
      → all q xs ≡ true
  all_mono p q [] h a = refl
  all_mono p q (x ∷ xs) h a = ground (arith, h x, all_mono p q xs h)

  pub any_mono :
      (p q : A → Bool) (xs : List A)
      → ((x : A) → p x ≡ true → q x ≡ true)
      → any p xs ≡ true
      → any q xs ≡ true
  any_mono p q [] h a = a
  any_mono p q (x ∷ xs) h a = ground (arith, h x, any_mono p q xs h)

  pub all-keep : (p q : A → Bool) (xs : List A) → all p xs ≡ true → all p (keep q xs) ≡ true
  all-keep p q [] h = refl
  all-keep p q (x ∷ xs) h = ground (arith, all-keep p q xs)

module _ {ℓ} {A : Type ℓ} (eq : A → A → Bool) (eq_iff : (a b : A) → (eq a b ≡ true) ↔ (a ≡ b))
    (p : A → Bool) where
  all-keep_ne :
      (x : A) (xs : List A)
      → p x ≡ true
      → all p (keep (λ y. not (eq y x)) xs) ≡ true
      → all p xs ≡ true
  all-keep_ne x [] px h = refl
  all-keep_ne x (y ∷ ys) px h = elim (Bool-cases (eq y x)) [
    | inl e ↦
        let same_y : p y ≡ true = ap p ((eq_iff y x).0 e) ∙ px in
        rw same_y (all-keep_ne x ys px (rw e at h))
    | inr e ↦
        let (head, tail) =
          (and-eq-true_iff (p y) (all p (keep (λ z. not (eq z x)) ys))).0 (rw e at h) in
        rw head (all-keep_ne x ys px tail)
  ]

  all-distinct_to : (xs : List A) → all p (distinct eq xs) ≡ true → all p xs ≡ true
  all-distinct_to [] h = refl
  all-distinct_to (x ∷ xs) h =
      let (head, tail) =
        (and-eq-true_iff (p x) (all p (keep (λ y. not (eq y x)) (distinct eq xs)))).0 h in
      rw head (all-distinct_to xs (all-keep_ne x (distinct eq xs) head tail))

  all-distinct_from : (xs : List A) → all p xs ≡ true → all p (distinct eq xs) ≡ true
  all-distinct_from [] h = refl
  all-distinct_from (x ∷ xs) h =
      let (head, tail) = (and-eq-true_iff (p x) (all p xs)).0 h in
      rw head (all-keep p (λ y. not (eq y x)) (distinct eq xs) (all-distinct_from xs tail))

  -- A test of every member of the set is a test of every member of the list.
  pub all-distinct : (xs : List A) → all p (distinct eq xs) ≡ all p xs
  all-distinct xs = Bool-antisymm (all-distinct_to xs) (all-distinct_from xs)

  all_to_includes : (xs : List A) → all p xs ≡ true → (a : A) → includes eq xs a ≡ true → p a ≡ true
  all_to_includes [] h a m = ground arith
  all_to_includes (x ∷ xs) h a m = elim (Bool-cases (eq x a)) [
    | inl e ↦ ap p (sym ((eq_iff x a).0 e)) ∙ ((and-eq-true_iff _ _).0 h).0
    | inr e ↦ all_to_includes xs ((and-eq-true_iff _ _).0 h).1 a (rw e at m)
  ]

  includes_to_all :
      (xs : List A) → ((a : A) → includes eq xs a ≡ true → p a ≡ true) → all p xs ≡ true
  includes_to_all [] f = refl
  includes_to_all (x ∷ xs) f =
      rw (f x (rw ((eq_iff x x).1 refl) refl))
        (includes_to_all xs (λ a m. f a (rw m (ground arith))))

  -- `every` tests the members.
  pub all_iff_includes :
      (xs : List A) → (all p xs ≡ true) ↔ ((a : A) → includes eq xs a ≡ true → p a ≡ true)
  all_iff_includes xs = (all_to_includes xs, includes_to_all xs)

module _ {ℓ} {A : Type ℓ} (eq : A → A → Bool) (eq_iff : (a b : A) → (eq a b ≡ true) ↔ (a ≡ b)) where
  -- So it does not depend on the order of the list, nor on repetitions.
  pub all-SameMembers :
      (p : A → Bool) (xs ys : List A)
      → ((a : A) → includes eq xs a ≡ includes eq ys a)
      → all p xs ≡ all p ys
  all-SameMembers p xs ys h =
      Bool-antisymm
        (λ e. includes_to_all eq eq_iff p ys λ a m. all_to_includes eq eq_iff p xs e a (h a ∙ m))
        (λ e.
          includes_to_all eq eq_iff p xs λ a m. all_to_includes eq eq_iff p ys e a (sym (h a) ∙ m))

module _ {ℓ} {A : Type ℓ} where
  -- A member that fails a test, found by another test.
  pub any-all-false :
      (p q : A → Bool) (xs : List A)
      → ((x : A) → p x ≡ true → q x ≡ false)
      → any p xs ≡ true
      → all q xs ≡ false
  any-all-false p q [] h a = ground arith
  any-all-false p q (x ∷ xs) h a = ground (arith, h x, any-all-false p q xs h)

  pub any-null-false : (p : A → Bool) (xs : List A) → any p xs ≡ true → null xs ≡ false
  any-null-false p [] h = ground arith
  any-null-false p (x ∷ xs) h = refl
