-- ===== src/Prelude/Sorting.antt =====
-- `Array.prototype.sort` with a consistent comparator: a stable sort. `le a b` is `cmp(a, b) <= 0`.
use mathlib.Core.Path.{◌≡◌, refl, ap₂, ◌∙◌}
use mathlib.Core.Bool.{Bool, true, false}
use mathlib.Core.List.{List, [], ◌∷◌, Perm, Permᴰ, is_set}
use mathlib.Core.List.Perm
use native.Mathlib.Omega.{arith}
use claim_it_all.Prelude.Tests.{if◌then◌else◌, Bool-cases}
use claim_it_all.Prelude.Lists.{All}
use mathlib.Core.Logic.{inl, inr, ∥∥₁_elim}

module _ {ℓ} {A : Type ℓ} (le : A → A → Bool) where
  abbrev pub insert : A → List A → List A
  insert x [] = x ∷ []
  insert x (y ∷ ys) = let later = insert x ys in if le x y then x ∷ y ∷ ys else y ∷ later

  abbrev pub sort : List A → List A
  sort [] = []
  sort (x ∷ xs) = insert x (sort xs)

  abbrev pub IsSorted : List A → Type 0
  IsSorted [] = Unit {0}
  IsSorted (x ∷ xs) = All (λ y. le x y ≡ true) xs × IsSorted xs

module _ {ℓ} {A : Type ℓ} (le : A → A → Bool) where
  insert-perm : (x : A) (l : List A) → Perm (insert le x l) (x ∷ l)
  insert-perm x [] = Perm.rfl
  insert-perm x (y ∷ ys) = elim (Bool-cases (le x y)) [
    | inl e ↦ rw e Perm.rfl
    | inr e ↦ rw e (Perm.trans (Perm.cons y (insert-perm x ys)) (Perm.swap x y ys))
  ]

  -- Sorting rearranges.
  pub sort-perm : (l : List A) → Perm (sort le l) l
  sort-perm [] = Perm.rfl
  sort-perm (x ∷ xs) = Perm.trans (insert-perm x (sort le xs)) (Perm.cons x (sort-perm xs))

module _ {ℓ} {A : Type ℓ} (le : A → A → Bool) (total : (a b : A) → le a b ≡ false → le b a ≡ true)
    (trans : (a b c : A) → le a b ≡ true → le b c ≡ true → le a c ≡ true) where
  All-mono :
      (x y : A) (l : List A)
      → le x y ≡ true
      → All (λ z. le y z ≡ true) l
      → All (λ z. le x z ≡ true) l
  All-mono x y [] h k = tt
  All-mono x y (z ∷ l) h (k, ks) = (trans x y z h k, All-mono x y l h ks)

  All-insert :
      (z x : A) (l : List A)
      → le z x ≡ true
      → All (λ y. le z y ≡ true) l
      → All (λ y. le z y ≡ true) (insert le x l)
  All-insert z x [] h k = (h, tt)
  All-insert z x (y ∷ l) h (k, ks) = elim (Bool-cases (le x y)) [
    | inl e ↦ rw e (h, (k, ks))
    | inr e ↦ rw e (k, All-insert z x l h ks)
  ]

  insert-IsSorted : (x : A) (l : List A) → IsSorted le l → IsSorted le (insert le x l)
  insert-IsSorted x [] s = (tt, tt)
  insert-IsSorted x (y ∷ l) (h, s) = elim (Bool-cases (le x y)) [
    | inl e ↦ rw e ((e, All-mono x y l e h), (h, s))
    | inr e ↦ rw e (All-insert y x l (total x y e) h, insert-IsSorted x l s)
  ]

  -- The result is in order.
  pub sort-IsSorted : (l : List A) → IsSorted le (sort le l)
  sort-IsSorted [] = tt
  sort-IsSorted (x ∷ xs) = insert-IsSorted x (sort le xs) (sort-IsSorted xs)

  module _ (antisymm : (a b : A) → le a b ≡ true → le b a ≡ true → a ≡ b) where
    insert_comm : (x y : A) (l : List A) → insert le x (insert le y l) ≡ insert le y (insert le x l)
    insert_comm x y [] = ground (arith, total x y, total y x, antisymm x y)
    insert_comm x y (z ∷ l) =
        ground
          (arith, total x y, total y x, antisymm x y, trans x y z, trans y x z, insert_comm x y l)

    sort-Permᴰ : {l r : List A} → Permᴰ l r → sort le l ≡ sort le r
    sort-Permᴰ Permᴰ.nil = refl
    sort-Permᴰ (Permᴰ.cons e p) = ap₂ (insert le) e (sort-Permᴰ p)
    sort-Permᴰ (Permᴰ.swap {a} {b} {l} p q) =
        insert_comm a b (sort le l) ∙ ap₂ (λ u v. insert le u (insert le v (sort le l))) q p
    sort-Permᴰ (Permᴰ.trans p q) = sort-Permᴰ p ∙ sort-Permᴰ q

    -- The result does not depend on the order of the input.
    pub sort-perm_eq : IsSet A → {l r : List A} → Perm l r → sort le l ≡ sort le r
    sort-perm_eq set p = ∥∥₁_elim p (is_set set _ _) sort-Permᴰ
