-- ===== src/Base/Sort.antt =====
-- `sort_by_key`: the stable sort, and its fixed points.
use mathlib.Core.Path.{◌≡◌, refl, ap, ◌∙◌}
use Prim.Native.Nat.{ℕ, suc, ◌≤◌}
use mathlib.Core.Bool.{Bool, true, false}
use native.Mathlib.Omega.{arith}
use crypto_nav_manager.Base.Lists.{All, length}
use mathlib.Core.List.{List, [], ◌∷◌, ◌++◌, Perm}
use mathlib.Core.List.Perm
use mathlib.Core.Logic.{inl, inr}
use crypto_nav_manager.Base.Tests.{if◌then◌else◌, Bool-cases}

module _ {A : Type 0} (le : A → A → Bool) where
  -- Before the first element that is not smaller, so that equal elements keep their order.
  unfoldable pub insert_sorted : A → List A → List A
  insert_sorted x [] = x ∷ []
  insert_sorted x (y ∷ ys) = if le x y then x ∷ y ∷ ys else y ∷ insert_sorted x ys

  unfoldable pub sort_by : List A → List A
  unfolding insert_sorted
  sort_by [] = []
  sort_by (x ∷ xs) = insert_sorted x (sort_by xs)

  -- Each element is at most the next.
  abbrev pub IsSorted : List A → Type 0
  IsSorted [] = Unit
  IsSorted (x ∷ []) = Unit
  IsSorted (x ∷ y ∷ ys) = (le x y ≡ true) × IsSorted (y ∷ ys)

  pub sort_by-of-IsSorted : (xs : List A) → IsSorted xs → sort_by xs ≡ xs
  unfolding sort_by
  sort_by-of-IsSorted [] s = refl
  sort_by-of-IsSorted (x ∷ []) s = refl
  sort_by-of-IsSorted (x ∷ y ∷ ys) (h, s) =
      ap (insert_sorted x) (sort_by-of-IsSorted (y ∷ ys) s) ∙ rw h

  insert_sorted-perm : (x : A) (xs : List A) → Perm (insert_sorted x xs) (x ∷ xs)
  unfolding insert_sorted
  insert_sorted-perm x [] = Perm.refl _
  insert_sorted-perm x (y ∷ ys) = elim (Bool-cases (le x y)) [
    | inl less ↦ rw less (Perm.refl _)
    | inr more ↦ rw more (Perm.trans (Perm.cons y (insert_sorted-perm x ys)) (Perm.swap x y ys))
  ]

  pub sort_by-perm : (xs : List A) → Perm (sort_by xs) xs
  unfolding sort_by
  sort_by-perm [] = Perm.refl _
  sort_by-perm (x ∷ xs) =
      Perm.trans (insert_sorted-perm x (sort_by xs)) (Perm.cons x (sort_by-perm xs))

  pub IsSorted-left : (xs ys : List A) → IsSorted (xs ++ ys) → IsSorted xs
  IsSorted-left [] ys s = tt
  IsSorted-left (x ∷ []) ys s = tt
  IsSorted-left (x ∷ y ∷ xs) ys (h, s) = (h, IsSorted-left (y ∷ xs) ys s)

  IsSorted-tail : (x : A) (xs : List A) → IsSorted (x ∷ xs) → IsSorted xs
  IsSorted-tail x [] s = tt
  IsSorted-tail x (y ∷ xs) (h, s) = s

  pub IsSorted-right : (xs ys : List A) → IsSorted (xs ++ ys) → IsSorted ys
  IsSorted-right [] ys s = s
  IsSorted-right (x ∷ xs) ys s = IsSorted-right xs ys (IsSorted-tail x (xs ++ ys) s)

-- The keys do not fall.
abbrev pub Chain : {A : Type 0} → (A → ℕ) → List A → Type 0
Chain key [] = Unit
Chain key (x ∷ xs) = All (λ y. key x ≤ key y) xs × Chain key xs

module _ {A : Type 0} (key : A → ℕ) where
  pub All-le_trans :
      {m n : ℕ} → m ≤ n → (xs : List A) → All (λ y. n ≤ key y) xs → All (λ y. m ≤ key y) xs
  All-le_trans h [] a = tt
  All-le_trans h (x ∷ xs) (p, a) = (omega arith, All-le_trans h xs a)

  pub Chain-right : (xs ys : List A) → Chain key (xs ++ ys) → Chain key ys
  Chain-right [] ys c = c
  Chain-right (x ∷ xs) ys (_, c) = Chain-right xs ys c

module _ {A : Type 0} (le : A → A → Bool) where
  pub insert_sorted-All :
      (P : A → Type 0) (x : A) (xs : List A) → P x → All P xs → All P (insert_sorted le x xs)
  unfolding insert_sorted
  insert_sorted-All P x [] h a = (h, tt)
  insert_sorted-All P x (y ∷ ys) h (p, a) = elim (Bool-cases (le x y)) [
    | inl e ↦ rw e (h, (p, a))
    | inr e ↦ rw e (p, insert_sorted-All P x ys h a)
  ]

  pub sort_by-All : (P : A → Type 0) (xs : List A) → All P xs → All P (sort_by le xs)
  unfolding sort_by
  sort_by-All P [] a = tt
  sort_by-All P (x ∷ xs) (h, a) = insert_sorted-All P x (sort_by le xs) h (sort_by-All P xs a)

module _ {A : Type 0} (key : A → ℕ) (le : A → A → Bool)
    (le_key : (x y : A) → le x y ≡ true → key x ≤ key y)
    (not_le_key : (x y : A) → le x y ≡ false → key y ≤ key x) where
  insert_sorted-Chain : (x : A) (xs : List A) → Chain key xs → Chain key (insert_sorted le x xs)
  unfolding insert_sorted
  insert_sorted-Chain x [] c = (tt, tt)
  insert_sorted-Chain x (y ∷ ys) (a, c) = elim (Bool-cases (le x y)) [
    | inl e ↦ rw e ((le_key x y e, All-le_trans key (le_key x y e) ys a), (a, c))
    | inr e ↦ rw e (
      insert_sorted-All le (λ z. key y ≤ key z) x ys (not_le_key x y e) a,
      insert_sorted-Chain x ys c,
    )
  ]

  -- The sort puts the keys in order.
  pub sort_by-Chain : (xs : List A) → Chain key (sort_by le xs)
  unfolding sort_by
  sort_by-Chain [] = tt
  sort_by-Chain (x ∷ xs) = insert_sorted-Chain x (sort_by le xs) (sort_by-Chain xs)

module _ {A : Type 0} (le : A → A → Bool) where
  insert_sorted-length : (x : A) (xs : List A) → length (insert_sorted le x xs) ≡ suc (length xs)
  unfolding insert_sorted
  insert_sorted-length x [] = refl
  insert_sorted-length x (y ∷ ys) = elim (Bool-cases (le x y)) [
    | inl e ↦ rw e
    | inr e ↦ rw e (ap suc (insert_sorted-length x ys))
  ]

  pub sort_by-length : (xs : List A) → length (sort_by le xs) ≡ length xs
  unfolding sort_by
  sort_by-length [] = refl
  sort_by-length (x ∷ xs) = insert_sorted-length x (sort_by le xs) ∙ ap suc (sort_by-length xs)
