-- ===== src/Float.antt =====
-- `f64`: the operations that the program uses, the facts of IEEE 754 that it relies on, and the
-- grids of values on which its arithmetic is exact. `Float.Sample` meets them.
pub mod Sample
use crypto_nav_manager.Base.{
  ℕ, ◌+◌, ◌-◌, ◌≤◌, ◌≡◌, ◌⊎◌, Bool, true, false, not, ltb, leb, ◌==◌, if◌then◌else◌,
}
use Prim.Native.Nat.{min}

pub record Float (F : Type 0) : Type 0 where
  pub nought : F
  pub one : F
  pub add : F → F → F
  pub sub : F → F → F
  pub mul : F → F → F
  pub div : F → F → F
  pub neg : F → F
  pub abs : F → F
  pub min : F → F → F
  pub max : F → F → F
  pub lt : F → F → Bool
  pub le : F → F → Bool
  pub eq : F → F → Bool
  pub is_finite : F → Bool
  pub is_nan : F → Bool

module _ {F : Type 0} ⦃f : Float F⦄ where
  abbrev pub IsFinite : F → Type 0
  IsFinite a = f.is_finite a ≡ true

  abbrev pub IsPositive : F → Type 0
  IsPositive a = (f.is_finite a ≡ true) × (f.lt f.nought a ≡ true)

module _ (F : Type 0) ⦃f : Float F⦄ where
  -- Facts of IEEE 754 arithmetic, all with NaN, the infinities and rounding in mind: `a - a` is +0.0
  -- for a finite `a`, and with gradual underflow `a - b` is positive where `b < a`.
  pub record IsIeee : Type 0 where
    pub nought_finite : f.is_finite f.nought ≡ true
    pub lt_nought : f.lt f.nought f.nought ≡ false
    pub eq_nought : f.eq f.nought f.nought ≡ true
    pub abs_nought : f.abs f.nought ≡ f.nought
    pub abs_positive : (a : F) → f.lt f.nought a ≡ true → f.abs a ≡ a
    pub eq_positive : (a : F) → f.lt f.nought a ≡ true → f.eq a f.nought ≡ false
    pub sub_self : (a : F) → IsFinite a → f.sub a a ≡ f.nought
    pub sub_positive :
        (a b : F) → IsPositive a → IsPositive b → f.lt b a ≡ true → IsPositive (f.sub a b)
    pub min_pick : (a b : F) → IsPositive a → IsPositive b → f.min a b ≡ (if f.lt b a then b else a)
    pub max_pick : (a b : F) → IsFinite a → IsFinite b → (f.max a b ≡ a) ⊎ (f.max a b ≡ b)
    pub max_nought : (a : F) → f.lt f.nought a ≡ true → f.max a f.nought ≡ a
    pub lt_connex :
        (a b : F) → IsPositive a → IsPositive b → f.lt b a ≡ false → (f.lt a b ≡ true) ⊎ (a ≡ b)
    pub lt_asym : (a b : F) → f.lt a b ≡ true → f.lt b a ≡ false
    pub le-not_lt : (a b : F) → IsFinite a → IsFinite b → f.le a b ≡ not (f.lt b a)
    pub le_lt_trans : (a b c : F) → f.le a b ≡ true → f.lt b c ≡ true → f.lt a c ≡ true

  -- Values that are a natural number of ticks, at most `limit` ticks (2^53 for `f64` and a tick that
  -- is a power of two): sums, differences and comparisons of these are exact.
  pub record Grid : Type 1 where
    pub Is : F → ℕ → Type 0
    pub limit : ℕ
    pub is_nought : Is f.nought 0
    pub is_finite : (a : F) (m : ℕ) → Is a m → f.is_finite a ≡ true
    pub is_add : (a b : F) (m n : ℕ) → Is a m → Is b n → m + n ≤ limit → Is (f.add a b) (m + n)
    pub is_sub : (a b : F) (m n : ℕ) → Is a m → Is b n → n ≤ m → Is (f.sub a b) (m - n)
    pub is_min : (a b : F) (m n : ℕ) → Is a m → Is b n → Is (f.min a b) (min m n)
    pub is_abs : (a : F) (m : ℕ) → Is a m → Is (f.abs a) m
    pub lt_ltb : (a b : F) (m n : ℕ) → Is a m → Is b n → f.lt a b ≡ ltb m n
    pub le_leb : (a b : F) (m n : ℕ) → Is a m → Is b n → f.le a b ≡ leb m n
    pub eq_== : (a b : F) (m n : ℕ) → Is a m → Is b n → f.eq a b ≡ m == n
