-- ===== src/Float/Sample.antt =====
-- A model of the laws of `Float`: signed whole numbers, and one value for NaN.
use crypto_nav_manager.Base.{
  ℕ, zero, suc, ◌+◌, ◌*◌, ◌/◌, ◌≡◌, refl, Bool, true, false, not, arith, ◌==◌, if◌then◌else◌,
}
use crypto_nav_manager.Base.Int.{
  ℤ, pos, negsuc, pos_part, neg_part, sub_ℕ, ◌+ℤ◌, ◌-ℤ◌, ◌*ℤ◌, ltb_ℤ, leb_ℤ, eqb_ℤ,
}
use crypto_nav_manager.Float.{Float, IsIeee, Grid}

pub data Sample : Type 0 where
  num : ℤ → Sample
  nan : Sample

abbrev lift : (ℤ → ℤ → ℤ) → Sample → Sample → Sample
lift g (num a) (num b) = num (g a b)
lift g _ _ = nan

abbrev test : (ℤ → ℤ → Bool) → Sample → Sample → Bool
test g (num a) (num b) = g a b
test g _ _ = false

-- `min` and `max` pass over a NaN.
abbrev pick : (ℤ → ℤ → Bool) → Sample → Sample → Sample
pick g (num a) (num b) = if g b a then num b else num a
pick g (num a) nan = num a
pick g nan b = b

-- Division towards zero; by zero it gives NaN.
abbrev quotient : ℤ → ℤ → Sample
quotient a (pos b) = if b == 0 then nan else num (sub_ℕ (pos_part a / b) (neg_part a / b))
quotient a (negsuc b) = num (sub_ℕ (neg_part a / (b + 1)) (pos_part a / (b + 1)))

abbrev divide : Sample → Sample → Sample
divide (num a) (num b) = quotient a b
divide _ _ = nan

abbrev negate : Sample → Sample
negate (num a) = num (sub_ℕ (neg_part a) (pos_part a))
negate nan = nan

abbrev magnitude : Sample → Sample
magnitude (num a) = num (pos (pos_part a + neg_part a))
magnitude nan = nan

abbrev is_number : Sample → Bool
is_number (num a) = true
is_number nan = false

instance abbrev pub sample_float : Float Sample
sample_float = record {
  nought = num (pos 0);
  one = num (pos 1);
  add = lift ◌+ℤ◌;
  sub = lift ◌-ℤ◌;
  mul = lift ◌*ℤ◌;
  div = divide;
  neg = negate;
  abs = magnitude;
  min = pick ltb_ℤ;
  max = pick (λ a b. ltb_ℤ b a);
  lt = test ltb_ℤ;
  le = test leb_ℤ;
  eq = test eqb_ℤ;
  is_finite = is_number;
  is_nan = λ a. not (is_number a);
}

abbrev pub units : ℕ → Sample
units n = num (pos n)

pub Sample-IsIeee : IsIeee Sample
unfolding ◌+ℤ◌ ◌-ℤ◌ ◌*ℤ◌
Sample-IsIeee = record {
  nought_finite = refl;
  lt_nought = refl;
  eq_nought = refl;
  abs_nought = refl;
  abs_positive = ground arith;
  eq_positive = ground arith;
  sub_self = ground arith;
  sub_positive = ground arith;
  min_pick = ground arith;
  max_pick = ground arith;
  max_nought = ground arith;
  lt_connex = ground arith;
  lt_asym = ground arith;
  le-not_lt = ground arith;
  le_lt_trans = ground arith;
}

unfoldable pub sample_grid : ℕ → Grid Sample
unfolding ◌+ℤ◌ ◌-ℤ◌ ◌*ℤ◌
sample_grid limit = record {
  Is = λ a n. a ≡ units n;
  limit = limit;
  is_nought = refl;
  is_finite = ground arith;
  is_add = ground arith;
  is_sub = ground arith;
  is_min = ground arith;
  is_abs = ground arith;
  lt_ltb = ground arith;
  le_leb = ground arith;
  eq_== = ground arith;
}

abbrev ten_to : ℕ → ℕ
ten_to zero = 1
ten_to (suc k) = 10 * ten_to k

-- The whole number next to m / 10 ^ k.
abbrev pub nearest : ℕ → ℕ → Sample
nearest m k = num (pos ((2 * m + ten_to k) / (2 * ten_to k)))
