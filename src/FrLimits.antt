-- ===== src/FrLimits.antt =====
-- src/fr_position_limits.rs: how close the positions of a funding-rate strategy are to the limits of its
-- exchange. Texts are their bytes, and counts are natural numbers.
pub mod Symbols
pub mod Exchange
pub mod Answers
pub mod Rows
pub mod Tables
pub mod Monitor
pub mod Grouping
pub mod Naming
pub mod Spellings
pub mod Limits
pub mod Displayed
pub mod Health
pub mod Examples
use Prim.Native.String.{String}
use crypto_nav_manager.Base.{
  ℕ, Bool, true, false, ◌&&◌, Option, none, some, List, [], ◌∷◌, if◌then◌else◌,
}
use crypto_nav_manager.Base.Int.{ℤ, pos, max_ℤ}
use crypto_nav_manager.Base.Maps.{lookup}
use crypto_nav_manager.Base.Text.{bytes_key}
use crypto_nav_manager.Float.{Float}

-- The literals of the code: `f64::EPSILON`, 0.90, 1.0 (twice), 100.0 and -1.0; `as f64` of a number of
-- orders; and the standard library's `total_cmp`, as "not greater".
pub record Constants (F : Type 0) : Type 0 where
  pub epsilon : F
  pub alert_threshold_ratio : F
  pub position_display_min_usd : F
  pub default_amount_u : F
  pub minus_one : F
  pub of_i32 : ℤ → F
  pub total_le : F → F → Bool

-- Their values: `decimal m k` is the double next to m / 10 ^ k. The theorems hold for all values.
abbrev pub program_constants :
    {F : Type 0} ⦃f : Float F⦄ → (ℕ → ℕ → F) → (ℤ → F) → (F → F → Bool) → Constants F
program_constants ⦃f = f⦄ decimal of_i32 total_le = record {
  epsilon = decimal 2220446049250313 31;
  alert_threshold_ratio = decimal 90 2;
  position_display_min_usd = decimal 1 0;
  default_amount_u = decimal 100 0;
  minus_one = f.neg (decimal 1 0);
  of_i32 = of_i32;
  total_le = total_le;
}

-- A JSON object as the code reads it: the texts and numbers of its fields, and those of the brackets that
-- it may list.
pub record Fields (F : Type 0) : Type 0 where
  pub text : String → Option (List ℕ)
  pub number : String → Option F
  pub brackets : List (String → Option F)

pub record SnapshotPosition (F : Type 0) : Type 0 where
  pub asset : List ℕ
  pub open_usdt : Option F
  pub futures_usdt : Option F

pub record GuardParams (F : Type 0) : Type 0 where
  pub pending_buy : ℤ
  pub pending_sell : ℤ
  pub default_amount_u : F
  pub amount_u_overrides : List (List ℕ × F)

pub record BinanceLimit (F : Type 0) : Type 0 where
  pub symbol : List ℕ
  pub symbol_config_limit : Option F
  pub position_risk_limit : Option F
  pub bracket_limit : Option F
  pub leverage : Option F
  pub current_notional : Option F

pub record GateLimit (F : Type 0) : Type 0 where
  pub contract : List ℕ
  pub risk_limit : F
  pub current_notional : F
  pub cross_leverage_limit : Option F

abbrev pub or_else : {A : Type 0} → Option A → A → A
or_else none a = a
or_else (some b) a = b

abbrev pub first : {A : Type 0} → Option A → Option A → Option A
first none o = o
first (some a) o = some a

abbrev pub filter_option : {A : Type 0} → (A → Bool) → Option A → Option A
filter_option test none = none
filter_option test (some a) = if test a then some a else none

abbrev pub map_option : {A B : Type 0} → (A → B) → Option A → Option B
map_option g none = none
map_option g (some a) = some (g a)

abbrev pub and_then : {A B : Type 0} → Option A → (A → Option B) → Option B
and_then none g = none
and_then (some a) g = g a

abbrev pub is_some : {A : Type 0} → Option A → Bool
is_some none = false
is_some (some a) = true

module _ {F : Type 0} where
  unfoldable pub amount_u : GuardParams F → List ℕ → F
  unfolding lookup
  amount_u params symbol = or_else (lookup symbol params.amount_u_overrides) params.default_amount_u

module _ {F : Type 0} ⦃f : Float F⦄ where
  open f use {nought, add, min, lt, is_finite}

  unfoldable pub pending_for_position : GuardParams F → F → ℤ
  pending_for_position params position_notional =
      max_ℤ
        (if lt position_notional nought
          then params.pending_buy
          else if lt nought position_notional
          then params.pending_sell
          else max_ℤ params.pending_buy params.pending_sell)
        (pos 0)

  unfoldable pub positive : Option F → Option F
  positive = filter_option (λ value. is_finite value && lt nought value)

  unfoldable pub minimum_positive : Option F → Option F → Option F
  unfolding positive
  minimum_positive left right = elim (positive left) [
    | none ↦ positive right
    | some a ↦ elim (positive right) [ none ↦ some a | some b ↦ some (min a b) ]
  ]

  unfoldable pub add_optional : Option F → Option F → Option F
  add_optional none right = right
  add_optional (some a) none = some a
  add_optional (some a) (some b) = some (add a b)

  -- The smaller of the symbol's cap and its bracket's.
  abbrev pub capped : Option F → F → F
  capped none bracket = bracket
  capped (some current) bracket = min current bracket

  unfoldable pub effective_limit : BinanceLimit F → Option F
  unfolding positive
  effective_limit limit =
      let cap = first (positive limit.symbol_config_limit) (positive limit.position_risk_limit) in
      elim (positive limit.bracket_limit) [ none ↦ cap | some bracket ↦ some (capped cap bracket) ]
