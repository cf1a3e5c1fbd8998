-- ===== src/Pnl/Performance.antt =====
-- src/pnl.rs, `build_performance`: the drawdown of a curve and the PnL of the rolling windows.
use crypto_nav_manager.Base.{
  ℕ, ◌+◌, ◌-◌, leb, ◌==◌, Bool, ◌&&◌, Option, none, some, List, [], ◌∷◌, if◌then◌else◌,
}
use mathlib.Core.List.{foldl}
use crypto_nav_manager.Float.{Float}
use crypto_nav_manager.Pnl.{Literals, clean_zero}
use crypto_nav_manager.Pnl.States.{PnlPoint}

pub record RollingWindowPnl (F : Type 0) : Type 0 where
  pub window_ms : ℕ
  pub covered_ms : ℕ
  pub pnl_usdt : F
  pub annualized_return : Option F

pub record PnlPerformance (F : Type 0) : Type 0 where
  pub principal_usdt : Option F
  pub rolling_7d : Option (RollingWindowPnl F)
  pub rolling_30d : Option (RollingWindowPnl F)
  pub max_drawdown_usdt : F
  pub max_drawdown_ratio : Option F
  pub current_drawdown_usdt : F
  pub current_drawdown_ratio : Option F

-- The peak so far, and the largest drawdowns so far.
pub record Drawdown (F : Type 0) : Type 0 where
  pub peak_relative : F
  pub max_drawdown_usdt : F
  pub max_drawdown_ratio : F

abbrev pub filter_option : {A : Type 0} → (A → Bool) → Option A → Option A
filter_option test none = none
filter_option test (some a) = if test a then some a else none

abbrev pub map_option : {A B : Type 0} → (A → B) → Option A → Option B
map_option g none = none
map_option g (some a) = some (g a)

-- `find` of the boundary, and its value.
abbrev pub value_at : {F : Type 0} → ℕ → List (ℕ × F) → Option F
value_at boundary [] = none
value_at boundary ((ts, value) ∷ rest) =
    if ts == boundary then some value else value_at boundary rest

module _ {F : Type 0} where
  -- The `total_pnl_usdt` of the last point, or the default.
  abbrev pub last_total : F → List (PnlPoint F) → F
  last_total default [] = default
  last_total default (p ∷ ps) = last_total p.total_pnl_usdt ps

module _ {F : Type 0} ⦃f : Float F⦄ where
  open f use {nought, add, sub, div, mul, max, lt, is_finite}

  unfoldable pub drawdown_step : Option F → F → Drawdown F → PnlPoint F → Drawdown F
  drawdown_step principal end_relative d p =
      let peak = max d.peak_relative p.total_pnl_usdt in
      let drawdown = sub peak p.total_pnl_usdt in
      record {
        peak_relative = peak;
        max_drawdown_usdt = max d.max_drawdown_usdt drawdown;
        max_drawdown_ratio = elim principal [
          | none ↦ d.max_drawdown_ratio
          | some c ↦
              let peak_nav = sub (add c peak) end_relative in
              if lt nought peak_nav
              then max d.max_drawdown_ratio (div drawdown peak_nav)
              else d.max_drawdown_ratio
        ];
      }

  -- A principal counts where it is finite and positive.
  abbrev pub usable : Option F → Option F
  usable = filter_option (λ value. is_finite value && lt nought value)

  abbrev pub current_ratio : F → F → F → Option F → Option F
  current_ratio peak end_relative drawdown none = none
  current_ratio peak end_relative drawdown (some c) =
      let peak_nav = sub (add c peak) end_relative in
      if lt nought peak_nav then some (div drawdown peak_nav) else none

module _ {F : Type 0} ⦃f : Float F⦄ (literals : Literals F) where
  open f use {nought, add, sub, div, mul, max, lt, is_finite}

  -- The PnL of a window from its base, over the time that the strategy covers.
  unfoldable pub window_pnl : Option F → F → ℕ → ℕ → F → RollingWindowPnl F
  unfolding clean_zero
  window_pnl principal end_total window covered base =
      let pnl = clean_zero literals (sub end_total base) in
      record {
        window_ms = window;
        covered_ms = covered;
        pnl_usdt = pnl;
        annualized_return = filter_option is_finite (
            map_option (λ c. mul (div pnl c) (div literals.year_ms (literals.of_ms covered)))
              principal);
      }

  unfoldable pub rolling : ℕ → ℕ → Option F → List (ℕ × F) → F → ℕ → Option (RollingWindowPnl F)
  unfolding window_pnl
  rolling strategy_start end principal boundary_pnl end_total window =
      if leb (strategy_start + window) end
      then (if window == 0
          then none
          else map_option (window_pnl principal end_total window window)
              (value_at (end - window) boundary_pnl))
      else if leb end strategy_start
      then none
      else some (window_pnl principal end_total window (end - strategy_start) nought)

  unfoldable pub drawdown_of : Option F → List (PnlPoint F) → Drawdown F
  unfolding drawdown_step
  drawdown_of principal ps =
      foldl (drawdown_step principal (last_total nought ps))
        (record {
          peak_relative = literals.neg_infinity;
          max_drawdown_usdt = nought;
          max_drawdown_ratio = nought;
        })
        ps

  unfoldable pub build_performance :
      ℕ → ℕ → Option F → List (PnlPoint F) → List (ℕ × F) → F → PnlPerformance F
  unfolding drawdown_of rolling clean_zero
  build_performance strategy_start end principal_usdt ps boundary_pnl end_total =
      let principal = usable principal_usdt in
      let end_relative = last_total nought ps in
      let d = drawdown_of principal ps in
      let drawdown = max (sub d.peak_relative end_relative) nought in
      let clean = clean_zero literals in
      record {
        principal_usdt = principal;
        rolling_7d = rolling strategy_start end principal boundary_pnl end_total 604800000;
        rolling_30d = rolling strategy_start end principal boundary_pnl end_total 2592000000;
        max_drawdown_usdt = clean d.max_drawdown_usdt;
        max_drawdown_ratio = map_option (λ _. clean d.max_drawdown_ratio) principal;
        current_drawdown_usdt = clean drawdown;
        current_drawdown_ratio =
            map_option clean (current_ratio d.peak_relative end_relative drawdown principal);
      }
