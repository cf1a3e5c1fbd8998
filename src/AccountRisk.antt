-- ===== src/AccountRisk.antt =====
-- src/account_risk.rs: feeds, readings and the cache of the latest reading of each strategy. Texts are
-- their bytes; a clock that stands before 1970 reads 0, so the times received are natural numbers.
pub mod Wire
pub mod Cache
pub mod Decoding
pub mod Newest
pub mod Examples
use crypto_nav_manager.Base.{
  ℕ, leb, ltb, ◌==◌, Bool, true, false, ◌&&◌, ◌||◌, not, Option, none, some, List, ◌++◌, length,
  if◌then◌else◌,
}
use crypto_nav_manager.Base.Int.{ℤ}
use crypto_nav_manager.Base.Text.{codes, bytes_eq, is_ascii_digit, all}

pub record AccountRiskFeed : Type 0 where
  pub strategy_slug : List ℕ
  pub exchange : List ℕ
  pub service_name : List ℕ
  pub sort_order : ℤ

abbrev pub is_direct : List ℕ → Bool
is_direct exchange =
    bytes_eq exchange (codes "binance")
    || bytes_eq exchange (codes "gate")
    || bytes_eq exchange (codes "bitget")
    || bytes_eq exchange (codes "bybit")

unfoldable pub service_exchange : List ℕ → Option (List ℕ)
service_exchange exchange =
    if is_direct exchange
    then some exchange
    else if bytes_eq exchange (codes "okx")
    then some (codes "okex")
    else none

unfoldable pub new : List ℕ → List ℕ → ℤ → Option AccountRiskFeed
unfolding service_exchange
new slug exchange order = elim (service_exchange exchange) [
  | none ↦ none
  | some service ↦ some (record {
    strategy_slug = slug;
    exchange = exchange;
    service_name = slug ++ codes "/account_pubs/" ++ service ++ codes "_pm";
    sort_order = order;
  })
]

unfoldable pub rapidx_exchange : List ℕ → Option (List ℕ)
rapidx_exchange exchange =
    if bytes_eq exchange (codes "binance")
    then some (codes "binance")
    else if bytes_eq exchange (codes "okx")
    then some (codes "okex")
    else none

unfoldable pub rapidx : List ℕ → List ℕ → List ℕ → ℤ → Option AccountRiskFeed
unfolding rapidx_exchange is_ascii_digit
rapidx slug exchange portfolio_id order = elim (rapidx_exchange exchange) [
  | none ↦ none
  | some service ↦
      if length portfolio_id == 0
        || ltb 64 (length portfolio_id)
        || not (all is_ascii_digit portfolio_id)
      then none
      else some (record {
        strategy_slug = slug;
        exchange = exchange;
        service_name =
            slug
            ++ codes "/account_pubs/rapidx_"
            ++ service
            ++ codes "_"
            ++ portfolio_id
            ++ codes "_pm";
        sort_order = order;
      })
]

pub data AccountScope : Type 0 where
  binance_unified binance_standard_spot binance_standard_um okx_unified : AccountScope
  gate_unified bitget_unified bybit_unified : AccountScope

unfoldable pub decode : ℕ → Option AccountScope
decode value =
    if value == 1
    then some binance_unified
    else if value == 2
    then some binance_standard_spot
    else if value == 3
    then some binance_standard_um
    else if value == 10
    then some okx_unified
    else if value == 11
    then some gate_unified
    else if value == 12
    then some bitget_unified
    else if value == 13
    then some bybit_unified
    else none

unfoldable pub as_str : AccountScope → List ℕ
as_str binance_unified = codes "binance_unified"
as_str binance_standard_spot = codes "binance_std_spot"
as_str binance_standard_um = codes "binance_std_um"
as_str okx_unified = codes "okx_unified"
as_str gate_unified = codes "gate_unified"
as_str bitget_unified = codes "bitget_unified"
as_str bybit_unified = codes "bybit_unified"

pub record AccountRiskReading (F : Type 0) : Type 0 where
  pub source_ts_ms : ℤ
  pub scope : AccountScope
  pub adjusted_equity_usd : F
  pub actual_equity_usd : F
  pub maintenance_margin_usd : F
  pub initial_margin_usd : F
  pub margin_ratio : F
  pub borrowed_usd : F
  pub notional_usd : F
  pub received_at_ms : ℕ

-- The constants of `f64` that the code compares with.
pub record Limits (F : Type 0) : Type 0 where
  pub epsilon : F
  pub infinity : F
  pub free_above : F
  pub warning_above : F
  pub reduce_above : F
