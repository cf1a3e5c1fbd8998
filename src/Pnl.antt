-- ===== src/Pnl.antt =====
-- src/pnl.rs: trades, funding and interest of a strategy, the events made of them, and how its source
-- treats them. Texts are their bytes; times are milliseconds since 1970, and like the counters they
-- are natural numbers.
pub mod Venue
pub mod Symbol
pub mod States
pub mod Curve
pub mod Track
pub mod Performance
pub mod Response
pub mod Calculate
pub mod Overview
pub mod Charges
pub mod Inputs
pub mod Nearest
pub mod Loading
pub mod LoadExamples
pub mod Total
pub mod Symbols
pub mod Totality
pub mod RunExamples
pub mod Books
pub mod Isolation
pub mod Ticks
pub mod Extrema
pub mod Order
pub mod Captures
pub mod Boundaries
pub mod Examples
use Prim.Native.String.{String}
use crypto_nav_manager.Base.{
  ℕ, ◌*◌, leb, ltb, ◌==◌, Bool, true, false, ◌&&◌, ◌||◌, Option, none, some, List, if◌then◌else◌,
}
use crypto_nav_manager.Base.Text.{codes, bytes_eq, bytes_before}
use crypto_nav_manager.Float.{Float}
use crypto_nav_manager.Fifo.{Side, FifoPnlError}

pub data PnlSourceKind : Type 0 where
  intra funding_rate market_making futures_market_making cta : PnlSourceKind

unfoldable pub for_strategy : List ℕ → List ℕ → List ℕ → Option PnlSourceKind
for_strategy kind exchange mode =
    let is = bytes_eq in
    let unified = is mode (codes "unified") in
    let binance = is exchange (codes "binance") in
    let usdm = binance && is mode (codes "usdm_futures") in
    let rapidx = binance && is mode (codes "rapidx") in
    let bybit_or_gate = is exchange (codes "bybit") || is exchange (codes "gate") in
    if is kind (codes "intra_exchange") && (usdm || bybit_or_gate && unified)
    then some intra
    else if is kind (codes "funding_rate")
        && (binance && is mode (codes "portfolio_margin")
            || (bybit_or_gate || is exchange (codes "bitget")) && unified)
    then some funding_rate
    else if is kind (codes "market_making")
        && (usdm || (bybit_or_gate || is exchange (codes "okx")) && unified)
    then some market_making
    else if is kind (codes "market_making") && rapidx
    then some futures_market_making
    else if is kind (codes "cta") && usdm
    then some cta
    else if is kind (codes "cta") && rapidx
    then some funding_rate
    else none

unfoldable pub adapter_name : PnlSourceKind → String
adapter_name intra = "spot_swap_history_v1"
adapter_name funding_rate = "spot_swap_history_v1"
adapter_name market_making = "market_making_futures_v1"
adapter_name futures_market_making = "market_making_futures_qty"
adapter_name cta = "cta_futures_v1"

unfoldable pub interest_included : PnlSourceKind → List ℕ → Bool
interest_included funding_rate exchange =
    bytes_eq exchange (codes "binance")
    || bytes_eq exchange (codes "bybit")
    || bytes_eq exchange (codes "gate")
    || bytes_eq exchange (codes "bitget")
interest_included intra exchange =
    bytes_eq exchange (codes "bybit") || bytes_eq exchange (codes "gate")
interest_included market_making exchange = false
interest_included futures_market_making exchange = false
interest_included cta exchange = false

pub data PositionLeg : Type 0 where
  spot futures : PositionLeg

pub record NormalizedTrade (F : Type 0) : Type 0 where
  pub symbol : List ℕ
  pub side : Side
  pub leg : PositionLeg
  pub price : F
  pub amount_u : F
  pub quantity : F
  pub fee_usdt : Option F
  pub ts : ℕ

pub record FundingEvent (F : Type 0) : Type 0 where
  pub symbol : List ℕ
  pub amount_usdt : F
  pub ts : ℕ

pub record InterestEvent (F : Type 0) : Type 0 where
  pub symbol : List ℕ
  pub cost_usdt : Option F
  pub conversion_price : Option F
  pub spot_quantity_delta : F
  pub ts : ℕ

pub record InitialPosition (F : Type 0) : Type 0 where
  pub symbol : List ℕ
  pub spot_quantity : F
  pub futures_quantity : F
  pub mark_price : F

pub record PnlInputs (F : Type 0) : Type 0 where
  pub trades : List (NormalizedTrade F)
  pub funding : List (FundingEvent F)
  pub interest : List (InterestEvent F)
  pub initial_positions : List (InitialPosition F)

pub data PnlEvent (F : Type 0) : Type 0 where
  trade : NormalizedTrade F → PnlEvent F
  funded : FundingEvent F → PnlEvent F
  charged : InterestEvent F → PnlEvent F

pub data PnlError (F : Type 0) : Type 0 where
  fifo : FifoPnlError F → PnlError F
  invalid_mark : List ℕ → PnlError F
  initial_quantity : PnlError F
  missing_symbol : List ℕ → PnlError F
  start_before_strategy end_before_start no_requested_symbol : PnlError F
  unconverted_charges non_finite_history : PnlError F
  missing_multiplier unsupported_exchange unsupported_side unsupported_market : List ℕ → PnlError F
  invalid_amount invalid_quantity : List ℕ → F → PnlError F
  invalid_identifier : PnlError F

-- The literals of the code: `f64::EPSILON`, 1e-12, 10_000.0, the milliseconds of a year, negative
-- infinity, and `as f64` of a number of milliseconds.
pub record Literals (F : Type 0) : Type 0 where
  pub epsilon : F
  pub tiny : F
  pub ten_thousand : F
  pub year_ms : F
  pub neg_infinity : F
  pub of_ms : ℕ → F

-- Their values: `decimal m k` is the double next to m / 10 ^ k. The theorems hold for all values.
abbrev pub program_literals : {F : Type 0} → (ℕ → ℕ → F) → F → (ℕ → F) → Literals F
program_literals decimal neg_infinity of_ms = record {
  epsilon = decimal 2220446049250313 31;
  tiny = decimal 1 12;
  ten_thousand = decimal 10000 0;
  year_ms = decimal (365 * (24 * 60 * 60 * 1000)) 0;
  neg_infinity = neg_infinity;
  of_ms = of_ms;
}

module _ {F : Type 0} where
  unfoldable pub ts : PnlEvent F → ℕ
  ts (trade t) = t.ts
  ts (funded e) = e.ts
  ts (charged e) = e.ts

  unfoldable pub symbol : PnlEvent F → List ℕ
  symbol (trade t) = t.symbol
  symbol (funded e) = e.symbol
  symbol (charged e) = e.symbol

  unfoldable pub rank : PnlEvent F → ℕ
  rank (trade t) = 0
  rank (funded e) = 1
  rank (charged e) = 2

  -- The order of a replay: time, then kind, then symbol.
  unfoldable pub event_le : PnlEvent F → PnlEvent F → Bool
  unfolding ts rank symbol
  event_le a b =
      if ltb (ts a) (ts b)
      then true
      else if ltb (ts b) (ts a)
      then false
      else if ltb (rank a) (rank b)
      then true
      else if ltb (rank b) (rank a)
      then false
      else if bytes_before (symbol b) (symbol a)
      then false
      else true

module _ {F : Type 0} ⦃f : Float F⦄ where
  unfoldable pub exposure : PnlSourceKind → F → F → F
  exposure source spot_position futures_position = f.add spot_position futures_position

module _ {F : Type 0} ⦃f : Float F⦄ (literals : Literals F) where
  unfoldable pub clean_zero : F → F
  clean_zero value = if f.lt (f.abs value) literals.tiny then f.nought else value
