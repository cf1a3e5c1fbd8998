-- ===== src/FrLimits/Rows.antt =====
-- src/fr_position_limits.rs: a row of the overview, and the rows of an exchange.
use Prim.Native.String.{String}
use crypto_nav_manager.Base.{
  ℕ, Bool, true, false, ◌&&◌, not, Option, none, some, List, [], ◌∷◌, if◌then◌else◌,
}
use crypto_nav_manager.Base.Int.{ℤ}
use crypto_nav_manager.Base.Text.{bytes_key}
use crypto_nav_manager.Float.{Float}
use crypto_nav_manager.FrLimits.{
  Constants, SnapshotPosition, GuardParams, or_else, first, filter_option, map_option, is_some,
  amount_u, pending_for_position,
}
use crypto_nav_manager.FrLimits.Symbols.{asset_from_symbol}

pub record FrLimitSourceCounts : Type 0 where
  pub snapshot_rows : ℕ
  pub exchange_limit_rows : ℕ
  pub exchange_position_rows : ℕ
  pub displayed_rows : ℕ
  pub near_limit_rows : ℕ
  pub symbol_config_rows : Option ℕ
  pub position_risk_rows : Option ℕ
  pub leverage_bracket_rows : Option ℕ

pub record FrLimitRow (F : Type 0) : Type 0 where
  pub symbol : List ℕ
  pub asset : List ℕ
  pub status : String
  pub side : String
  pub tracked_in_snapshot : Bool
  pub position_source : String
  pub position_notional_usdt : F
  pub snapshot_open_usdt : Option F
  pub snapshot_futures_usdt : Option F
  pub snapshot_rest_delta_usdt : Option F
  pub exchange_limit_usdt : Option F
  pub guard_buffer_usdt : Option F
  pub guard_cap_usdt : Option F
  pub remaining_usdt : Option F
  pub usage_ratio : Option F
  pub near_limit : Bool
  pub amount_u : Option F
  pub pending_limit_orders : Option ℤ
  pub leverage : Option F
  pub symbol_config_limit_usdt : Option F
  pub position_risk_limit_usdt : Option F
  pub bracket_limit_usdt : Option F
  pub error : Option String

pub record GuardMetrics (F : Type 0) : Type 0 where
  pub buffer : F
  pub cap : F
  pub remaining : F
  pub usage_ratio : F
  pub amount_u : F
  pub pending : ℤ

pub data Guarded (F : Type 0) : Type 0 where
  measured : GuardMetrics F → Guarded F
  refused : String → Guarded F

abbrev pub nonempty : List ℕ → Bool
nonempty [] = false
nonempty (c ∷ cs) = true

module _ {F : Type 0} where
  abbrev pub metrics_of : Guarded F → Option (GuardMetrics F)
  metrics_of (measured m) = some m
  metrics_of (refused error) = none

  abbrev pub error_of : Guarded F → Option String
  error_of (measured m) = none
  error_of (refused error) = some error

module _ {F : Type 0} ⦃f : Float F⦄ (constants : Constants F) where
  open f use {nought, sub, mul, div, neg, abs, max, lt, le, is_finite}

  unfoldable pub guard_metrics : F → F → List ℕ → GuardParams F → Guarded F
  unfolding amount_u pending_for_position
  guard_metrics exchange_limit position_notional symbol params =
      let amount = amount_u params symbol in
      let pending = pending_for_position params position_notional in
      let buffer = mul (constants.of_i32 pending) amount in
      let cap = sub exchange_limit buffer in
      let absolute = abs position_notional in
      if not (is_finite exchange_limit && lt nought exchange_limit)
      then refused "exchange position limit is invalid"
      else if not (is_finite amount && lt nought amount)
      then refused "pre-trade amount_u is invalid"
      else if not (is_finite cap && lt nought cap)
      then refused "pre-trade guard cap is not positive"
      else measured (record {
        buffer = buffer;
        cap = cap;
        remaining = sub cap absolute;
        usage_ratio = div absolute cap;
        amount_u = amount;
        pending = pending;
      })

  unfoldable pub position_side : F → String
  position_side notional =
      if lt notional (neg constants.epsilon)
      then "short"
      else if lt constants.epsilon notional
      then "long"
      else "flat"

  -- `exchange_limit` against the guard, or the error that it is missing.
  unfoldable pub measure : Option F → F → List ℕ → GuardParams F → Guarded F
  unfolding guard_metrics
  measure none notional symbol params = refused "exchange position-limit row is missing"
  measure (some limit) notional symbol params = guard_metrics limit notional symbol params

  abbrev pub is_near : Guarded F → Bool
  is_near (refused error) = false
  is_near (measured m) = le constants.alert_threshold_ratio m.usage_ratio

  abbrev pub row_status : Bool → Guarded F → String
  row_status true g = "warning"
  row_status false (refused error) = "unavailable"
  row_status false (measured m) = "healthy"

  abbrev pub rest_delta : Option F → Option F → Option F
  rest_delta (some exchange) (some snapshot) = some (sub exchange snapshot)
  rest_delta none snapshot = none
  rest_delta (some exchange) none = none

  abbrev pub open_of : Option (SnapshotPosition F) → Option F
  open_of none = none
  open_of (some p) = p.open_usdt

  abbrev pub futures_of : Option (SnapshotPosition F) → Option F
  futures_of none = none
  futures_of (some p) = p.futures_usdt

  abbrev pub asset_of : Option (SnapshotPosition F) → Option (List ℕ)
  asset_of none = none
  asset_of (some p) = some p.asset

  unfoldable pub build_row :
      List ℕ
      → List ℕ
      → Option (SnapshotPosition F)
      → Option F
      → Option F
      → Option F
      → Option F
      → Option F
      → Option F
      → GuardParams F
      → FrLimitRow F
  unfolding measure position_side asset_from_symbol
  build_row display symbol snapshot exchange_notional exchange_limit leverage config_limit
        risk_limit bracket_limit params =
      let notional = or_else (first exchange_notional (futures_of snapshot)) nought in
      let guarded = measure exchange_limit notional symbol params in
      let metrics = metrics_of guarded in
      record {
        symbol = display;
        asset = or_else (filter_option nonempty (asset_of snapshot)) (asset_from_symbol symbol);
        status = row_status (is_near guarded) guarded;
        side = position_side notional;
        tracked_in_snapshot = is_some snapshot;
        position_source = if is_some exchange_notional then "exchange" else "snapshot";
        position_notional_usdt = notional;
        snapshot_open_usdt = open_of snapshot;
        snapshot_futures_usdt = futures_of snapshot;
        snapshot_rest_delta_usdt = rest_delta exchange_notional (futures_of snapshot);
        exchange_limit_usdt = exchange_limit;
        guard_buffer_usdt = map_option (λ (m : GuardMetrics F). m.buffer) metrics;
        guard_cap_usdt = map_option (λ (m : GuardMetrics F). m.cap) metrics;
        remaining_usdt = map_option (λ (m : GuardMetrics F). m.remaining) metrics;
        usage_ratio = map_option (λ (m : GuardMetrics F). m.usage_ratio) metrics;
        near_limit = is_near guarded;
        amount_u = map_option (λ (m : GuardMetrics F). m.amount_u) metrics;
        pending_limit_orders = map_option (λ (m : GuardMetrics F). m.pending) metrics;
        leverage = leverage;
        symbol_config_limit_usdt = config_limit;
        position_risk_limit_usdt = risk_limit;
        bracket_limit_usdt = bracket_limit;
        error = error_of guarded;
      }
