-- ===== src/FrLimits/Tables.antt =====
-- src/fr_position_limits.rs: the rows of an exchange, their counts and their order.
use crypto_nav_manager.Base.{
  ℕ, suc, Bool, true, false, ◌&&◌, not, Option, none, some, List, [], ◌∷◌, length, if◌then◌else◌,
}
use crypto_nav_manager.Base.Maps.{lookup}
use crypto_nav_manager.Base.Sort.{sort_by}
use crypto_nav_manager.Base.Text.{bytes_eq, bytes_before, bytes_key}
use crypto_nav_manager.Float.{Float}
use crypto_nav_manager.FrLimits.{
  Constants, SnapshotPosition, GuardParams, BinanceLimit, GateLimit, or_else, filter_option,
  map_option, and_then, is_some, effective_limit,
}
use crypto_nav_manager.FrLimits.Symbols.{gate_contract}
use crypto_nav_manager.FrLimits.Answers.{BinanceData, GateData}
use crypto_nav_manager.FrLimits.Rows.{FrLimitSourceCounts, FrLimitRow, nonempty, build_row}

-- `insert` into a `BTreeSet`, which is its list in order.
unfoldable pub insert_symbol : List ℕ → List (List ℕ) → List (List ℕ)
insert_symbol s [] = s ∷ []
insert_symbol s (t ∷ ts) =
    if bytes_eq s t then t ∷ ts else if bytes_before s t then s ∷ t ∷ ts else t ∷ insert_symbol s ts

abbrev pub no_counts : FrLimitSourceCounts
no_counts = record {
  snapshot_rows = 0;
  exchange_limit_rows = 0;
  exchange_position_rows = 0;
  displayed_rows = 0;
  near_limit_rows = 0;
  symbol_config_rows = none;
  position_risk_rows = none;
  leverage_bracket_rows = none;
}

-- `extend` with the keys of the values that pass the test, and how many there are.
module _ {L : Type 0} (test : L → Bool) where
  unfoldable pub extend_keys : List (List ℕ × L) → List (List ℕ) → List (List ℕ)
  unfolding insert_symbol
  extend_keys [] symbols = symbols
  extend_keys ((s, l) ∷ limits) symbols =
      extend_keys limits (if test l then insert_symbol s symbols else symbols)

  unfoldable pub count_values : List (List ℕ × L) → ℕ
  count_values [] = 0
  count_values ((s, l) ∷ limits) =
      let rest = count_values limits in if test l then suc rest else rest

module _ {F : Type 0} ⦃f : Float F⦄ (constants : Constants F) where
  open f use {nought, abs, max, le, neg}

  abbrev pub is_displayed : F → Bool
  is_displayed value = le constants.position_display_min_usd (abs value)

  abbrev pub shows_position : Option F → Bool
  shows_position none = false
  shows_position (some value) = is_displayed value

  abbrev pub is_relevant : SnapshotPosition F → Bool
  is_relevant p =
      le constants.position_display_min_usd
        (max (abs (or_else p.open_usdt nought)) (abs (or_else p.futures_usdt nought)))

  unfoldable pub relevant_snapshot_symbols : List (List ℕ × SnapshotPosition F) → List (List ℕ)
  unfolding extend_keys
  relevant_snapshot_symbols snapshot = extend_keys is_relevant snapshot []

  unfoldable pub binance_row :
      BinanceData F → List (List ℕ × SnapshotPosition F) → GuardParams F → List ℕ → FrLimitRow F
  unfolding build_row effective_limit lookup
  binance_row data_of snapshot params symbol =
      let limit = lookup symbol data_of.limits in
      build_row constants
        (or_else (filter_option nonempty (map_option (λ (l : BinanceLimit F). l.symbol) limit))
          symbol)
        symbol (lookup symbol snapshot) (and_then limit (λ l. l.current_notional))
        (and_then limit effective_limit) (and_then limit (λ l. l.leverage))
        (and_then limit (λ l. l.symbol_config_limit)) (and_then limit (λ l. l.position_risk_limit))
        (and_then limit (λ l. l.bracket_limit)) params

  abbrev pub rows_of : (List ℕ → FrLimitRow F) → List (List ℕ) → List (FrLimitRow F)
  rows_of row [] = []
  rows_of row (s ∷ ss) = row s ∷ rows_of row ss

  unfoldable pub build_binance_rows :
      BinanceData F
      → List (List ℕ × SnapshotPosition F)
      → GuardParams F
      → List (FrLimitRow F) × FrLimitSourceCounts
  unfolding binance_row relevant_snapshot_symbols extend_keys count_values effective_limit
  build_binance_rows data_of snapshot params =
      let shown = λ (l : BinanceLimit F). shows_position l.current_notional in
      let symbols = extend_keys shown data_of.limits (relevant_snapshot_symbols snapshot) in
      (
        rows_of (binance_row data_of snapshot params) symbols,
        record no_counts {
          exchange_limit_rows =
              count_values (λ (l : BinanceLimit F). is_some (effective_limit l)) data_of.limits;
          exchange_position_rows = count_values shown data_of.limits;
          symbol_config_rows = some data_of.symbol_config_rows;
          position_risk_rows = some data_of.position_risk_rows;
          leverage_bracket_rows = some data_of.leverage_bracket_rows;
        },
      )

  unfoldable pub gate_row :
      GateData F → List (List ℕ × SnapshotPosition F) → GuardParams F → List ℕ → FrLimitRow F
  unfolding build_row gate_contract lookup
  gate_row data_of snapshot params symbol =
      let limit = lookup symbol data_of.limits in
      build_row constants
        (or_else (map_option (λ (l : GateLimit F). l.contract) limit) (gate_contract symbol)) symbol
        (lookup symbol snapshot) (map_option (λ (l : GateLimit F). l.current_notional) limit)
        (map_option (λ (l : GateLimit F). l.risk_limit) limit)
        (and_then limit (λ l. l.cross_leverage_limit)) none none none params

  unfoldable pub build_gate_rows :
      GateData F
      → List (List ℕ × SnapshotPosition F)
      → GuardParams F
      → List (FrLimitRow F) × FrLimitSourceCounts
  unfolding gate_row relevant_snapshot_symbols extend_keys count_values
  build_gate_rows data_of snapshot params =
      let shown = λ (l : GateLimit F). is_displayed l.current_notional in
      let symbols = extend_keys shown data_of.limits (relevant_snapshot_symbols snapshot) in
      (
        rows_of (gate_row data_of snapshot params) symbols,
        record no_counts {
          exchange_limit_rows = length data_of.limits;
          exchange_position_rows = count_values shown data_of.limits;
        },
      )

  -- Near the limit first, then the larger ratio, the larger position, the symbol.
  unfoldable pub row_le : FrLimitRow F → FrLimitRow F → Bool
  row_le a b =
      let ratio_a = or_else a.usage_ratio constants.minus_one in
      let ratio_b = or_else b.usage_ratio constants.minus_one in
      let size_a = abs a.position_notional_usdt in
      let size_b = abs b.position_notional_usdt in
      if a.near_limit && not b.near_limit
      then true
      else if b.near_limit && not a.near_limit
      then false
      else if not (constants.total_le ratio_a ratio_b)
      then true
      else if not (constants.total_le ratio_b ratio_a)
      then false
      else if not (constants.total_le size_a size_b)
      then true
      else if not (constants.total_le size_b size_a)
      then false
      else not (bytes_before b.symbol a.symbol)

  unfoldable pub sort_rows : List (FrLimitRow F) → List (FrLimitRow F)
  unfolding row_le sort_by
  sort_rows rows = sort_by row_le rows
