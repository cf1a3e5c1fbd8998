-- ===== src/Pnl/Response.antt =====
-- src/pnl.rs, `calculate`: the request and the response, made of what the replay leaves.
use crypto_nav_manager.Base.{
  ℕ, ◌+◌, ltb, Bool, true, false, ◌||◌, not, Option, none, some, List, [], ◌∷◌, map, length,
  Outcome, done, stuck, ◌>>=◌, if◌then◌else◌,
}
use Prim.Native.String.{String}
use crypto_nav_manager.Base.Maps.{lookup}
use crypto_nav_manager.Base.Sort.{sort_by}
use crypto_nav_manager.Base.Text.{bytes_before, bytes_key}
use crypto_nav_manager.Float.{Float}
use crypto_nav_manager.Pnl.{
  PnlSourceKind, adapter_name, interest_included, PnlInputs, PnlError, Literals,
}
use crypto_nav_manager.Pnl.Symbol.{or_else}
use crypto_nav_manager.Pnl.States.{
  States, Baselines, PnlPoint, PnlSummary, SymbolPnlSummary, metrics_or_none, baseline_of,
  aggregate_point, symbol_point, selected_total_pnl, difference, aggregate_summary,
}
use crypto_nav_manager.Pnl.Curve.{
  push_or_replace_point, resample_fixed_interval, downsample_extrema, max_ℕ,
}
use crypto_nav_manager.Pnl.Track.{Curves, push_symbol_point}
use crypto_nav_manager.Pnl.Performance.{PnlPerformance, build_performance}

pub record PnlCalculation (F : Type 0) : Type 0 where
  pub source : PnlSourceKind
  pub exchange : List ℕ
  pub strategy_start_ms : ℕ
  pub start_ms : ℕ
  pub end_ms : ℕ
  pub selected_symbols : List (List ℕ)
  pub max_points : ℕ
  pub initial_snapshot_ts_ms : Option ℕ
  pub skipped_initial_position_count : ℕ
  pub principal_usdt : Option F

pub record SymbolPnlSeries (F : Type 0) : Type 0 where
  pub symbol : List ℕ
  pub points : List (PnlPoint F)

pub record PnlSourceInfo : Type 0 where
  pub adapter : String
  pub loaded_trade_rows : ℕ
  pub loaded_funding_rows : ℕ
  pub loaded_interest_rows : ℕ
  pub returned_points : ℕ
  pub returned_symbol_points : ℕ
  pub sampled : Bool
  pub interest_included : Bool
  pub initial_snapshot_ts_ms : Option ℕ
  pub initial_position_count : ℕ
  pub skipped_initial_position_count : ℕ

pub record PnlResponse (F : Type 0) : Type 0 where
  pub strategy_start_ms : ℕ
  pub start_ms : ℕ
  pub end_ms : ℕ
  pub selected_symbols : List (List ℕ)
  pub available_symbols : List (List ℕ)
  pub summary : PnlSummary F
  pub symbols : List (SymbolPnlSummary F)
  pub points : List (PnlPoint F)
  pub symbol_points : List (SymbolPnlSeries F)
  pub source : PnlSourceInfo
  pub performance : PnlPerformance F

-- Fifteen minutes.
abbrev pub pnl_tick_interval_ms : ℕ
pnl_tick_interval_ms = 900000

abbrev pub symbol_le : List ℕ → List ℕ → Bool
symbol_le a b = not (bytes_before b a)

-- `clamp(100, 800)`.
abbrev pub clamp_points : ℕ → ℕ
clamp_points n = if ltb n 100 then 100 else if ltb 800 n then 800 else n

abbrev from_option : {E A : Type 0} → Option A → Outcome E A
from_option none = stuck
from_option (some a) = done a

module _ {F : Type 0} ⦃f : Float F⦄ where
  -- `partial_cmp` of the totals, the larger first, then the symbol.
  abbrev pub summary_le : SymbolPnlSummary F → SymbolPnlSummary F → Bool
  summary_le a b =
      if f.lt b.pnl.total_pnl_usdt a.pnl.total_pnl_usdt
      then true
      else if f.lt a.pnl.total_pnl_usdt b.pnl.total_pnl_usdt
      then false
      else symbol_le a.symbol b.symbol

module _ {F : Type 0} ⦃f : Float F⦄ (literals : Literals F) where
  -- The last point of each selected symbol.
  unfoldable pub end_points :
      PnlSourceKind
      → Baselines F
      → ℕ
      → States F
      → List (List ℕ)
      → List (List ℕ × List (PnlPoint F))
      → List (List ℕ × List (PnlPoint F))
  unfolding symbol_point push_or_replace_point
  end_points source baselines end states [] m = m
  end_points source baselines end states (s ∷ ss) m =
      end_points source baselines end states ss
        (push_symbol_point literals s (symbol_point literals end s states baselines source) m)

  unfoldable pub summaries : States F → Baselines F → List (List ℕ) → List (SymbolPnlSummary F)
  unfolding difference
  summaries states baselines [] = []
  summaries states baselines (s ∷ ss) =
      record {
        symbol = s;
        pnl =
            difference literals (metrics_or_none literals (lookup s states))
              (baseline_of literals baselines s);
      }
      ∷ summaries states baselines ss

  -- The points at fixed ticks of each selected symbol: all of them, and those that are returned.
  unfoldable pub symbol_series :
      ℕ
      → ℕ
      → ℕ
      → List (List ℕ × List (PnlPoint F))
      → List (List ℕ)
      → Option (List (List (PnlPoint F) × SymbolPnlSeries F))
  unfolding resample_fixed_interval downsample_extrema
  symbol_series start end max_points m [] = some []
  symbol_series start end max_points m (s ∷ ss) =
      let rest = symbol_series start end max_points m ss in
      elim (resample_fixed_interval (or_else (lookup s m) []) start end pnl_tick_interval_ms) [
        | none ↦ none
        | some ps ↦ elim rest [
          | none ↦ none
          | some series ↦
              some ((ps, record { symbol = s; points = downsample_extrema ps max_points }) ∷ series)
        ]
      ]

  abbrev pub count_points : List (List (PnlPoint F) × SymbolPnlSeries F) → ℕ
  count_points [] = 0
  count_points ((ps, s) ∷ rest) = length s.points + count_points rest

  abbrev pub any_sampled : List (List (PnlPoint F) × SymbolPnlSeries F) → Bool
  any_sampled [] = false
  any_sampled ((ps, s) ∷ rest) = ltb (length s.points) (length ps) || any_sampled rest

  -- The exposure of the last point.
  abbrev pub last_exposure : F → List (PnlPoint F) → F
  last_exposure default [] = default
  last_exposure default (p ∷ ps) = last_exposure p.exposure_usdt ps

  -- The response made of what the replay leaves, `c`, with its points closed at the end.
  unfoldable pub respond :
      PnlInputs F
      → PnlCalculation F
      → List (List ℕ)
      → List (List ℕ)
      → Baselines F
      → Curves F
      → Outcome (PnlError F) (PnlResponse F)
  unfolding symbol_series summaries end_points sort_by aggregate_summary push_or_replace_point
      aggregate_point adapter_name interest_included build_performance selected_total_pnl
      resample_fixed_interval downsample_extrema
  respond inputs r available selected baselines c =
      let states = c.track.states in
      let end_total = selected_total_pnl literals states selected in
      let drawn =
        push_or_replace_point c.points
          (aggregate_point literals r.end_ms states baselines selected r.source) in
      let by_symbol = end_points r.source baselines r.end_ms states selected c.points_by_symbol in
      let symbols = sort_by summary_le (summaries states baselines available) in
      let summary = record (aggregate_summary literals symbols selected) {
        open_amount_usdt = last_exposure f.nought drawn;
      } in
      from_option (resample_fixed_interval drawn r.start_ms r.end_ms pnl_tick_interval_ms)
      >>= λ (ticks : List (PnlPoint F)).
          from_option
            (symbol_series r.start_ms r.end_ms (clamp_points r.max_points) by_symbol selected)
          >>= λ (series : List (List (PnlPoint F) × SymbolPnlSeries F)).
              let returned = downsample_extrema ticks (max_ℕ r.max_points 2) in
              done (record {
                strategy_start_ms = r.strategy_start_ms;
                start_ms = r.start_ms;
                end_ms = r.end_ms;
                selected_symbols = selected;
                available_symbols = available;
                summary = summary;
                symbols = symbols;
                points = returned;
                symbol_points = map (λ (p : List (PnlPoint F) × SymbolPnlSeries F). p.1) series;
                source = record {
                  adapter = adapter_name r.source;
                  loaded_trade_rows = length inputs.trades;
                  loaded_funding_rows = length inputs.funding;
                  loaded_interest_rows = length inputs.interest;
                  returned_points = length returned;
                  returned_symbol_points = count_points series;
                  sampled = ltb (length returned) (length ticks) || any_sampled series;
                  interest_included = interest_included r.source r.exchange;
                  initial_snapshot_ts_ms = r.initial_snapshot_ts_ms;
                  initial_position_count = length inputs.initial_positions;
                  skipped_initial_position_count = r.skipped_initial_position_count;
                };
                performance =
                    build_performance literals r.strategy_start_ms r.end_ms r.principal_usdt ticks
                      c.track.boundary_pnl end_total;
              })
