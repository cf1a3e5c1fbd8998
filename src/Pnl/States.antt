-- ===== src/Pnl/States.antt =====
-- src/pnl.rs: the states of all symbols, the points of a curve, and the summaries. A `HashSet` of
-- symbols is a list, in the order in which it is walked.
use crypto_nav_manager.Base.{
  ℕ, ◌+◌, ◌-◌, Bool, true, false, Option, none, some, List, [], ◌∷◌, Outcome, done, failed, ◌>>=◌,
  if◌then◌else◌,
}
use mathlib.Core.List.{foldl}
use crypto_nav_manager.Base.Maps.{lookup, insert}
use crypto_nav_manager.Base.Text.{bytes_eq, bytes_key}
use crypto_nav_manager.Float.{Float}
use crypto_nav_manager.Pnl
use crypto_nav_manager.Pnl.{
  PnlSourceKind, PnlEvent, PnlError, missing_symbol, Literals, clean_zero, exposure,
}
use crypto_nav_manager.Pnl.Symbol.{SymbolState, Metrics, apply_one, metrics, or_else}

pub record PnlPoint (F : Type 0) : Type 0 where
  pub ts : ℕ
  pub fee_before_pnl_usdt : F
  pub fee_after_pnl_usdt : F
  pub funding_pnl_usdt : F
  pub interest_cost_usdt : F
  pub floating_pnl_usdt : F
  pub total_pnl_usdt : F
  pub spot_position_usdt : F
  pub futures_position_usdt : F
  pub exposure_usdt : F
  pub spot_position_qty : F
  pub futures_position_qty : F
  pub exposure_qty : F

pub record PnlSummary (F : Type 0) : Type 0 where
  pub trade_count : ℕ
  pub volume_usdt : F
  pub fee_before_pnl_usdt : F
  pub trading_fee_usdt : F
  pub fee_after_pnl_usdt : F
  pub funding_pnl_usdt : F
  pub interest_cost_usdt : F
  pub floating_pnl_usdt : F
  pub total_pnl_usdt : F
  pub return_bps_on_volume : F
  pub open_amount_usdt : F
  pub unconverted_fee_count : ℕ
  pub unconverted_interest_count : ℕ

pub record SymbolPnlSummary (F : Type 0) : Type 0 where
  pub symbol : List ℕ
  pub pnl : PnlSummary F

abbrev pub States : Type 0 → Type 0
States F = List (List ℕ × SymbolState F)

abbrev pub Baselines : Type 0 → Type 0
Baselines F = List (List ℕ × Metrics F)

-- `contains` of a set of symbols.
abbrev pub has : List (List ℕ) → List ℕ → Bool
has [] s = false
has (t ∷ ts) s = if bytes_eq t s then true else has ts s

module _ {F : Type 0} ⦃f : Float F⦄ where
  open f use {nought, add, sub, mul, div, abs, lt}

  unfoldable pub apply_event : States F → PnlEvent F → Outcome (PnlError F) (States F)
  unfolding apply_one lookup insert
  apply_event states e = elim (lookup (Pnl.symbol e) states) [
    | none ↦ failed (missing_symbol (Pnl.symbol e))
    | some s ↦ apply_one s e >>= λ s'. done (insert (Pnl.symbol e) s' states)
  ]

  -- The states after some events.
  unfoldable pub apply_all : States F → List (PnlEvent F) → Outcome (PnlError F) (States F)
  unfolding apply_event
  apply_all states [] = done states
  apply_all states (e ∷ es) = apply_event states e >>= λ states'. apply_all states' es

  abbrev pub no_metrics : Metrics F
  no_metrics = record {
    trade_count = 0;
    volume_usdt = nought;
    fee_before_pnl_usdt = nought;
    trading_fee_usdt = nought;
    fee_after_pnl_usdt = nought;
    funding_pnl_usdt = nought;
    interest_cost_usdt = nought;
    floating_pnl_usdt = nought;
    total_pnl_usdt = nought;
    open_amount_usdt = nought;
    spot_position_usdt = nought;
    futures_position_usdt = nought;
    spot_position_qty = nought;
    futures_position_qty = nought;
    unconverted_fee_count = 0;
    unconverted_interest_count = 0;
  }

  abbrev pub zero_point : ℕ → PnlPoint F
  zero_point ts = record {
    ts = ts;
    fee_before_pnl_usdt = nought;
    fee_after_pnl_usdt = nought;
    funding_pnl_usdt = nought;
    interest_cost_usdt = nought;
    floating_pnl_usdt = nought;
    total_pnl_usdt = nought;
    spot_position_usdt = nought;
    futures_position_usdt = nought;
    exposure_usdt = nought;
    spot_position_qty = nought;
    futures_position_qty = nought;
    exposure_qty = nought;
  }

  abbrev pub no_summary : PnlSummary F
  no_summary = record {
    trade_count = 0;
    volume_usdt = nought;
    fee_before_pnl_usdt = nought;
    trading_fee_usdt = nought;
    fee_after_pnl_usdt = nought;
    funding_pnl_usdt = nought;
    interest_cost_usdt = nought;
    floating_pnl_usdt = nought;
    total_pnl_usdt = nought;
    return_bps_on_volume = nought;
    open_amount_usdt = nought;
    unconverted_fee_count = 0;
    unconverted_interest_count = 0;
  }

module _ {F : Type 0} ⦃f : Float F⦄ (literals : Literals F) where
  open f use {nought, add, sub, mul, div, abs, lt}

  abbrev pub metrics_or_none : Option (SymbolState F) → Metrics F
  metrics_or_none none = no_metrics
  metrics_or_none (some s) = metrics literals s

  abbrev pub baseline_of : Baselines F → List ℕ → Metrics F
  baseline_of baselines symbol = or_else (lookup symbol baselines) no_metrics

  unfoldable pub all_metrics : States F → Baselines F
  all_metrics [] = []
  all_metrics ((symbol, s) ∷ states) = (symbol, metrics literals s) ∷ all_metrics states

  -- What one symbol adds to the point.
  unfoldable pub add_symbol :
      PnlSourceKind → States F → Baselines F → PnlPoint F → List ℕ → PnlPoint F
  unfolding exposure metrics
  add_symbol source states baselines p symbol =
      let c = metrics_or_none (lookup symbol states) in
      let b = baseline_of baselines symbol in
      record p {
        fee_before_pnl_usdt =
            add p.fee_before_pnl_usdt (sub c.fee_before_pnl_usdt b.fee_before_pnl_usdt);
        fee_after_pnl_usdt =
            add p.fee_after_pnl_usdt (sub c.fee_after_pnl_usdt b.fee_after_pnl_usdt);
        funding_pnl_usdt = add p.funding_pnl_usdt (sub c.funding_pnl_usdt b.funding_pnl_usdt);
        interest_cost_usdt =
            add p.interest_cost_usdt (sub c.interest_cost_usdt b.interest_cost_usdt);
        floating_pnl_usdt = add p.floating_pnl_usdt (sub c.floating_pnl_usdt b.floating_pnl_usdt);
        total_pnl_usdt = add p.total_pnl_usdt (sub c.total_pnl_usdt b.total_pnl_usdt);
        spot_position_usdt = add p.spot_position_usdt c.spot_position_usdt;
        futures_position_usdt = add p.futures_position_usdt c.futures_position_usdt;
        exposure_usdt =
            add p.exposure_usdt (exposure source c.spot_position_usdt c.futures_position_usdt);
        spot_position_qty = add p.spot_position_qty c.spot_position_qty;
        futures_position_qty = add p.futures_position_qty c.futures_position_qty;
        exposure_qty =
            add p.exposure_qty (exposure source c.spot_position_qty c.futures_position_qty);
      }

  unfoldable pub clean_point : PnlPoint F → PnlPoint F
  unfolding clean_zero
  clean_point p =
      let clean = clean_zero literals in
      record {
        ts = p.ts;
        fee_before_pnl_usdt = clean p.fee_before_pnl_usdt;
        fee_after_pnl_usdt = clean p.fee_after_pnl_usdt;
        funding_pnl_usdt = clean p.funding_pnl_usdt;
        interest_cost_usdt = clean p.interest_cost_usdt;
        floating_pnl_usdt = clean p.floating_pnl_usdt;
        total_pnl_usdt = clean p.total_pnl_usdt;
        spot_position_usdt = clean p.spot_position_usdt;
        futures_position_usdt = clean p.futures_position_usdt;
        exposure_usdt = clean p.exposure_usdt;
        spot_position_qty = clean p.spot_position_qty;
        futures_position_qty = clean p.futures_position_qty;
        exposure_qty = clean p.exposure_qty;
      }

  unfoldable pub aggregate_point :
      ℕ → States F → Baselines F → List (List ℕ) → PnlSourceKind → PnlPoint F
  unfolding clean_point add_symbol
  aggregate_point ts states baselines selected source =
      clean_point (foldl (add_symbol source states baselines) (zero_point ts) selected)

  unfoldable pub symbol_point : ℕ → List ℕ → States F → Baselines F → PnlSourceKind → PnlPoint F
  unfolding clean_point exposure metrics
  symbol_point ts symbol states baselines source =
      let c = metrics_or_none (lookup symbol states) in
      let b = baseline_of baselines symbol in
      clean_point (record {
        ts = ts;
        fee_before_pnl_usdt = sub c.fee_before_pnl_usdt b.fee_before_pnl_usdt;
        fee_after_pnl_usdt = sub c.fee_after_pnl_usdt b.fee_after_pnl_usdt;
        funding_pnl_usdt = sub c.funding_pnl_usdt b.funding_pnl_usdt;
        interest_cost_usdt = sub c.interest_cost_usdt b.interest_cost_usdt;
        floating_pnl_usdt = sub c.floating_pnl_usdt b.floating_pnl_usdt;
        total_pnl_usdt = sub c.total_pnl_usdt b.total_pnl_usdt;
        spot_position_usdt = c.spot_position_usdt;
        futures_position_usdt = c.futures_position_usdt;
        exposure_usdt = exposure source c.spot_position_usdt c.futures_position_usdt;
        spot_position_qty = c.spot_position_qty;
        futures_position_qty = c.futures_position_qty;
        exposure_qty = exposure source c.spot_position_qty c.futures_position_qty;
      })

  -- `Sum for f64` starts from -0.0.
  unfoldable pub selected_total_pnl : States F → List (List ℕ) → F
  unfolding metrics
  selected_total_pnl states selected =
      foldl (λ sum symbol. add sum (metrics_or_none (lookup symbol states)).total_pnl_usdt)
        (f.neg nought) selected

  abbrev pub return_bps : F → F → F
  return_bps total volume =
      if lt literals.epsilon (abs volume)
      then mul (div total volume) literals.ten_thousand
      else nought

  unfoldable pub difference : Metrics F → Metrics F → PnlSummary F
  unfolding clean_zero
  difference c b =
      let clean = clean_zero literals in
      let volume = sub c.volume_usdt b.volume_usdt in
      let total = sub c.total_pnl_usdt b.total_pnl_usdt in
      record {
        trade_count = c.trade_count - b.trade_count;
        volume_usdt = clean volume;
        fee_before_pnl_usdt = clean (sub c.fee_before_pnl_usdt b.fee_before_pnl_usdt);
        trading_fee_usdt = clean (sub c.trading_fee_usdt b.trading_fee_usdt);
        fee_after_pnl_usdt = clean (sub c.fee_after_pnl_usdt b.fee_after_pnl_usdt);
        funding_pnl_usdt = clean (sub c.funding_pnl_usdt b.funding_pnl_usdt);
        interest_cost_usdt = clean (sub c.interest_cost_usdt b.interest_cost_usdt);
        floating_pnl_usdt = clean (sub c.floating_pnl_usdt b.floating_pnl_usdt);
        total_pnl_usdt = clean total;
        return_bps_on_volume = return_bps total volume;
        open_amount_usdt = clean c.open_amount_usdt;
        unconverted_fee_count = c.unconverted_fee_count - b.unconverted_fee_count;
        unconverted_interest_count = c.unconverted_interest_count - b.unconverted_interest_count;
      }

  unfoldable pub add_summary : PnlSummary F → PnlSummary F → PnlSummary F
  add_summary t p = record t {
    trade_count = t.trade_count + p.trade_count;
    volume_usdt = add t.volume_usdt p.volume_usdt;
    fee_before_pnl_usdt = add t.fee_before_pnl_usdt p.fee_before_pnl_usdt;
    trading_fee_usdt = add t.trading_fee_usdt p.trading_fee_usdt;
    fee_after_pnl_usdt = add t.fee_after_pnl_usdt p.fee_after_pnl_usdt;
    funding_pnl_usdt = add t.funding_pnl_usdt p.funding_pnl_usdt;
    interest_cost_usdt = add t.interest_cost_usdt p.interest_cost_usdt;
    floating_pnl_usdt = add t.floating_pnl_usdt p.floating_pnl_usdt;
    total_pnl_usdt = add t.total_pnl_usdt p.total_pnl_usdt;
    open_amount_usdt = add t.open_amount_usdt p.open_amount_usdt;
    unconverted_fee_count = t.unconverted_fee_count + p.unconverted_fee_count;
    unconverted_interest_count = t.unconverted_interest_count + p.unconverted_interest_count;
  }

  unfoldable pub aggregate_summary : List (SymbolPnlSummary F) → List (List ℕ) → PnlSummary F
  unfolding add_summary
  aggregate_summary rows selected =
      let total =
        foldl
          (λ (t : PnlSummary F) (row : SymbolPnlSummary F).
            if has selected row.symbol then add_summary t row.pnl else t)
          no_summary rows in
      record total { return_bps_on_volume = return_bps total.total_pnl_usdt total.volume_usdt }
