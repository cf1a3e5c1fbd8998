-- ===== src/Pnl/Totality.antt =====
-- src/pnl.rs, `calculate`: on valid events it ends with a response.
use crypto_nav_manager.Base.{
  ℕ, leb, ltb, ◌≡◌, refl, inl, true, false, ◌&&◌, not, some, List, [], ◌∷◌, All, done, is_done-done,
}
use crypto_nav_manager.Base.Maps.{lookup}
use crypto_nav_manager.Base.Sort.{sort_by, sort_by-All}
use crypto_nav_manager.Base.Text.{bytes_key}
use crypto_nav_manager.Float.{Float, IsIeee}
use crypto_nav_manager.Fifo.Amount
use crypto_nav_manager.Pnl
use crypto_nav_manager.Pnl.{
  PnlEvent, PnlError, PnlSourceKind, intra, funding_rate, market_making, futures_market_making, cta,
  Literals, NormalizedTrade, FundingEvent, InterestEvent, PnlInputs, event_le,
}
use crypto_nav_manager.Pnl.Venue
use crypto_nav_manager.Pnl.Symbol
use crypto_nav_manager.Pnl.Symbol.{or_else}
use crypto_nav_manager.Pnl.States.{PnlPoint, Baselines, has, aggregate_point}
use crypto_nav_manager.Pnl.Books.{IsSymbol, IsVenue, IsValid}
use crypto_nav_manager.Pnl.Curve.{downsample_extrema, push_or_replace_point}
use crypto_nav_manager.Pnl.Ticks.{resample_fixed_interval-some}
use crypto_nav_manager.Pnl.Track.{Track, Curves, boundaries_from, rolling_windows_ms}
use crypto_nav_manager.Pnl.Response.{
  PnlCalculation, PnlResponse, SymbolPnlSeries, pnl_tick_interval_ms, symbol_series, respond,
  end_points, clamp_points,
}
use crypto_nav_manager.Pnl.Calculate.{
  all_events, sorted_events, available_symbols_of, select_symbols, fresh_states, is_empty, seed_all,
  calculate,
}
use crypto_nav_manager.Pnl.Total.{IsReady, replay_events-done}
use crypto_nav_manager.Pnl.Symbols.{
  without_positions, available_symbols_of-has, lookup-fresh_states,
}

module _ (F : Type 0) ⦃f : Float F⦄ where
  for_source-IsVenue : (source : PnlSourceKind) → IsVenue {F = F} (Venue.for_source source)
  unfolding Venue.for_source Amount.new
  for_source-IsVenue intra = record { longs_open = tt; shorts_open = tt; one_sided = inl refl }
  for_source-IsVenue funding_rate = record {
    longs_open = tt;
    shorts_open = tt;
    one_sided = inl refl;
  }
  for_source-IsVenue market_making = record {
    longs_open = tt;
    shorts_open = tt;
    one_sided = inl refl;
  }
  for_source-IsVenue futures_market_making = record {
    longs_open = tt;
    shorts_open = tt;
    one_sided = inl refl;
  }
  for_source-IsVenue cta = record { longs_open = tt; shorts_open = tt; one_sided = inl refl }

  for_source-IsSymbol : (source : PnlSourceKind) → IsSymbol {F = F} (Symbol.for_source source)
  unfolding Symbol.for_source
  for_source-IsSymbol source = record {
    spot_book = for_source-IsVenue source;
    futures_book = for_source-IsVenue source;
  }

module _ {F : Type 0} ⦃f : Float F⦄ where
  fresh_states-IsReady :
      (source : PnlSourceKind) (available : List (List ℕ)) (es : List (PnlEvent F))
      → All (λ e. has available (Pnl.symbol e) ≡ true) es
      → All IsValid es
      → All (IsReady (fresh_states {F = F} source available)) es
  fresh_states-IsReady source available [] h v = tt
  fresh_states-IsReady source available (e ∷ es) (h, hs) (v, vs) = (
    (
      (
        Symbol.for_source source,
        lookup-fresh_states source available (Pnl.symbol e) h,
        for_source-IsSymbol F source,
      ),
      v,
    ),
    fresh_states-IsReady source available es hs vs,
  )

module _ {F : Type 0} ⦃f : Float F⦄ (literals : Literals F) where
  symbol_series-some :
      (start end max_points : ℕ) (m : List (List ℕ × List (PnlPoint F))) (ss : List (List ℕ))
      → (r : List (List (PnlPoint F) × SymbolPnlSeries F)) × (symbol_series literals start end
            max_points m ss
          ≡ some r)
  unfolding symbol_series
  symbol_series-some start end max_points m [] = ([], refl)
  symbol_series-some start end max_points m (s ∷ ss) =
      let (ps, sampled) =
        resample_fixed_interval-some (or_else (lookup s m) []) start end pnl_tick_interval_ms in
      let (rest, path) = symbol_series-some start end max_points m ss in
      (
        (ps, record { symbol = s; points = downsample_extrema ps max_points }) ∷ rest,
        rw (symbol_series, sampled, path) refl,
      )

  respond-done :
      (inputs : PnlInputs F) (r : PnlCalculation F) (available selected : List (List ℕ))
      (baselines : Baselines F) (c : Curves F)
      → (p : PnlResponse F) × (respond literals inputs r available selected baselines c ≡ done p)
  unfolding respond
  respond-done inputs r available selected baselines c =
      let states = c.track.states in
      let drawn =
        push_or_replace_point c.points
          (aggregate_point literals r.end_ms states baselines selected r.source) in
      let by_symbol =
        end_points literals r.source baselines r.end_ms states selected c.points_by_symbol in
      let (ticks, sampled) =
        resample_fixed_interval-some drawn r.start_ms r.end_ms pnl_tick_interval_ms in
      let (series, path) =
        symbol_series-some r.start_ms r.end_ms (clamp_points r.max_points) by_symbol selected in
      is_done-done (respond literals inputs r available selected baselines c)
        (rw (respond, sampled, path) refl)

  -- The request names a time span after the start of the strategy, and a symbol of the inputs if there is one.
  abbrev pub IsAnswerable : PnlInputs F → PnlCalculation F → Type 0
  IsAnswerable inputs r =
      (ltb r.start_ms r.strategy_start_ms ≡ false)
      × (ltb r.end_ms r.start_ms ≡ false)
      × ((is_empty (select_symbols (available_symbols_of inputs) r.selected_symbols)
            && not (is_empty (available_symbols_of inputs)))
          ≡ false)

  module _ (laws : IsIeee F) where
    -- On trades, funding and interest that the books take, without initial positions, and for a span after the
    -- strategy's start that names a symbol of the inputs, `calculate` ends with a response: each event finds the
    -- state of its symbol, no book panics or runs out of fuel, and every curve is sampled to its end.
    pub calculate-done :
        (trades : List (NormalizedTrade F)) (funding : List (FundingEvent F))
        (interest : List (InterestEvent F)) (r : PnlCalculation F)
        → IsAnswerable (without_positions trades funding interest) r
        → All IsValid (all_events (without_positions trades funding interest))
        → (p : PnlResponse F) × (calculate literals (without_positions trades funding interest) r
            ≡ done p)
    unfolding sorted_events seed_all calculate
    calculate-done trades funding interest r (started, ordered, named) valid =
        let inputs = without_positions trades funding interest in
        let available = available_symbols_of inputs in
        let selected = select_symbols available r.selected_symbols in
        let known =
          sort_by-All event_le (λ e. has available (Pnl.symbol e) ≡ true) (all_events inputs)
            (available_symbols_of-has trades funding interest) in
        let checked = sort_by-All event_le IsValid (all_events inputs) valid in
        let t : Track F = record {
          states = fresh_states r.source available;
          pending = sort_by leb (boundaries_from r.strategy_start_ms r.end_ms rolling_windows_ms);
          boundary_pnl = [];
        } in
        let ((baselines, c), replayed) =
          replay_events-done laws literals selected r.source r.start_ms r.end_ms t
            (sorted_events inputs)
            (fresh_states-IsReady r.source available (sorted_events inputs) known checked) in
        let (p, answered) = respond-done inputs r available selected baselines c in
        (p, rw (calculate, started, ordered, named, replayed, answered) refl)
