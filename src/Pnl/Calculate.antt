-- ===== src/Pnl/Calculate.antt =====
-- src/pnl.rs, `calculate`: the PnL of a strategy between two times, of all selected symbols and of each.
-- A `BTreeSet` and a sorted vector without repeats are one list; a map of symbols has its keys in order.
use crypto_nav_manager.Base.{
  ℕ, leb, ltb, Bool, true, false, ◌&&◌, not, none, some, List, [], ◌∷◌, ◌++◌, map, Outcome, done,
  failed, ◌>>=◌, if◌then◌else◌,
}
use crypto_nav_manager.Base.Maps.{lookup, insert}
use crypto_nav_manager.Base.Sort.{sort_by}
use crypto_nav_manager.Base.Text.{bytes_eq, bytes_key, to_ascii_uppercase}
use crypto_nav_manager.Float.{Float}
use crypto_nav_manager.Pnl.{
  PnlSourceKind, NormalizedTrade, FundingEvent, InterestEvent, InitialPosition, PnlInputs, PnlEvent,
  trade, funded, charged, event_le, PnlError, missing_symbol, start_before_strategy,
  end_before_start, no_requested_symbol, Literals,
}
use crypto_nav_manager.Pnl.Symbol
use crypto_nav_manager.Pnl.Symbol.{SymbolState, seed_position, or_else}
use crypto_nav_manager.Pnl.States.{
  States, Baselines, PnlPoint, has, all_metrics, aggregate_point, symbol_point,
}
use crypto_nav_manager.Pnl.Track.{
  rolling_windows_ms, boundaries_from, Track, Curves, before, from_start, capture, capture_rest,
  follow, draw,
}
use crypto_nav_manager.Pnl.Response.{PnlCalculation, PnlResponse, symbol_le, respond}

-- `dedup`: of equal neighbours, the first.
abbrev pub dedup : List (List ℕ) → List (List ℕ)
dedup [] = []
dedup (s ∷ ss) = elim (dedup ss) [
  | [] ↦ s ∷ []
  | t ∷ ts ↦ if bytes_eq s t then t ∷ ts else s ∷ t ∷ ts
]

unfoldable pub sorted_set : List (List ℕ) → List (List ℕ)
unfolding sort_by
sorted_set ss = dedup (sort_by symbol_le ss)

abbrev pub only : List (List ℕ) → List (List ℕ) → List (List ℕ)
only available [] = []
only available (s ∷ ss) = if has available s then s ∷ only available ss else only available ss

abbrev pub is_empty : {A : Type 0} → List A → Bool
is_empty [] = true
is_empty (a ∷ rest) = false

unfoldable pub select_symbols : List (List ℕ) → List (List ℕ) → List (List ℕ)
unfolding sorted_set to_ascii_uppercase
select_symbols available [] = available
select_symbols available (s ∷ ss) = sorted_set (only available (map to_ascii_uppercase (s ∷ ss)))

module _ {F : Type 0} where
  -- Each symbol that some input names, once, in order.
  unfoldable pub available_symbols_of : PnlInputs F → List (List ℕ)
  unfolding sorted_set
  available_symbols_of inputs = sorted_set (
      map (λ (p : InitialPosition F). p.symbol) inputs.initial_positions
      ++ map (λ (t : NormalizedTrade F). t.symbol) inputs.trades
      ++ map (λ (e : FundingEvent F). e.symbol) inputs.funding
      ++ map (λ (e : InterestEvent F). e.symbol) inputs.interest)

  abbrev pub all_events : PnlInputs F → List (PnlEvent F)
  all_events inputs =
      map trade inputs.trades ++ map funded inputs.funding ++ map charged inputs.interest

  unfoldable pub sorted_events : PnlInputs F → List (PnlEvent F)
  unfolding sort_by event_le
  sorted_events inputs = sort_by event_le (all_events inputs)

module _ {F : Type 0} ⦃f : Float F⦄ where
  unfoldable pub fresh_states : PnlSourceKind → List (List ℕ) → States F
  unfolding Symbol.for_source
  fresh_states source [] = []
  fresh_states source (s ∷ ss) = (s, Symbol.for_source source) ∷ fresh_states source ss

module _ {F : Type 0} ⦃f : Float F⦄ (literals : Literals F) where
  unfoldable pub seed_all : States F → List (InitialPosition F) → Outcome (PnlError F) (States F)
  unfolding seed_position lookup insert
  seed_all states [] = done states
  seed_all states (p ∷ ps) = elim (lookup p.symbol states) [
    | none ↦ failed (missing_symbol p.symbol)
    | some s ↦ seed_position literals s p >>= λ s'. seed_all (insert p.symbol s' states) ps
  ]

  -- The first point of each selected symbol.
  unfoldable pub start_points :
      PnlSourceKind → Baselines F → ℕ → States F → List (List ℕ) → List (List ℕ × List (PnlPoint F))
  unfolding symbol_point
  start_points source baselines start states [] = []
  start_points source baselines start states (s ∷ ss) =
      (s, symbol_point literals start s states baselines source ∷ [])
      ∷ start_points source baselines start states ss

  -- The curves at the start: one point for all selected symbols, and one for each.
  unfoldable pub start_curves : PnlSourceKind → List (List ℕ) → ℕ → Baselines F → Track F → Curves F
  unfolding aggregate_point start_points
  start_curves source selected start baselines t = record {
    track = t;
    points = aggregate_point literals start t.states baselines selected source ∷ [];
    points_by_symbol = start_points source baselines start t.states selected;
  }

  -- All of the replay: up to the start, the baselines, up to the end, and what is left of the boundaries.
  unfoldable pub replay_events :
      PnlSourceKind
      → List (List ℕ)
      → ℕ
      → ℕ
      → Track F
      → List (PnlEvent F)
      → Outcome (PnlError F) (Baselines F × Curves F)
  unfolding before from_start follow capture capture_rest draw all_metrics start_curves
  replay_events source selected start end t events =
      follow literals selected t (before start events) >>= λ t'.
      let at_start = capture literals selected start t' in
      let baselines = all_metrics literals at_start.states in
      draw literals source baselines selected end
        (start_curves source selected start baselines at_start) (from_start start events)
      >>= λ (c : Curves F).
          done (baselines, record c { track = capture_rest literals selected c.track })

  unfoldable pub calculate : PnlInputs F → PnlCalculation F → Outcome (PnlError F) (PnlResponse F)
  unfolding available_symbols_of sorted_events select_symbols fresh_states seed_all replay_events
      respond
  calculate inputs r =
      let available = available_symbols_of inputs in
      let selected = select_symbols available r.selected_symbols in
      let run = seed_all (fresh_states r.source available) inputs.initial_positions >>= λ states.
      replay_events r.source selected r.start_ms r.end_ms
        (record {
          states = states;
          pending = sort_by leb (boundaries_from r.strategy_start_ms r.end_ms rolling_windows_ms);
          boundary_pnl = [];
        })
        (sorted_events inputs)
      >>= λ (baselines, c). respond literals inputs r available selected baselines c in
      if ltb r.start_ms r.strategy_start_ms
      then failed start_before_strategy
      else if ltb r.end_ms r.start_ms
      then failed end_before_start
      else if is_empty selected && not (is_empty available)
      then failed no_requested_symbol
      else run
