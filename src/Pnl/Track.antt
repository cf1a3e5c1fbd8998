-- ===== src/Pnl/Track.antt =====
-- src/pnl.rs, `calculate`: the events applied in order, and the total PnL at each boundary.
use crypto_nav_manager.Base.{
  ℕ, ◌+◌, ◌-◌, leb, ltb, none, some, List, [], ◌∷◌, ◌++◌, Outcome, done, ◌>>=◌, if◌then◌else◌,
}
use crypto_nav_manager.Float.{Float}
use crypto_nav_manager.Pnl
use crypto_nav_manager.Pnl.{
  PnlEvent, PnlError, PnlInputs, PnlSourceKind, trade, funded, charged, Literals,
}
use crypto_nav_manager.Pnl.States.{
  States, Baselines, PnlPoint, apply_event, selected_total_pnl, aggregate_point, symbol_point, has,
}
use crypto_nav_manager.Pnl.Curve.{push_or_replace_point}
use crypto_nav_manager.Base.Maps.{lookup, insert}
use crypto_nav_manager.Base.Text.{bytes_key}

-- Seven days and thirty, in milliseconds.
abbrev pub rolling_windows_ms : List ℕ
rolling_windows_ms = 604800000 ∷ 2592000000 ∷ []

-- The boundaries of the windows that start within the strategy's history.
abbrev pub boundaries_from : ℕ → ℕ → List ℕ → List ℕ
boundaries_from strategy_start end [] = []
boundaries_from strategy_start end (window ∷ windows) =
    let rest = boundaries_from strategy_start end windows in
    if leb (strategy_start + window) end then (end - window) ∷ rest else rest

-- The boundaries that are not before `ts`.
unfoldable pub later : ℕ → List ℕ → List ℕ
later ts [] = []
later ts (b ∷ bs) = if ltb b ts then later ts bs else b ∷ bs

-- The states so far, the boundaries that are still to come, and the totals at those that are past.
pub record Track (F : Type 0) : Type 0 where
  pub states : States F
  pub pending : List ℕ
  pub boundary_pnl : List (ℕ × F)

-- The track, and the points of all selected symbols and of each of them.
pub record Curves (F : Type 0) : Type 0 where
  pub track : Track F
  pub points : List (PnlPoint F)
  pub points_by_symbol : List (List ℕ × List (PnlPoint F))

module _ {F : Type 0} where
  -- The boundaries before `ts` with the value.
  unfoldable pub due : ℕ → F → List ℕ → List (ℕ × F)
  due ts value [] = []
  due ts value (b ∷ bs) = if ltb b ts then (b, value) ∷ due ts value bs else []

  -- The events that are not after `end`.
  unfoldable pub until : ℕ → List (PnlEvent F) → List (PnlEvent F)
  unfolding Pnl.ts
  until end [] = []
  until end (e ∷ es) = if leb (Pnl.ts e) end then e ∷ until end es else until end es

  abbrev pub at_each : F → List ℕ → List (ℕ × F)
  at_each value [] = []
  at_each value (b ∷ bs) = (b, value) ∷ at_each value bs

  -- `partition_point`: the events before `start`, and the others.
  unfoldable pub before : ℕ → List (PnlEvent F) → List (PnlEvent F)
  unfolding Pnl.ts
  before start [] = []
  before start (e ∷ es) = if ltb (Pnl.ts e) start then e ∷ before start es else []

  unfoldable pub from_start : ℕ → List (PnlEvent F) → List (PnlEvent F)
  unfolding Pnl.ts
  from_start start [] = []
  from_start start (e ∷ es) = if ltb (Pnl.ts e) start then from_start start es else e ∷ es

module _ {F : Type 0} ⦃f : Float F⦄ (literals : Literals F) where
  -- The boundaries before `ts` take the total of the states.
  unfoldable pub capture : List (List ℕ) → ℕ → Track F → Track F
  unfolding due later selected_total_pnl
  capture selected ts t = record t {
    pending = later ts t.pending;
    boundary_pnl =
        t.boundary_pnl ++ due ts (selected_total_pnl literals t.states selected) t.pending;
  }

  -- All that are left take it.
  unfoldable pub capture_rest : List (List ℕ) → Track F → Track F
  unfolding selected_total_pnl
  capture_rest selected t = record t {
    pending = [];
    boundary_pnl =
        t.boundary_pnl ++ at_each (selected_total_pnl literals t.states selected) t.pending;
  }

  unfoldable pub follow_event :
      List (List ℕ) → Track F → PnlEvent F → Outcome (PnlError F) (Track F)
  unfolding capture Pnl.ts apply_event
  follow_event selected t e = apply_event t.states e >>= λ states.
      done (record (capture selected (Pnl.ts e) t) { states = states })

  -- The loop over the events before the start.
  unfoldable pub follow :
      List (List ℕ) → Track F → List (PnlEvent F) → Outcome (PnlError F) (Track F)
  unfolding follow_event
  follow selected t [] = done t
  follow selected t (e ∷ es) = follow_event selected t e >>= λ t'. follow selected t' es

  -- The points of a symbol with one more, where the symbol has points.
  abbrev pub push_symbol_point :
      List ℕ → PnlPoint F → List (List ℕ × List (PnlPoint F)) → List (List ℕ × List (PnlPoint F))
  push_symbol_point symbol p m = elim (lookup symbol m) [
    | none ↦ m
    | some ps ↦ insert symbol (push_or_replace_point ps p) m
  ]

  -- The new points of an event of a selected symbol.
  unfoldable pub plot :
      PnlSourceKind → Baselines F → List (List ℕ) → ℕ → List ℕ → Curves F → Curves F
  unfolding aggregate_point symbol_point push_or_replace_point
  plot source baselines selected ts symbol c = record c {
    points =
        push_or_replace_point c.points
          (aggregate_point literals ts c.track.states baselines selected source);
    points_by_symbol =
        push_symbol_point symbol (symbol_point literals ts symbol c.track.states baselines source)
          c.points_by_symbol;
  }

  -- The curves after an event that leaves the track `t`.
  unfoldable pub draw_event :
      PnlSourceKind → Baselines F → List (List ℕ) → Curves F → PnlEvent F → Track F → Curves F
  unfolding plot Pnl.ts Pnl.symbol
  draw_event source baselines selected c e t =
      let c' = record c { track = t } in
      if has selected (Pnl.symbol e)
      then plot source baselines selected (Pnl.ts e) (Pnl.symbol e) c'
      else c'

  -- The loop over the events from the start on, which ends after `end`.
  unfoldable pub draw :
      PnlSourceKind
      → Baselines F
      → List (List ℕ)
      → ℕ
      → Curves F
      → List (PnlEvent F)
      → Outcome (PnlError F) (Curves F)
  unfolding follow_event draw_event Pnl.ts
  draw source baselines selected end c [] = done c
  draw source baselines selected end c (e ∷ es) =
      let next = follow_event selected c.track e >>= λ t.
      draw source baselines selected end (draw_event source baselines selected c e t) es in
      if ltb end (Pnl.ts e) then done c else next
