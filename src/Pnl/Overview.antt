-- ===== src/Pnl/Overview.antt =====
-- src/pnl/overview.rs: the replay of an account for its daily values.
use crypto_nav_manager.Base.{
  ℕ, leb, ltb, ◌==◌, Bool, ◌&&◌, Option, none, some, List, [], ◌∷◌, ◌++◌, Outcome, done, failed,
  ◌>>=◌, if◌then◌else◌,
}
use crypto_nav_manager.Base.Maps.{lookup, insert}
use crypto_nav_manager.Base.Text.{bytes_key}
use crypto_nav_manager.Float.{Float}
use crypto_nav_manager.Pnl
use crypto_nav_manager.Pnl.{
  PnlSourceKind, InitialPosition, PnlInputs, PnlEvent, PnlError, unconverted_charges,
  non_finite_history, Literals,
}
use crypto_nav_manager.Pnl.Symbol
use crypto_nav_manager.Pnl.Symbol.{SymbolState, Metrics, metrics, seed_position, or_else}
use crypto_nav_manager.Pnl.States.{States, apply_event, metrics_or_none}
use crypto_nav_manager.Pnl.Track.{until, due, later, at_each}
use crypto_nav_manager.Pnl.Calculate.{sorted_events}

pub record History (F : Type 0) : Type 0 where
  pub boundaries : List (ℕ × F)
  pub points : List (ℕ × F)
  pub realized_boundaries : List (ℕ × F)
  pub final_realized_net : F
  pub final_pnl : F
  pub start_pnl : F

-- The variables of the loop; `start_pnl` is none until the replay has started.
pub record Replay (F : Type 0) : Type 0 where
  pub states : States F
  pub wanted : List ℕ
  pub boundaries : List (ℕ × F)
  pub realized_boundaries : List (ℕ × F)
  pub points : List (ℕ × F)
  pub total : F
  pub realized_net : F
  pub start_pnl : Option F

-- The boundaries that are not after `end`, in order and once.
abbrev pub insert_boundary : ℕ → List ℕ → List ℕ
insert_boundary b [] = b ∷ []
insert_boundary b (c ∷ cs) =
    if b == c then c ∷ cs else if ltb b c then b ∷ c ∷ cs else c ∷ insert_boundary b cs

unfoldable pub wanted_of : ℕ → List ℕ → List ℕ
wanted_of end [] = []
wanted_of end (b ∷ bs) =
    if leb b end then insert_boundary b (wanted_of end bs) else wanted_of end bs

module _ {F : Type 0} where
  -- A point at the time of the last one takes its place.
  abbrev pub push_total : List (ℕ × F) → ℕ → F → List (ℕ × F)
  push_total [] ts total = (ts, total) ∷ []
  push_total ((t, v) ∷ []) ts total = if t == ts then (t, total) ∷ [] else (t, v) ∷ (ts, total) ∷ []
  push_total ((t, v) ∷ q ∷ qs) ts total = (t, v) ∷ push_total (q ∷ qs) ts total

  -- The first event from the start on fixes the total before it.
  abbrev pub start_at : ℕ → ℕ → F → Option F → Option F
  start_at start ts total (some v) = some v
  start_at start ts total none = if leb start ts then some total else none

module _ {F : Type 0} ⦃f : Float F⦄ where
  open f use {nought, add, sub, is_finite}

  -- Fees are already deducted in `fee_after_pnl_usdt`, including opening fees.
  unfoldable pub realized_net_pnl : Metrics F → F
  realized_net_pnl m = sub (add m.fee_after_pnl_usdt m.funding_pnl_usdt) m.interest_cost_usdt

  -- `entry` and `or_insert_with`.
  abbrev pub with_entry : PnlSourceKind → List ℕ → States F → States F
  with_entry source symbol states =
      insert symbol (or_else (lookup symbol states) (Symbol.for_source source)) states

module _ {F : Type 0} ⦃f : Float F⦄ (literals : Literals F) where
  open f use {nought, add, sub, is_finite}

  unfoldable pub seed_entries :
      PnlSourceKind → States F → List (InitialPosition F) → Outcome (PnlError F) (States F)
  unfolding seed_position lookup insert Symbol.for_source
  seed_entries source states [] = done states
  seed_entries source states (p ∷ ps) =
      seed_position literals (or_else (lookup p.symbol states) (Symbol.for_source source)) p
      >>= λ s. seed_entries source (insert p.symbol s states) ps

  -- The values at the boundaries that are not after the event are those before it.
  unfoldable pub pass_boundaries : ℕ → Replay F → Replay F
  unfolding due later
  pass_boundaries ts r = record r {
    wanted = later (ℕ.suc ts) r.wanted;
    boundaries = r.boundaries ++ due (ℕ.suc ts) r.total r.wanted;
    realized_boundaries = r.realized_boundaries ++ due (ℕ.suc ts) r.realized_net r.wanted;
  }

  abbrev pub is_converted : Metrics F → Bool
  is_converted m = m.unconverted_fee_count == 0 && m.unconverted_interest_count == 0

  -- The totals after an event of the symbol, whose metrics were `before`.
  unfoldable pub account : ℕ → ℕ → Metrics F → Metrics F → Replay F → Replay F
  unfolding realized_net_pnl
  account start ts before after r =
      let total = add r.total (sub after.total_pnl_usdt before.total_pnl_usdt) in
      record r {
        total = total;
        realized_net = add r.realized_net (sub (realized_net_pnl after) (realized_net_pnl before));
        points = if leb start ts then push_total r.points ts total else r.points;
      }

  unfoldable pub replay_event :
      PnlSourceKind → ℕ → Replay F → PnlEvent F → Outcome (PnlError F) (Replay F)
  unfolding lookup insert metrics Symbol.for_source pass_boundaries apply_event account Pnl.ts
      Pnl.symbol
  replay_event source start r e =
      let symbol = Pnl.symbol e in
      let ts = Pnl.ts e in
      let entered = with_entry source symbol r.states in
      apply_event entered e >>= λ (states : States F).
      let before = metrics_or_none literals (lookup symbol entered) in
      let after = metrics_or_none literals (lookup symbol states) in
      if is_converted after
      then done (
          account start ts before after (record (pass_boundaries ts r) {
            states = states;
            start_pnl = start_at start ts r.total r.start_pnl;
          }))
      else failed unconverted_charges

  unfoldable pub replay_all :
      PnlSourceKind → ℕ → Replay F → List (PnlEvent F) → Outcome (PnlError F) (Replay F)
  unfolding replay_event
  replay_all source start r [] = done r
  replay_all source start r (e ∷ es) =
      replay_event source start r e >>= λ r'. replay_all source start r' es

  -- The boundaries that are left, the last point, and the final values.
  unfoldable pub close_history : ℕ → Replay F → Outcome (PnlError F) (History F)
  close_history end r =
      let history : History F = record {
        boundaries = r.boundaries ++ at_each r.total r.wanted;
        points = r.points ++ (end, r.total) ∷ [];
        realized_boundaries = r.realized_boundaries ++ at_each r.realized_net r.wanted;
        final_realized_net = r.realized_net;
        final_pnl = r.total;
        start_pnl = or_else r.start_pnl r.total;
      } in
      if is_finite r.total && is_finite r.realized_net
      then done history
      else failed non_finite_history

  unfoldable pub replay :
      PnlSourceKind → PnlInputs F → ℕ → ℕ → List ℕ → Outcome (PnlError F) (History F)
  unfolding seed_entries until wanted_of replay_all close_history sorted_events
  replay source inputs start end boundaries =
      seed_entries source [] inputs.initial_positions >>= λ (states : States F).
      replay_all source start
        (record {
          states = states;
          wanted = wanted_of end boundaries;
          boundaries = [];
          realized_boundaries = [];
          points = [];
          total = nought;
          realized_net = nought;
          start_pnl = none;
        })
        (until end (sorted_events inputs))
      >>= λ r. close_history end r
