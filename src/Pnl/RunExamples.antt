-- ===== src/Pnl/RunExamples.antt =====
-- Runs of src/pnl.rs, `calculate`, that end.
use crypto_nav_manager.Base.{All, [], done, inr, is_done-done, none, refl, some, ◌∷◌, ◌≡◌}
use crypto_nav_manager.Base.Int
use crypto_nav_manager.Base.Int.{negsuc, pos}
use crypto_nav_manager.Base.Sort
use crypto_nav_manager.Base.Text.{codes}
use crypto_nav_manager.Float.Sample.{Sample, Sample-IsIeee, num, sample_float}
use crypto_nav_manager.Fifo.{buy, sell}
use crypto_nav_manager.Pnl.{PnlInputs, funding_rate}
use crypto_nav_manager.Pnl.Response.{PnlCalculation, PnlResponse}
use crypto_nav_manager.Pnl.Calculate
use crypto_nav_manager.Pnl.Calculate.{calculate, replay_events, sorted_events}
use crypto_nav_manager.Pnl.Symbols.{without_positions}
use crypto_nav_manager.Pnl.Totality.{calculate-done}
use crypto_nav_manager.Pnl.Examples.{btc, n, spot_trade, tiny_literals}
use crypto_nav_manager.Pnl.States.{Baselines, States}
use crypto_nav_manager.Pnl.Track.{Curves}
use crypto_nav_manager.Pnl.Order.{keys, rolling_boundaries}
use crypto_nav_manager.Pnl.Captures.{IsTotalAt}
use crypto_nav_manager.Pnl.Boundaries.{replay_events-IsTotalAt}

abbrev request : PnlCalculation Sample
request = record {
  source = funding_rate;
  exchange = codes "binance";
  strategy_start_ms = 0;
  start_ms = 50;
  end_ms = 200;
  selected_symbols = codes "btcusdt" ∷ [];
  max_points = 10;
  initial_snapshot_ts_ms = none;
  skipped_initial_position_count = 0;
  principal_usdt = some (n 1000);
}

calculate-done_example :
    (p : PnlResponse Sample) × (calculate tiny_literals
        (without_positions
          (spot_trade buy 1000 2 100 ∷ spot_trade sell 1300 3 104 ∷ [])
          (record { symbol = codes "BTCUSDT"; amount_usdt = n 20; ts = 103 } ∷ [])
          (record {
            symbol = codes "BTCUSDT";
            cost_usdt = some (n 5);
            conversion_price = some (n 1200);
            spot_quantity_delta = num (negsuc 0);
            ts = 104;
          }
            ∷ []))
        request
      ≡ done p)
unfolding Int.◌*ℤ◌ Calculate.available_symbols_of Calculate.select_symbols Calculate.sorted_set
    Sort.sort_by
calculate-done_example =
    calculate-done tiny_literals Sample-IsIeee
      (spot_trade buy 1000 2 100 ∷ spot_trade sell 1300 3 104 ∷ [])
      (record { symbol = codes "BTCUSDT"; amount_usdt = n 20; ts = 103 } ∷ [])
      (record {
        symbol = codes "BTCUSDT";
        cost_usdt = some (n 5);
        conversion_price = some (n 1200);
        spot_quantity_delta = num (negsuc 0);
        ts = 104;
      }
        ∷ [])
      request (refl, refl, refl)
      (
        ((refl, refl), (refl, refl), (refl, refl), refl),
        (
          ((refl, refl), (refl, refl), (refl, refl), refl),
          (tt, (inr (n 1200, refl, (refl, refl), (refl, refl), (refl, refl)), tt)),
        ),
      )

-- Events on both sides of a boundary, and the start of the curve after it.
abbrev funding_inputs : PnlInputs Sample
funding_inputs = record {
  trades = [];
  funding =
      record { symbol = codes "BTCUSDT"; amount_usdt = n 5; ts = 10 }
      ∷ record { symbol = codes "BTCUSDT"; amount_usdt = n 7; ts = 500 }
      ∷ [];
  interest = [];
  initial_positions = [];
}

abbrev one_symbol : States Sample
one_symbol = (codes "BTCUSDT", btc) ∷ []

replay-done :
    (r : Baselines Sample × Curves Sample) × (replay_events tiny_literals funding_rate
        (codes "BTCUSDT" ∷ [])
        100
        604800200
        (record {
          states = one_symbol;
          pending = rolling_boundaries 0 604800200;
          boundary_pnl = [];
        })
        (sorted_events funding_inputs)
      ≡ done r)
unfolding replay_events sorted_events Sort.sort_by
replay-done =
    is_done-done
      (replay_events tiny_literals funding_rate (codes "BTCUSDT" ∷ []) 100 604800200
        (record {
          states = one_symbol;
          pending = rolling_boundaries 0 604800200;
          boundary_pnl = [];
        })
        (sorted_events funding_inputs))
      refl

replay_events-IsTotalAt_example :
    (keys replay-done.0.1.track.boundary_pnl ≡ rolling_boundaries 0 604800200)
    × All
        (IsTotalAt tiny_literals (codes "BTCUSDT" ∷ []) one_symbol (sorted_events funding_inputs))
        replay-done.0.1.track.boundary_pnl
replay_events-IsTotalAt_example =
    replay_events-IsTotalAt tiny_literals (codes "BTCUSDT" ∷ []) funding_rate 0 100 604800200
      one_symbol funding_inputs replay-done.0.0 replay-done.0.1 replay-done.1
