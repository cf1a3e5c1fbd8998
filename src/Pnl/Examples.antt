-- ===== src/Pnl/Examples.antt =====
-- Tests of the PnL of a strategy, src/pnl.rs and src/pnl/overview.rs, and its theorems applied.
use crypto_nav_manager.Base.{
  ℕ, ◌*◌, ◌/◌, ◌+◌, ◌≤◌, ◌≡◌, refl, inl, inr, none, some, List, [], ◌∷◌, All, length, done,
  is_done-done, arith,
}
use crypto_nav_manager.Pnl.Venue
use crypto_nav_manager.Base.Maps.{lookup}
use crypto_nav_manager.Float.Sample.{Sample-IsIeee}
use crypto_nav_manager.Pnl.{PnlEvent, trade, funded, charged}
use crypto_nav_manager.Pnl.Symbol
use crypto_nav_manager.Pnl.Symbol.{SymbolState}
use crypto_nav_manager.Pnl.States.{States, PnlPoint, zero_point, apply_all}
use crypto_nav_manager.Pnl.Curve.{resample_fixed_interval, downsample_extrema}
use crypto_nav_manager.Pnl.Books.{IsSymbol, apply_each-IsSymbol}
use crypto_nav_manager.Pnl.Isolation.{apply_each, of_symbol, apply_all-apply_each}
use crypto_nav_manager.Pnl.Ticks.{
  Reaches, hold_all, ticks_of, resample_fixed_interval-hold_all, resample_fixed_interval-some,
}
use crypto_nav_manager.Pnl.Extrema.{downsample_extrema-All}
use crypto_nav_manager.Fifo
use Prim.Native.String.{String}
use crypto_nav_manager.Base.Int
use crypto_nav_manager.Base.Int.{pos, negsuc}
use crypto_nav_manager.Base.Text.{codes, bytes_key}
use crypto_nav_manager.Pnl
use crypto_nav_manager.Float.Sample.{Sample, num, sample_float, nearest}
use crypto_nav_manager.Fifo.{Side, buy, sell}
use crypto_nav_manager.Pnl.{
  PositionLeg, spot, futures, NormalizedTrade, FundingEvent, InterestEvent, PnlInputs, PnlError,
  Literals, program_literals, funding_rate,
}
use crypto_nav_manager.Pnl.Overview.{History, replay}

abbrev pub n : ℕ → Sample
n k = num (pos k)

-- The literals of the code, each at the nearest whole number.
abbrev pub tiny_literals : Literals Sample
tiny_literals = program_literals nearest (num (negsuc 999999999)) n

abbrev pub spot_trade : Side → ℕ → ℕ → ℕ → NormalizedTrade Sample
spot_trade side price quantity ts = record {
  symbol = codes "BTCUSDT";
  side = side;
  leg = spot;
  price = n price;
  amount_u = n (price * quantity);
  quantity = n quantity;
  fee_usdt = some (n 10);
  ts = ts;
}

-- The daily test of the repository, with every price and charge times ten.
abbrev daily : PnlInputs Sample
daily = record {
  trades = spot_trade buy 1000 2 100 ∷ spot_trade buy 1200 1 101 ∷ spot_trade sell 1300 1 102 ∷ [];
  funding = record { symbol = codes "BTCUSDT"; amount_usdt = n 20; ts = 103 } ∷ [];
  interest =
      record {
        symbol = codes "BTCUSDT";
        cost_usdt = some (n 5);
        conversion_price = none;
        spot_quantity_delta = n 0;
        ts = 104;
      }
      ∷ [];
  initial_positions = [];
}

abbrev one_trade : PnlInputs Sample
one_trade = record {
  trades = spot_trade buy 1000 2 100 ∷ [];
  funding = [];
  interest = [];
  initial_positions = [];
}

abbrev one_history : History Sample
one_history = record {
  boundaries = (100, n 0) ∷ (200, num (negsuc 9)) ∷ [];
  points = (100, num (negsuc 9)) ∷ (200, num (negsuc 9)) ∷ [];
  realized_boundaries = (100, n 0) ∷ (200, num (negsuc 9)) ∷ [];
  final_realized_net = num (negsuc 9);
  final_pnl = num (negsuc 9);
  start_pnl = n 0;
}

one-replay : replay tiny_literals funding_rate one_trade 0 200 (100 ∷ 200 ∷ []) ≡ done one_history
unfolding replay Fifo.validate_positive Fifo.close_lots Fifo.reduce_front Int.◌-ℤ◌ Int.◌+ℤ◌ Int.◌*ℤ◌
one-replay = refl

abbrev pub btc : SymbolState Sample
btc = Symbol.for_source funding_rate

btc-IsSymbol : IsSymbol btc
unfolding Symbol.for_source Venue.for_source
btc-IsSymbol = record {
  spot_book = record { longs_open = tt; shorts_open = tt; one_sided = inl refl };
  futures_book = record { longs_open = tt; shorts_open = tt; one_sided = inl refl };
}

abbrev events : List (PnlEvent Sample)
events =
    trade (spot_trade buy 1000 2 100)
    ∷ funded (record { symbol = codes "BTCUSDT"; amount_usdt = n 20; ts = 103 })
    ∷ trade (spot_trade sell 1300 3 104)
    ∷ charged (record {
      symbol = codes "BTCUSDT";
      cost_usdt = some (n 5);
      conversion_price = some (n 1200);
      spot_quantity_delta = num (negsuc 0);
      ts = 104;
    })
    ∷ []

apply_each-IsSymbol_example :
    (s : SymbolState Sample) × (apply_each btc events ≡ done s) × IsSymbol s
unfolding Int.◌*ℤ◌
apply_each-IsSymbol_example = apply_each-IsSymbol Sample-IsIeee btc events btc-IsSymbol (
  ((refl, refl), (refl, refl), (refl, refl), refl),
  (
    tt,
    (
      ((refl, refl), (refl, refl), (refl, refl), refl),
      (inr (n 1200, refl, (refl, refl), (refl, refl), (refl, refl)), tt),
    ),
  ),
)

abbrev received : String → ℕ → ℕ → PnlEvent Sample
received symbol amount ts =
    funded (record { symbol = codes symbol; amount_usdt = n amount; ts = ts })

abbrev two_symbols : States Sample
two_symbols = (codes "BTCUSDT", btc) ∷ (codes "ETHUSDT", btc) ∷ []

abbrev receipts : List (PnlEvent Sample)
receipts = received "BTCUSDT" 5 10 ∷ received "ETHUSDT" 7 11 ∷ received "BTCUSDT" 6 12 ∷ []

received-done : (s : States Sample) × (apply_all two_symbols receipts ≡ done s)
unfolding apply_all Pnl.symbol
received-done = is_done-done (apply_all two_symbols receipts) refl

apply_all-apply_each_example :
    (s : SymbolState Sample) × (apply_each btc (of_symbol (codes "BTCUSDT") receipts) ≡ done s)
    × (lookup (codes "BTCUSDT") received-done.0 ≡ some s)
unfolding lookup
apply_all-apply_each_example =
    apply_all-apply_each receipts two_symbols received-done.0 (codes "BTCUSDT") btc received-done.1
      refl

abbrev point : ℕ → ℕ → PnlPoint Sample
point ts total = record (zero_point ts) { total_pnl_usdt = n total }

resample_fixed_interval-hold_all_example :
    (count : ℕ) × Reaches ((4 / 10 + 1) * 10) 10 35 count
    × (resample_fixed_interval (point 4 0 ∷ point 12 5 ∷ point 30 8 ∷ []) 4 35 10
        ≡ some (hold_all (point 4 0) (point 12 5 ∷ point 30 8 ∷ []) (ticks_of 4 35 10 count)))
resample_fixed_interval-hold_all_example =
    resample_fixed_interval-hold_all 4 35 10 (point 4 0) (point 12 5 ∷ point 30 8 ∷ [])
      ((omega arith, tt), (tt, tt)) (omega arith) (omega arith)

resample_fixed_interval-some_example :
    (qs : List (PnlPoint Sample)) × (resample_fixed_interval (point 4 0 ∷ point 2 5 ∷ []) 4 35 10
      ≡ some qs)
resample_fixed_interval-some_example =
    resample_fixed_interval-some (point 4 0 ∷ point 2 5 ∷ []) 4 35 10

abbrev curve : List (PnlPoint Sample)
curve =
    point 0 0
    ∷ point 3 5
    ∷ point 6 2
    ∷ point 9 9
    ∷ point 12 1
    ∷ point 15 4
    ∷ point 18 8
    ∷ point 21 3
    ∷ point 24 7
    ∷ point 27 6
    ∷ point 30 2
    ∷ point 33 5
    ∷ []

downsample_extrema-All_example :
    All (λ (p : PnlPoint Sample). p.ts ≤ 33) (downsample_extrema curve 10)
    × (length (downsample_extrema curve 10) ≤ 10)
downsample_extrema-All_example =
    downsample_extrema-All (λ p. p.ts ≤ 33) curve 10 (omega arith)
      (
        omega arith,
        (
          omega arith,
          (
            omega arith,
            (
              omega arith,
              (
                omega arith,
                (
                  omega arith,
                  (
                    omega arith,
                    (omega arith, (omega arith, (omega arith, (omega arith, (omega arith, tt))))),
                  ),
                ),
              ),
            ),
          ),
        ),
      )
