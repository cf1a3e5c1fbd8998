-- ===== src/Pnl/LoadExamples.antt =====
-- Tests of the rows of src/pnl.rs, and their theorems applied.
use crypto_nav_manager.Base.{ℕ, ◌≡◌, refl, none, some, [], ◌∷◌, done, arith}
use crypto_nav_manager.Base.Int
use crypto_nav_manager.Base.Int.{pos}
use crypto_nav_manager.Base.Text
use crypto_nav_manager.Base.Text.{codes}
use crypto_nav_manager.Float.Sample.{Sample, num, sample_float, Sample-IsIeee}
use crypto_nav_manager.Fifo.{sell}
use crypto_nav_manager.Pnl.{NormalizedTrade, futures}
use crypto_nav_manager.Pnl.Books.{IsValidTrade}
use crypto_nav_manager.Pnl.Charges.{nearest_trade_price}
use crypto_nav_manager.Pnl.Inputs.{MarketMakingTradeRow, market_making_trade}
use crypto_nav_manager.Pnl.Nearest.{IsNearest, nearest_trade_price-IsNearest}
use crypto_nav_manager.Pnl.Loading.{market_making_trade-IsValidTrade}

abbrev n : ℕ → Sample
n k = num (pos k)

-- Of two prices that are as near, the earlier.
nearest_trade_price_test :
    nearest_trade_price ((10, n 5) ∷ (20, n 6) ∷ (40, n 7) ∷ []) 15 ≡ some (n 5)
unfolding nearest_trade_price
nearest_trade_price_test = refl

nearest_trade_price-IsNearest_example :
    (q : ℕ × Sample) × (nearest_trade_price ((10, n 5) ∷ (20, n 6) ∷ (40, n 7) ∷ []) 33
      ≡ some (q.1))
    × IsNearest 33 ((10, n 5) ∷ (20, n 6) ∷ (40, n 7) ∷ []) q
nearest_trade_price-IsNearest_example =
    nearest_trade_price-IsNearest 33 (10, n 5) ((20, n 6) ∷ (40, n 7) ∷ [])
      ((omega arith, (omega arith, tt)), ((omega arith, tt), (tt, tt)))

abbrev row : MarketMakingTradeRow Sample
row = record {
  symbol = codes "btcusdt";
  side = codes "Sell";
  price = n 100;
  quantity = n 2;
  quote_quantity = some (n 200);
  fee_usdt = some (n 1);
  ts = 5;
}

abbrev sold : NormalizedTrade Sample
sold = record {
  symbol = codes "BTCUSDT";
  side = sell;
  leg = futures;
  price = n 100;
  amount_u = n 200;
  quantity = n 2;
  fee_usdt = some (n 1);
  ts = 5;
}

row_test : market_making_trade (codes "bybit") none row ≡ done sold
unfolding market_making_trade Int.◌*ℤ◌ Text.to_ascii_lowercase Text.to_ascii_uppercase
row_test = refl

market_making_trade-IsValidTrade_example : IsValidTrade sold
market_making_trade-IsValidTrade_example =
    market_making_trade-IsValidTrade Sample-IsIeee (codes "bybit") none row sold (refl, refl) refl
      row_test
