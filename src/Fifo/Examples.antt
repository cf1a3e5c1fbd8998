-- ===== src/Fifo/Examples.antt =====
-- Tests of the FIFO engines, and their theorems at concrete inputs: amounts in whole units.
use crypto_nav_manager.Base.{ℕ, ◌≡◌, refl, inr, List, [], ◌∷◌, done, arith}
use crypto_nav_manager.Base.Int.{◌+ℤ◌, ◌-ℤ◌, ◌*ℤ◌}
use crypto_nav_manager.Float.Sample.{Sample, sample_float, units, Sample-IsIeee, sample_grid}
use crypto_nav_manager.Fifo.{sell, Lot, validate_positive, close_lots, reduce_front}
use crypto_nav_manager.Fifo.Ticks.{expand}
use crypto_nav_manager.Fifo.Amount
use crypto_nav_manager.Fifo.Amount.{FifoPnl, FillResult}
use crypto_nav_manager.Fifo.Amount.Safety.{IsBook, apply_fill-IsBook}
use crypto_nav_manager.Fifo.Amount.Refinement.{
  View, fill_queues, opening_queue, Reports, apply_fill-fill_queues,
}
use crypto_nav_manager.Fifo.Quantity
use crypto_nav_manager.Fifo.Quantity.{QuantityFifoPnl}
use crypto_nav_manager.Fifo.Quantity.Lots.{amount_lots}

abbrev lot : ℕ → ℕ → Lot Sample
lot price amount = record { entry_price = units price; amount = units amount }

abbrev book : FifoPnl Sample
book = record {
  longs = lot 100 1000 ∷ lot 110 2200 ∷ [];
  shorts = [];
  long_amount_u = units 3200;
  short_amount_u = units 0;
  gross_realized_pnl = units 0;
  cumulative_fees = units 0;
}

abbrev quantities : QuantityFifoPnl Sample
quantities = record {
  longs = lot 100 1000 ∷ lot 110 2200 ∷ [];
  shorts = [];
  gross_realized_pnl = units 0;
  cumulative_fees = units 0;
}

book-IsBook : IsBook book
book-IsBook = record {
  longs_open = (((refl, refl), (refl, refl)), (((refl, refl), (refl, refl)), tt));
  shorts_open = tt;
  one_sided = inr refl;
}

-- A sell of 1500 closes the oldest lot and a part of the next.
closes_oldest_first :
    amount_lots (Amount.apply_fill book sell (units 120) (units 1500) (units 0))
    ≡ done (lot 110 1700 ∷ [], [])
unfolding Amount.apply_fill validate_positive close_lots reduce_front ◌+ℤ◌ ◌-ℤ◌ ◌*ℤ◌
closes_oldest_first = refl

apply_fill-IsBook_example :
    (s' : FifoPnl Sample) × (r : FillResult Sample) × (Amount.apply_fill book sell
        (units 120)
        (units 1500)
        (units 0)
      ≡ done (s', r))
    × IsBook s'
apply_fill-IsBook_example =
    apply_fill-IsBook Sample-IsIeee book sell (units 120) (units 1500) (units 0) book-IsBook
      ((refl, refl), (refl, refl), refl)

abbrev small_book : FifoPnl Sample
small_book = record {
  longs = lot 100 2 ∷ lot 110 3 ∷ [];
  shorts = [];
  long_amount_u = units 5;
  short_amount_u = units 0;
  gross_realized_pnl = units 0;
  cumulative_fees = units 0;
}

abbrev ticks : List Sample
ticks = units 100 ∷ units 100 ∷ units 110 ∷ units 110 ∷ units 110 ∷ []

small_book-View : View (sample_grid 1000) small_book (ticks, [])
unfolding sample_grid expand
small_book-View = record {
  long_side = ((units 100, 2) ∷ (units 110, 3) ∷ [], (refl, refl, (refl, refl, tt)), refl, refl);
  short_side = ([], tt, refl, refl);
}

apply_fill-fill_queues_example :
    (s' : FifoPnl Sample) × (r : FillResult Sample) × (Amount.apply_fill small_book sell
        (units 120)
        (units 7)
        (units 0)
      ≡ done (s', r))
    × View (sample_grid 1000) s' (fill_queues sell (units 120) 7 (ticks, []))
    × Reports (sample_grid 1000) r sell 7 (ticks, [])
unfolding sample_grid opening_queue
apply_fill-fill_queues_example =
    apply_fill-fill_queues (sample_grid 1000) small_book sell (units 120) (units 7) (units 0) 7
      (ticks, []) small_book-View (refl, refl) refl refl (omega arith) (omega arith)
