-- ===== src/Matching/Examples.antt =====
-- Tests of the matching engine, and its theorems at concrete inputs: amounts in whole units.
use crypto_nav_manager.Base.{
  ℕ, ◌+◌, ◌≡◌, refl, ◌⊎◌, inl, true, false, none, some, List, [], ◌∷◌, ◌++◌, map, Outcome, done,
  failed,
}
use crypto_nav_manager.Base.Int.{ℤ, pos, ◌+ℤ◌, ◌-ℤ◌, ◌*ℤ◌}
use crypto_nav_manager.Base.Maps.{lookup, insert}
use crypto_nav_manager.Base.Sort.{sort_by, IsSorted}
use crypto_nav_manager.Float.Sample.{Sample, sample_float, units, Sample-IsIeee}
use crypto_nav_manager.Matching.{
  Side, buy, sell, MatchingState, pending, netted, MarginOrder, FuturesOrder, MatchEvent, margin,
  futures, HedgeResult, MatchError, MatchEngine, int_key, queue_key, event_le, opposite,
  no_real_fill, duplicate_margin, invalid_fill, no_fill_timestamp,
}
use crypto_nav_manager.Matching.State.{queue}
use crypto_nav_manager.Matching.Engine.{
  apply_margin, apply_futures, apply, net_loop, net_round, enqueue_rest, hedge_loop,
}
use crypto_nav_manager.Matching.History.{admit, record_hedge_order}
use crypto_nav_manager.Matching.Load.{empty_engine}
use crypto_nav_manager.Matching.Soundness.{IsSound}
use crypto_nav_manager.Matching.Recording.{TellsCount, SameBook, record_hedge_order-SameBook}
use crypto_nav_manager.Matching.Counting.{IsCounted, CountsOnce}
use crypto_nav_manager.Matching.Margin.{IsUncrossed, apply_margin-Keeps, unfilled}
use crypto_nav_manager.Matching.Futures.{apply_futures-Keeps, invalid, untimed}
use crypto_nav_manager.Matching.Batch.{IsReady, Ends, apply-IsReady, after, apply-append}

abbrev order : ℕ → Side → ℕ → ℕ → MarginOrder Sample
order key side time filled = record {
  fkey = pos key;
  symbol = "BTCUSDT";
  side = side;
  cts = pos time;
  open_uts = pos time;
  open_mkt_ts_us = none;
  open_new_ts_us = none;
  open_terminal_ts_us = none;
  open_terminal_ts_local_us = none;
  hts = none;
  hedge_new_ts_us = none;
  hedge_terminal_ts_us = none;
  fts = none;
  close_count = pos 0;
  price = units 100;
  amount = units filled;
  range = units 0;
  tlen = none;
  open_fill_amount = units filled;
  remaining_amount = units 0;
  camount = units 0;
  netted_amount = units 0;
  close_notional = units 0;
  matching_state = pending;
  open_source_ts_us = pos time;
}

abbrev hedge : ℕ → ℕ → Side → ℕ → ℕ → FuturesOrder Sample
hedge id key side time amount = record {
  client_order_id = pos id;
  main_fkey = some (pos key);
  symbol = "BTCUSDT";
  side = side;
  create_ts_us = pos time;
  update_ts_us = pos time;
  new_ts_us = none;
  terminal_ts_us = none;
  fill_ts_us = some (pos (time + 5));
  source_ts_us = pos time;
  amount = units amount;
  cprice = some (units 110);
  event_count = pos 1;
}

abbrev fresh : MatchEngine Sample
fresh = empty_engine (units 0)

abbrev first_chunk : List (MatchEvent Sample)
first_chunk = margin (order 1 buy 10 4) ∷ margin (order 2 buy 20 2) ∷ []

abbrev second_chunk : List (MatchEvent Sample)
second_chunk = margin (order 3 sell 30 1) ∷ futures (hedge 20 1 sell 40 4) ∷ []

abbrev amounts : MarginOrder Sample → MatchingState × Sample × Sample × Sample
amounts o = (o.matching_state, o.remaining_amount, o.camount, o.netted_amount)

-- `apply`, opened down to the numbers.
run :
    MatchEngine Sample
    → List (MatchEvent Sample)
    → MatchEngine Sample × Outcome MatchError (List (HedgeResult Sample))
unfolding apply apply_margin apply_futures lookup insert ◌+ℤ◌ ◌-ℤ◌ ◌*ℤ◌ sort_by event_le net_loop
    net_round enqueue_rest admit opposite record_hedge_order hedge_loop
run = apply

-- The sell nets one unit of the oldest buy, and the hedge closes the rest of it and one of the next.
nets_and_hedges :
    map
      (λ (p : ℤ × MarginOrder Sample). amounts p.1)
      (run fresh (first_chunk ++ second_chunk)).0.orders
    ≡ (MatchingState.mixed, units 0, units 3, units 1)
      ∷ (pending, units 1, units 1, units 0)
      ∷ (netted, units 0, units 0, units 1)
      ∷ []
unfolding run
nets_and_hedges = refl

fresh-IsReady : IsReady fresh
unfolding lookup
fresh-IsReady = record {
  sound = record { tolerance = (refl, refl); queues = λ key. (tt, tt) };
  uncrossed = λ symbol. inl refl;
  counted = (tt, λ k. refl);
}

apply-IsReady_example :
    IsReady (apply fresh (first_chunk ++ second_chunk)).0
    × Ends (apply fresh (first_chunk ++ second_chunk)).1
apply-IsReady_example =
    apply-IsReady Sample-IsIeee fresh (first_chunk ++ second_chunk) fresh-IsReady

first_run : apply fresh first_chunk ≡ ((apply fresh first_chunk).0, done [])
unfolding run
first_run = refl

in_order : IsSorted event_le (first_chunk ++ second_chunk)
unfolding event_le
in_order = (refl, (refl, (refl, tt)))

apply-append_example :
    apply fresh (first_chunk ++ second_chunk)
    ≡ after [] (apply (apply fresh first_chunk).0 second_chunk)
apply-append_example =
    apply-append fresh (apply fresh first_chunk).0 first_chunk second_chunk [] in_order first_run

half_way-IsReady : IsReady (apply fresh first_chunk).0
half_way-IsReady = (apply-IsReady Sample-IsIeee fresh first_chunk fresh-IsReady).0

apply_margin-Keeps_example :
    let e = (apply fresh first_chunk).0 in
    let o = order 3 sell 30 1 in
    ((apply_margin e o ≡ failed (no_real_fill (pos 3))) × (unfilled e o ≡ true))
    ⊎ ((apply_margin e o ≡ failed (duplicate_margin (pos 3)))
        × (unfilled e o ≡ false)
        × ((old : MarginOrder Sample) × (lookup (pos 3) e.orders ≡ some old)))
    ⊎ ((e' : MatchEngine Sample) × (apply_margin e o ≡ done e')
        × IsSound e'
        × IsUncrossed e'
        × IsCounted e'
        × (unfilled e o ≡ false)
        × (lookup (pos 3) e.orders ≡ none))
apply_margin-Keeps_example =
    apply_margin-Keeps Sample-IsIeee (apply fresh first_chunk).0 (order 3 sell 30 1)
      half_way-IsReady.sound half_way-IsReady.uncrossed half_way-IsReady.counted

apply_futures-Keeps_example :
    let e = (apply fresh first_chunk).0 in
    let o = hedge 20 1 sell 40 4 in
    ((apply_futures e o ≡ failed (invalid_fill (pos 20))) × (invalid e o ≡ true))
    ⊎ ((apply_futures e o ≡ failed (no_fill_timestamp (pos 20)))
        × (invalid e o ≡ false)
        × (untimed e o ≡ true))
    ⊎ ((e' : MatchEngine Sample) × (h : HedgeResult Sample) × (apply_futures e o ≡ done (e', h))
        × IsSound e'
        × IsUncrossed e'
        × IsCounted e'
        × (invalid e o ≡ false)
        × (untimed e o ≡ false)
        × ((sample_float.lt e.epsilon h.unallocated_amount ≡ false)
            ⊎ (queue e' ("BTCUSDT", opposite sell) ≡ [])))
apply_futures-Keeps_example =
    apply_futures-Keeps Sample-IsIeee (apply fresh first_chunk).0 (hedge 20 1 sell 40 4)
      half_way-IsReady.sound half_way-IsReady.uncrossed half_way-IsReady.counted

record_hedge_order-SameBook_example :
    let e = (apply fresh first_chunk).0 in
    (e' : MatchEngine Sample) × (record_hedge_order e (pos 1) (hedge 20 1 sell 40 4) ≡ done e')
    × SameBook e e'
    × IsCounted e'
    × CountsOnce e (pos 1) (pos 20) e'
    × TellsCount (lookup (pos 1) e'.orders) (lookup (pos 1) e'.hedge_order_counts)
record_hedge_order-SameBook_example =
    record_hedge_order-SameBook (apply fresh first_chunk).0 (pos 1) (hedge 20 1 sell 40 4)
      half_way-IsReady.counted
