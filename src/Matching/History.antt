-- ===== src/Matching/History.antt =====
-- src/intra_order_match.rs: what the engine records of the hedges of each margin order.
use crypto_nav_manager.Base.{
  Option, none, some, List, [], ◌∷◌, Outcome, done, panicked, if◌then◌else◌,
}
use crypto_nav_manager.Base.Int.{ℤ, pos, ◌+ℤ◌, max_ℤ}
use crypto_nav_manager.Base.Maps.{lookup, insert}
use crypto_nav_manager.Matching.{
  pending, MarginOrder, FuturesOrder, HedgeTiming, HedgeHistory, MatchError, MatchEngine, int_key,
  queue_key,
}
use crypto_nav_manager.Matching.State.{
  is_member, count_or_zero, later_fill, is_replaced, with_timing, put,
}

module _ {F : Type 0} where
  -- The order's copy of the first hedge's times, where both are there.
  abbrev pub copy_timing : MatchEngine F → ℤ → MatchEngine F
  copy_timing e k = elim (lookup k e.orders) [
    | none ↦ e
    | some o ↦ elim (lookup k e.first_hedge_timing) [
      | none ↦ e
      | some t ↦ put e k (with_timing o t)
    ]
  ]

  unfoldable pub record_first_hedge_timing : MatchEngine F → ℤ → HedgeTiming → MatchEngine F
  record_first_hedge_timing e k incoming =
      let e' =
        if is_replaced (lookup k e.first_hedge_timing) incoming
        then record e { first_hedge_timing = insert k incoming e.first_hedge_timing }
        else e in
      copy_timing e' k

  abbrev pub timing_of : FuturesOrder F → HedgeTiming
  timing_of o = record {
    client_order_id = o.client_order_id;
    create_ts_us = o.create_ts_us;
    new_ts_us = o.new_ts_us;
    terminal_ts_us = o.terminal_ts_us;
    source_ts_us = o.source_ts_us;
  }

  -- `seen_hedge_orders.insert`, and one more hedge where the pair is new.
  unfoldable pub count_hedge : MatchEngine F → ℤ → ℤ → MatchEngine F
  count_hedge e k id = if is_member (k, id) e.seen_hedge_orders then e else record e {
    seen_hedge_orders = (k, id) ∷ e.seen_hedge_orders;
    hedge_order_counts =
        insert k (count_or_zero (lookup k e.hedge_order_counts) +ℤ pos 1) e.hedge_order_counts;
  }

  unfoldable pub note_fill : MatchEngine F → ℤ → Option ℤ → MatchEngine F
  note_fill e k none = e
  note_fill e k (some ts) = record e {
    last_hedge_fill_ts_us =
        insert k (later_fill (lookup k e.last_hedge_fill_ts_us) ts) e.last_hedge_fill_ts_us;
  }

  -- `hedge_order_counts[&main_fkey]` panics on a missing key.
  unfoldable pub copy_history : MatchEngine F → ℤ → Outcome MatchError (MatchEngine F)
  copy_history e k = elim (lookup k e.orders) [
    | none ↦ done e
    | some o ↦ elim (lookup k e.hedge_order_counts) [
      | none ↦ panicked
      | some n ↦
          done (put e k (record o { fts = lookup k e.last_hedge_fill_ts_us; close_count = n }))
    ]
  ]

  unfoldable pub record_hedge_order :
      MatchEngine F → ℤ → FuturesOrder F → Outcome MatchError (MatchEngine F)
  unfolding record_first_hedge_timing count_hedge note_fill copy_history
  record_hedge_order e k o =
      let timed = record_first_hedge_timing e k (timing_of o) in
      let counted = count_hedge timed k o.client_order_id in
      copy_history (note_fill counted k o.fill_ts_us) k

  -- An order that a hedge has met before it came in.
  abbrev pub recall_timing : MarginOrder F → Option HedgeTiming → MarginOrder F
  recall_timing o none = o
  recall_timing o (some t) = with_timing o t

  abbrev pub recall_fill : MarginOrder F → Option ℤ → MarginOrder F
  recall_fill o none = o
  recall_fill o (some fts) = record o { fts = some (later_fill o.fts fts) }

  abbrev pub recall_count : MarginOrder F → Option ℤ → MarginOrder F
  recall_count o none = o
  recall_count o (some n) = record o { close_count = max_ℤ o.close_count n }

  -- The order as `apply_margin` puts it into the map.
  unfoldable pub admit : MatchEngine F → MarginOrder F → MarginOrder F
  admit e o =
      let fresh = record o { remaining_amount = o.open_fill_amount; matching_state = pending } in
      let timed = recall_timing fresh (lookup o.fkey e.first_hedge_timing) in
      let filled = recall_fill timed (lookup o.fkey e.last_hedge_fill_ts_us) in
      recall_count filled (lookup o.fkey e.hedge_order_counts)

  -- One history entry. The counter never falls, nor does the last fill.
  unfoldable pub seed_one : MatchEngine F → HedgeHistory → MatchEngine F
  unfolding record_first_hedge_timing note_fill
  seed_one e h =
      let k = h.main_fkey in
      let e₁ = record_first_hedge_timing e k h.first_order in
      let count = max_ℤ (count_or_zero (lookup k e₁.hedge_order_counts)) h.order_count in
      let e₂ = record e₁ { hedge_order_counts = insert k count e₁.hedge_order_counts } in
      let e₃ = note_fill e₂ k h.last_fill_ts_us in
      elim (lookup k e₃.orders) [
        | none ↦ e₃
        | some o ↦ put e₃ k (record o {
          fts = lookup k e₃.last_hedge_fill_ts_us;
          close_count = max_ℤ o.close_count count;
        })
      ]

  unfoldable pub seed_hedge_history : MatchEngine F → List HedgeHistory → MatchEngine F
  unfolding seed_one
  seed_hedge_history e [] = e
  seed_hedge_history e (h ∷ hs) = seed_hedge_history (seed_one e h) hs
