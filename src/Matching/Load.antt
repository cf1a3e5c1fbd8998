-- ===== src/Matching/Load.antt =====
-- src/intra_order_match.rs: an engine from a snapshot of pending orders.
use crypto_nav_manager.Base.{
  ◌||◌, not, Option, none, some, List, [], ◌∷◌, map, Outcome, done, failed, ◌>>=◌, if◌then◌else◌,
}
use crypto_nav_manager.Base.Int.{ℤ, pos}
use crypto_nav_manager.Base.Maps.{lookup, insert}
use crypto_nav_manager.Base.Sort.{sort_by}
use crypto_nav_manager.Float.{Float}
use crypto_nav_manager.Matching.{
  pending, MarginOrder, MatchError, bad_epsilon, non_pending, duplicate_pending, MatchEngine,
  int_key, queue_key, pending_le,
}
use crypto_nav_manager.Matching.State.{i64_min, put, push_back}

module _ {F : Type 0} ⦃f : Float F⦄ where
  open f use {nought, add, sub, mul, neg, abs, min, max, lt, le, is_finite}

  -- What a pending order that has a hedge already brings into the history.
  abbrev pub load_timing : MatchEngine F → MarginOrder F → Option ℤ → MatchEngine F
  load_timing e o none = e
  load_timing e o (some hts) = record e {
    first_hedge_timing =
        insert o.fkey
          (record {
            client_order_id = pos 0;
            create_ts_us = hts;
            new_ts_us = o.hedge_new_ts_us;
            terminal_ts_us = o.hedge_terminal_ts_us;
            source_ts_us = i64_min;
          })
          e.first_hedge_timing;
  }

  abbrev pub load_fill : MatchEngine F → ℤ → Option ℤ → MatchEngine F
  load_fill e k none = e
  load_fill e k (some fts) = record e {
    last_hedge_fill_ts_us = insert k fts e.last_hedge_fill_ts_us;
  }

  -- One order of the snapshot.
  unfoldable pub load_one : MatchEngine F → MarginOrder F → Outcome MatchError (MatchEngine F)
  load_one e o =
      if le o.remaining_amount e.epsilon
      then failed (non_pending o.fkey)
      else let e₁ = load_fill (load_timing e o o.hts) o.fkey o.fts in
        let e₂ = record e₁ {
          hedge_order_counts = insert o.fkey o.close_count e₁.hedge_order_counts;
        } in
        elim (lookup o.fkey e₂.orders) [
          | some old ↦ failed (duplicate_pending o.fkey)
          | none ↦ done (
              push_back (put e₂ o.fkey (record o { matching_state = pending })) (o.symbol, o.side)
                o.fkey)
        ]

  unfoldable pub load : MatchEngine F → List (MarginOrder F) → Outcome MatchError (MatchEngine F)
  unfolding load_one
  load e [] = done e
  load e (o ∷ os) = load_one e o >>= λ e'. load e' os

  abbrev pub empty_engine : F → MatchEngine F
  empty_engine epsilon = record {
    epsilon = epsilon;
    orders = [];
    queues = [];
    first_hedge_timing = [];
    last_hedge_fill_ts_us = [];
    hedge_order_counts = [];
    seen_hedge_orders = [];
  }

  unfoldable pub new : List (MarginOrder F) → F → Outcome MatchError (MatchEngine F)
  unfolding load
  new pending_orders epsilon =
      if not (is_finite epsilon) || lt epsilon nought
      then failed bad_epsilon
      else load (empty_engine epsilon) (sort_by pending_le pending_orders)

  abbrev order_at : ℤ × MarginOrder F → MarginOrder F
  order_at (k, o) = o

  pub into_orders : MatchEngine F → List (MarginOrder F)
  into_orders e = map order_at e.orders
