-- ===== src/Matching/Engine.antt =====
-- src/intra_order_match.rs: netting, hedging and batches of events.
use Prim.Native.String.{String}
use crypto_nav_manager.Base.{
  ℕ, zero, suc, Bool, true, false, ◌&&◌, ◌||◌, not, Option, none, some, List, [], ◌∷◌, ◌++◌, length,
  Outcome, done, failed, panicked, stuck, ◌>>=◌, if◌then◌else◌,
}
use crypto_nav_manager.Base.Int.{ℤ}
use crypto_nav_manager.Base.Maps.{lookup}
use crypto_nav_manager.Base.Sort.{sort_by}
use crypto_nav_manager.Float.{Float}
use crypto_nav_manager.Matching.{
  Side, opposite, MarginOrder, FuturesOrder, MatchEvent, margin, futures, HedgeResult, MatchError,
  no_real_fill, duplicate_margin, invalid_fill, no_fill_timestamp, MatchEngine, int_key, queue_key,
  event_le,
}
use crypto_nav_manager.Matching.State.{
  front, is_key, has_fill, clamp_zero, refresh_state, index, put, queue, push_back, pop_front,
}
use crypto_nav_manager.Matching.History.{record_hedge_order, admit}

module _ {F : Type 0} ⦃f : Float F⦄ where
  open f use {nought, add, sub, mul, neg, abs, min, max, lt, le, is_finite}

  -- An order after another one has netted `quantity` of it.
  unfoldable pub net : F → MarginOrder F → F → MarginOrder F
  unfolding refresh_state clamp_zero
  net epsilon o quantity =
      refresh_state
        (record o {
          remaining_amount = clamp_zero (sub o.remaining_amount quantity) epsilon;
          netted_amount = add o.netted_amount quantity;
        })
        epsilon

  -- One round of netting order `k` against order `j`, the front of the queue at `key`.
  unfoldable pub net_round :
      MatchEngine F → String × Side → ℤ → ℤ → F → Outcome MatchError (MatchEngine F)
  unfolding net index
  net_round e key k j new_remaining = do
    other ← index e j
    let quantity = min new_remaining other.remaining_amount
    let e₁ = put e j (net e.epsilon other quantity)
    current ← index e₁ k
    let e₂ = put e₁ k (net e.epsilon current quantity)
    after ← index e₂ j
    done (if le after.remaining_amount e.epsilon then pop_front e₂ key else e₂)

  -- `loop`, on fuel.
  unfoldable pub net_loop :
      ℕ → MatchEngine F → String × Side → ℤ → Outcome MatchError (MatchEngine F)
  net_loop zero e key k = stuck
  net_loop (suc fuel) e key k = elim (front (lookup key e.queues)) [
    | none ↦ done e
    | some j ↦ index e k >>= λ current. elim (le current.remaining_amount e.epsilon) [
      | true ↦ done e
      | false ↦ net_round e key k j current.remaining_amount >>= λ e'. net_loop fuel e' key k
    ]
  ]

  -- What is left of the order queues up behind the others of its side.
  unfoldable pub enqueue_rest :
      MatchEngine F → String × Side → ℤ → Outcome MatchError (MatchEngine F)
  unfolding index
  enqueue_rest e key k = do
    current ← index e k
    done (if lt e.epsilon current.remaining_amount then push_back e key k else e)

  -- A call that fails has not changed the engine.
  unfoldable pub apply_margin : MatchEngine F → MarginOrder F → Outcome MatchError (MatchEngine F)
  apply_margin e o =
      if not (is_finite o.open_fill_amount) || le o.open_fill_amount e.epsilon
      then failed (no_real_fill o.fkey)
      else elim (lookup o.fkey e.orders) [
        | some old ↦ failed (duplicate_margin o.fkey)
        | none ↦
            let e₁ = put e o.fkey (admit e o) in
            let others : String × Side = (o.symbol, opposite o.side) in
            net_loop (suc (suc (length (queue e others)))) e₁ others o.fkey >>= λ e₂.
            enqueue_rest e₂ (o.symbol, o.side) o.fkey
      ]

  -- An order after a hedge has closed `quantity` of it.
  unfoldable pub close : F → MarginOrder F → F → Option F → MarginOrder F
  unfolding refresh_state clamp_zero
  close epsilon o quantity cprice =
      refresh_state
        (record o {
          remaining_amount = clamp_zero (sub o.remaining_amount quantity) epsilon;
          camount = add o.camount quantity;
          close_notional = elim cprice [
            | none ↦ o.close_notional
            | some price ↦ add o.close_notional (mul quantity price)
          ];
        })
        epsilon

  -- `while remaining > self.epsilon`, on fuel: the engine, what is left of the hedge, and whether it
  -- has met its anchor.
  unfoldable pub hedge_loop :
      ℕ
      → MatchEngine F
      → String × Side
      → FuturesOrder F
      → F
      → Bool
      → Outcome MatchError (MatchEngine F × F × Bool)
  unfolding index close clamp_zero
  hedge_loop zero e key o remaining anchor = stuck
  hedge_loop (suc fuel) e key o remaining anchor = elim (lt e.epsilon remaining) [
    | false ↦ done (e, remaining, anchor)
    | true ↦ elim (front (lookup key e.queues)) [
      | none ↦ done (e, remaining, anchor)
      | some j ↦ index e j >>= λ order.
          let quantity = min remaining order.remaining_amount in
          let closed = close e.epsilon order quantity o.cprice in
          let e' = put e j closed in
          hedge_loop fuel (if le closed.remaining_amount e.epsilon then pop_front e' key else e')
            key o (clamp_zero (sub remaining quantity) e.epsilon) (anchor || is_key o.main_fkey j)
    ]
  ]

  unfoldable pub record_anchor :
      MatchEngine F → FuturesOrder F → Option ℤ → Outcome MatchError (MatchEngine F)
  record_anchor e o none = done e
  record_anchor e o (some k) = record_hedge_order e k o

  -- A call that fails has not changed the engine.
  unfoldable pub apply_futures :
      MatchEngine F → FuturesOrder F → Outcome MatchError (MatchEngine F × HedgeResult F)
  unfolding record_anchor
  apply_futures e o =
      if not (is_finite o.amount) || lt o.amount (neg e.epsilon)
      then failed (invalid_fill o.client_order_id)
      else if lt e.epsilon o.amount && not (has_fill o.fill_ts_us)
      then failed (no_fill_timestamp o.client_order_id)
      else let key : String × Side = (o.symbol, opposite o.side) in
        record_anchor e o o.main_fkey >>= λ e₁.
        hedge_loop (suc (suc (length (queue e₁ key)))) e₁ key o (max o.amount nought)
          (le o.amount e.epsilon)
        >>= λ (e₂, remaining, anchor). done (
          e₂,
          record {
            order = o;
            allocated_amount = sub o.amount remaining;
            unallocated_amount = remaining;
            anchor_matched = anchor;
          },
        )

  -- The events of a batch in order. An error ends the batch and keeps what it has done.
  unfoldable pub apply_events :
      MatchEngine F
      → List (MatchEvent F)
      → List (HedgeResult F)
      → MatchEngine F × Outcome MatchError (List (HedgeResult F))
  apply_events e [] hedges = (e, done hedges)
  apply_events e (margin o ∷ rest) hedges = elim (apply_margin e o) [
    | done e' ↦ apply_events e' rest hedges
    | failed x ↦ (e, failed x)
    | panicked ↦ (e, panicked)
    | stuck ↦ (e, stuck)
  ]
  apply_events e (futures o ∷ rest) hedges = elim (apply_futures e o) [
    | done (e', r) ↦ apply_events e' rest (hedges ++ r ∷ [])
    | failed x ↦ (e, failed x)
    | panicked ↦ (e, panicked)
    | stuck ↦ (e, stuck)
  ]

  unfoldable pub apply :
      MatchEngine F
      → List (MatchEvent F)
      → MatchEngine F × Outcome MatchError (List (HedgeResult F))
  unfolding apply_events
  apply e events = apply_events e (sort_by event_le events) []
