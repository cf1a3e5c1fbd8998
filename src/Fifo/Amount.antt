-- ===== src/Fifo/Amount.antt =====
-- src/fifo_pnl.rs: lots in quote amounts, PnL as a return on the matched amount.
pub mod Safety
pub mod Refinement
use crypto_nav_manager.Base.{
  ℕ, suc, ◌+◌, ◌≡◌, Bool, true, false, Option, none, some, List, [], ◌∷◌, ◌++◌, map, length,
  Outcome, done, failed, stuck, ◌>>=◌, ◌>>◌, if◌then◌else◌,
}
use mathlib.Core.List.{foldl}
use crypto_nav_manager.Float.{Float}
use crypto_nav_manager.Fifo.{
  Side, buy, sell, Lot, FifoPnlError, invalid_fee, validate_positive, close_lots,
}

pub record FillResult (F : Type 0) : Type 0 where
  pub realized_pnl : F
  pub matched_amount_u : F
  pub opened_amount_u : F
  pub cumulative_realized_pnl : F
  pub net_open_amount_u : F

pub record PnlSnapshot (F : Type 0) : Type 0 where
  pub gross_realized_pnl : F
  pub cumulative_fees : F
  pub realized_pnl : F
  pub floating_pnl : F
  pub total_pnl : F
  pub long_amount_u : F
  pub short_amount_u : F
  pub net_open_amount_u : F

pub record FifoPnl (F : Type 0) : Type 0 where
  pub longs : List (Lot F)
  pub shorts : List (Lot F)
  pub long_amount_u : F
  pub short_amount_u : F
  pub gross_realized_pnl : F
  pub cumulative_fees : F

module _ {F : Type 0} ⦃f : Float F⦄ where
  open f use {nought, one, add, sub, mul, div, neg, lt, is_finite}

  unfoldable pub new : FifoPnl F
  new = record {
    longs = [];
    shorts = [];
    long_amount_u = nought;
    short_amount_u = nought;
    gross_realized_pnl = nought;
    cumulative_fees = nought;
  }

  pub close_gain : F → F → F → F → F
  close_gain close_price direction entry_price matched =
      mul (div (mul direction (sub close_price entry_price)) entry_price) matched

  -- One more unit of fuel than there are lots: `Loop.close_lots-Closes`.
  pub close_fifo : List (Lot F) → F → F → F → Option (List (Lot F) × F × F)
  unfolding close_gain
  close_fifo lots close_price amount_u direction =
      close_lots (close_gain close_price direction) (suc (length lots)) lots amount_u nought

  pub net_open_amount_u : FifoPnl F → F
  net_open_amount_u s = sub s.long_amount_u s.short_amount_u

  -- The deque that a fill closes against, and the sign of its PnL.
  unfoldable pub closing_side : FifoPnl F → Side → List (Lot F) × F
  closing_side s buy = (s.shorts, neg one)
  closing_side s sell = (s.longs, one)

  pub settle_closed : FifoPnl F → Side → List (Lot F) → F → FifoPnl F
  settle_closed s buy lots matched = record s {
    shorts = lots;
    short_amount_u = sub s.short_amount_u matched;
  }
  settle_closed s sell lots matched = record s {
    longs = lots;
    long_amount_u = sub s.long_amount_u matched;
  }

  pub push_back : FifoPnl F → Side → Lot F → FifoPnl F
  push_back s buy lot = record s {
    longs = s.longs ++ lot ∷ [];
    long_amount_u = add s.long_amount_u lot.amount;
  }
  push_back s sell lot = record s {
    shorts = s.shorts ++ lot ∷ [];
    short_amount_u = add s.short_amount_u lot.amount;
  }

  pub open_remainder : FifoPnl F → Side → F → F → FifoPnl F
  unfolding push_back
  open_remainder s side price remaining =
      if lt nought remaining
      then push_back s side (record { entry_price = price; amount = remaining })
      else s

  -- `apply_fill` behind its checks.
  pub book_fill : FifoPnl F → Side → F → F → F → List (Lot F) × F × F → FifoPnl F × FillResult F
  unfolding settle_closed open_remainder net_open_amount_u
  book_fill s side price amount_u fee (lots, realized_pnl, remaining) =
      let matched = sub amount_u remaining in
      let opened = open_remainder (settle_closed s side lots matched) side price remaining in
      let s' = record opened {
        gross_realized_pnl = add s.gross_realized_pnl realized_pnl;
        cumulative_fees = add s.cumulative_fees fee;
      } in
      (
        s',
        record {
          realized_pnl = realized_pnl;
          matched_amount_u = matched;
          opened_amount_u = remaining;
          cumulative_realized_pnl = sub s'.gross_realized_pnl s'.cumulative_fees;
          net_open_amount_u = net_open_amount_u s';
        },
      )

  unfoldable pub finish_fill :
      FifoPnl F
      → Side
      → F
      → F
      → F
      → Option (List (Lot F) × F × F)
      → Outcome (FifoPnlError F) (FifoPnl F × FillResult F)
  unfolding book_fill
  finish_fill s side price amount_u fee none = stuck
  finish_fill s side price amount_u fee (some closed) =
      done (book_fill s side price amount_u fee closed)

  -- A call that fails has not changed the book.
  unfoldable pub apply_fill :
      FifoPnl F → Side → F → F → F → Outcome (FifoPnlError F) (FifoPnl F × FillResult F)
  unfolding closing_side close_fifo finish_fill
  apply_fill s side price amount_u fee = do
    validate_positive "price" price
    validate_positive "amount_u" amount_u
    if is_finite fee
        then finish_fill s side price amount_u fee
            (close_fifo (closing_side s side).0 price amount_u (closing_side s side).1)
        else failed (invalid_fee fee)

  -- `Sum for f64` starts from -0.0.
  sum : List F → F
  sum = foldl add (neg nought)

  pub floating_pnl : FifoPnl F → F → F → Outcome (FifoPnlError F) F
  unfolding sum
  floating_pnl s bid ask = do
    validate_positive "bid" bid
    validate_positive "ask" ask
    done (
        add
          (sum
            (map (λ lot. mul (div (sub ask lot.entry_price) lot.entry_price) lot.amount) s.longs))
          (sum
            (map (λ lot. mul (div (sub lot.entry_price bid) lot.entry_price) lot.amount) s.shorts)))

  pub mark_pnl : FifoPnl F → F → Outcome (FifoPnlError F) F
  unfolding floating_pnl
  mark_pnl s mark_price = floating_pnl s mark_price mark_price

  unfoldable pub snapshot : FifoPnl F → F → F → Outcome (FifoPnlError F) (PnlSnapshot F)
  unfolding floating_pnl
  snapshot s bid ask = do
    floating ← floating_pnl s bid ask
    let realized = sub s.gross_realized_pnl s.cumulative_fees
    done (record {
      gross_realized_pnl = s.gross_realized_pnl;
      cumulative_fees = s.cumulative_fees;
      realized_pnl = realized;
      floating_pnl = floating;
      total_pnl = add realized floating;
      long_amount_u = s.long_amount_u;
      short_amount_u = s.short_amount_u;
      net_open_amount_u = sub s.long_amount_u s.short_amount_u;
    })

  pub open_lot_count : FifoPnl F → ℕ
  open_lot_count s = length s.longs + length s.shorts
