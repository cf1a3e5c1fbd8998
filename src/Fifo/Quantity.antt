-- ===== src/Fifo/Quantity.antt =====
-- src/quantity_fifo_pnl.rs: lots in base-asset units, PnL as a price difference times the quantity.
-- The `quantity` of a lot is the field `amount` of `Fifo.Lot`.
pub mod Lots
use crypto_nav_manager.Base.{
  ℕ, suc, Option, none, some, List, [], ◌∷◌, ◌++◌, map, length, Outcome, done, failed, stuck, ◌>>=◌,
  ◌>>◌, if◌then◌else◌,
}
use mathlib.Core.List.{foldl}
use crypto_nav_manager.Float.{Float}
use crypto_nav_manager.Fifo.{
  Side, buy, sell, Lot, FifoPnlError, invalid_fee, validate_positive, close_lots,
}

pub record QuantityPnlSnapshot (F : Type 0) : Type 0 where
  pub gross_realized_pnl : F
  pub cumulative_fees : F
  pub realized_pnl : F
  pub floating_pnl : F
  pub total_pnl : F

pub record QuantityFifoPnl (F : Type 0) : Type 0 where
  pub longs : List (Lot F)
  pub shorts : List (Lot F)
  pub gross_realized_pnl : F
  pub cumulative_fees : F

module _ {F : Type 0} ⦃f : Float F⦄ where
  open f use {nought, one, add, sub, mul, neg, lt, is_finite}

  unfoldable pub close_gain : F → F → F → F → F
  close_gain close_price direction entry_price matched =
      mul (mul direction (sub close_price entry_price)) matched

  unfoldable pub close_fifo : List (Lot F) → F → F → F → Option (List (Lot F) × F × F)
  unfolding close_gain
  close_fifo lots close_price quantity direction =
      close_lots (close_gain close_price direction) (suc (length lots)) lots quantity nought

  unfoldable pub closing_side : QuantityFifoPnl F → Side → List (Lot F) × F
  closing_side s buy = (s.shorts, neg one)
  closing_side s sell = (s.longs, one)

  -- The lots that the loop leaves go back to their side.
  unfoldable pub settle_closed : QuantityFifoPnl F → Side → List (Lot F) → QuantityFifoPnl F
  settle_closed s buy lots = record s { shorts = lots }
  settle_closed s sell lots = record s { longs = lots }

  unfoldable pub push_back : QuantityFifoPnl F → Side → Lot F → QuantityFifoPnl F
  push_back s buy lot = record s { longs = s.longs ++ lot ∷ [] }
  push_back s sell lot = record s { shorts = s.shorts ++ lot ∷ [] }

  unfoldable pub finish_fill :
      QuantityFifoPnl F
      → Side
      → F
      → F
      → Option (List (Lot F) × F × F)
      → Outcome (FifoPnlError F) (QuantityFifoPnl F)
  unfolding settle_closed push_back
  finish_fill s side price fee none = stuck
  finish_fill s side price fee (some (lots, realized_pnl, remaining)) =
      let closed = settle_closed s side lots in
      let opened =
        if lt nought remaining
        then push_back closed side (record { entry_price = price; amount = remaining })
        else closed in
      done (record opened {
        gross_realized_pnl = add s.gross_realized_pnl realized_pnl;
        cumulative_fees = add s.cumulative_fees fee;
      })

  -- A call that fails has not changed the book.
  unfoldable pub apply_fill :
      QuantityFifoPnl F → Side → F → F → F → Outcome (FifoPnlError F) (QuantityFifoPnl F)
  unfolding closing_side close_fifo finish_fill
  apply_fill s side price quantity fee = do
    validate_positive "price" price
    validate_positive "quantity" quantity
    if is_finite fee
        then finish_fill s side price fee
            (close_fifo (closing_side s side).0 price quantity (closing_side s side).1)
        else failed (invalid_fee fee)

  unfoldable pub snapshot :
      QuantityFifoPnl F → F → F → Outcome (FifoPnlError F) (QuantityPnlSnapshot F)
  snapshot s bid ask = do
    validate_positive "bid" bid
    validate_positive "ask" ask
    let floating = foldl add (neg nought) (
        map (λ lot. mul (sub ask lot.entry_price) lot.amount) s.longs
        ++ map (λ lot. mul (sub lot.entry_price bid) lot.amount) s.shorts)
    let realized = sub s.gross_realized_pnl s.cumulative_fees
    done (record {
      gross_realized_pnl = s.gross_realized_pnl;
      cumulative_fees = s.cumulative_fees;
      realized_pnl = realized;
      floating_pnl = floating;
      total_pnl = add realized floating;
    })
